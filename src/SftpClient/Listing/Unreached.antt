-- ===== src/SftpClient/Listing/Unreached.antt =====
-- What the server has refused to list when a link could not be resolved.
use kasten_frs_web.Base.{
  ℕ, zero, suc, ◌+◌, ◌≡◌, refl, ◌≢◌, ◌⊎◌, inl, inr, true, false, none, not, ◌&&◌, ◌||◌, List, [],
  ◌∷◌, arith, sym, ap, subst, ◌∙◌, Bool-cases, text_beq_iff, Str, leb, ltb, ◌==◌, nat_eq, text_eq,
  length, drop, All, Occurs,
}
use kasten_frs_web.SftpClient.{SftpServer, Session, succeeded, probe}
use kasten_frs_web.SftpClient.Chroot.{
  strip, discover, use_cached, target_parts, resolve_absolute_target,
}
use kasten_frs_web.SftpClient.Junctions.{walk, ancestor_walk_resolve}
use kasten_frs_web.SftpClient.Junctions.Walk.{is_rooted-dir, validate_path-join_path}
use kasten_frs_web.SftpClient.Validate.{validate_path}
use kasten_frs_web.SftpClient.Validate.Meaning.{validate_path_iff}
use kasten_frs_web.Std.Paths.{dot, is_rooted, join_path, dir}
use kasten_frs_web.Std.Strings.{slash, join}

-- The rooted paths of the last parts of a path, from the given parts on, so many of them.
abbrev pub stripped_paths : ℕ → List Str → List Str
stripped_paths zero ps = []
stripped_paths (suc n) [] = []
stripped_paths (suc n) (p ∷ ps) = (slash ∷ join slash (p ∷ ps)) ∷ stripped_paths n ps

-- A directory and so many less one above it, the root being above itself.
abbrev pub ancestors : ℕ → Str → List Str
ancestors zero c = []
ancestors (suc n) c = c ∷ ancestors n (dir c)

drop_cases :
    (n : ℕ) (xs : List Str)
    → (drop n xs ≡ [])
      ⊎ ((x : Str) × (drop n xs ≡ x ∷ drop (suc n) xs) × (leb (length xs) n ≡ false))
drop_cases zero [] = inl refl
drop_cases zero (x ∷ xs) = inr (x, refl, ground arith)
drop_cases (suc n) [] = inl refl
drop_cases (suc n) (x ∷ xs) = elim (drop_cases n xs) [
  | inl e ↦ inl e
  | inr (y, e, l) ↦ inr (y, e, ground (arith, l))
]

drop_one_more : (n : ℕ) (xs : List Str) → drop (suc n) xs ≡ drop (n + 1) xs
drop_one_more n xs = ap (λ k. drop k xs) (let e : suc n ≡ n + 1 = omega arith in e)

dir_root : dir (slash ∷ []) ≡ slash ∷ []
unfolding dir
dir_root = refl

top_directory : (c : Str) → is_rooted c ≡ true → (c == slash ∷ [] || c == dot) ≡ true → dir c ≡ c
top_directory c r e = elim (Bool-cases (c == slash ∷ [])) [
  | inl y ↦ let q = (text_beq_iff c _).0 y in rw (q, dir_root)
  | inr n ↦
      let q : c ≡ dot = (text_beq_iff c dot).0 (rw n at e) in
      cc (subst (λ x. is_rooted x ≡ true) q r)
]

module _ {W : Type 0} (srv : SftpServer W) where
  -- The server has refused to list a path.
  abbrev pub Refused : Str → Type 0
  Refused p = (before : W) × (succeeded (srv.read_dir p before).0 ≡ false)

  -- The root is not asked for.
  abbrev pub NotServed : Str → Type 0
  NotServed p = (p ≡ slash ∷ []) ⊎ Refused p

  discover-NotServed :
      (rounds depth : ℕ) (parts : List Str) (s : Session W)
      → (discover srv rounds depth parts s).0 ≡ []
      → All NotServed (stripped_paths rounds (drop (depth + 1) parts))
  unfolding discover probe
  discover-NotServed zero depth parts s h = tt
  discover-NotServed (suc rounds) depth parts s h = elim (drop_cases (depth + 1) parts) [
    | inl e ↦ rw e tt
    | inr (p, e', l) ↦
        let e = e' ∙ ap (◌∷◌ p) (drop_one_more (depth + 1) parts) in
        subst (λ xs. All NotServed (stripped_paths (suc rounds) xs)) (sym e)
          (elim (Bool-cases (strip depth parts == [])) [
            | inl f ↦ (
              inl (ap (◌∷◌ slash) (ap (join slash) (sym e) ∙ (text_beq_iff _ _).0 f)),
              discover-NotServed rounds (depth + 1) parts _ (rw (l, f) at h),
            )
            | inr f ↦ elim (Bool-cases (probe srv (slash ∷ strip depth parts) s).0) [
              | inl g ↦ cc (rw (l, f, g) at h)
              | inr g ↦ (
                subst (λ xs. NotServed (slash ∷ join slash xs)) e (inr (s.world, g)),
                discover-NotServed rounds (depth + 1) parts _ (rw (l, f, g) at h),
              )
            ]
          ])
  ]

  use_cached-NotServed :
      (parts : List Str) (s : Session W)
      → (use_cached srv parts s).0 ≡ []
      → All NotServed (stripped_paths 5 (drop 2 parts))
  unfolding use_cached
  use_cached-NotServed parts s h =
      elim (Bool-cases
        (ltb (s.chroot_depth + 1) (length parts) && not (strip s.chroot_depth parts == []))) [
          | inr e ↦ discover-NotServed 5 1 parts _ (rw e at h)
          | inl e ↦ elim (Bool-cases (probe srv (slash ∷ strip s.chroot_depth parts) s).0) [
            | inl g ↦ cc (rw (e, g) at h)
            | inr g ↦ discover-NotServed 5 1 parts _ (rw (e, g) at h)
          ]
        ]

  -- Where nothing is found for an absolute target, the server has refused each of its up to five
  -- strippings.
  pub resolve_absolute_target-NotServed :
      (target : Str) (s : Session W)
      → (resolve_absolute_target srv target s).0 ≡ []
      → All NotServed (stripped_paths 5 (drop 2 (target_parts target)))
  unfolding resolve_absolute_target
  resolve_absolute_target-NotServed target s h = elim (Bool-cases (ltb 0 s.chroot_depth)) [
    | inl e ↦ use_cached-NotServed (target_parts target) s (rw e at h)
    | inr e ↦ discover-NotServed 5 1 (target_parts target) s (rw e at h)
  ]

  module _ (name : Str) where
    abbrev NotBelow : Str → Type 0
    NotBelow c = Refused (join_path (c ∷ name ∷ []))

    repeated : (rounds : ℕ) (c : Str) → dir c ≡ c → NotBelow c → All NotBelow (ancestors rounds c)
    repeated zero c e r = tt
    repeated (suc rounds) c e r =
        (r, subst (λ x. All NotBelow (ancestors rounds x)) (sym e) (repeated rounds c e r))

    walk-Refused :
        (rounds depth : ℕ) (c : Str) (s : Session W)
        → is_rooted c ≡ true
        → name ≢ []
        → (walk srv rounds depth c name s).0.0 ≡ []
        → All NotBelow (ancestors rounds c)
    unfolding walk probe
    walk-Refused zero depth c s r n h = tt
    walk-Refused (suc rounds) depth c s r n h =
        elim (Bool-cases (probe srv (join_path (c ∷ name ∷ [])) s).0) [
          | inl g ↦ absurd (
              nonempty (
                subst (λ p. validate_path p ≡ none) (rw (g, walk) at h)
                  (validate_path-join_path c name r n)))
          | inr g ↦ elim (Bool-cases (c == slash ∷ [] || c == dot)) [
            | inl e ↦ repeated (suc rounds) c (top_directory c r e) (s.world, g)
            | inr e ↦ elim (Bool-cases (dir c == c)) [
              | inl f ↦ repeated (suc rounds) c ((text_beq_iff _ _).0 f) (s.world, g)
              | inr f ↦ (
                (s.world, g),
                walk-Refused rounds (depth + 1) (dir c) _ (is_rooted-dir c r) n
                    (rw (g, walk, e, f) at h),
              )
            ]
          ]
        ]
      where
        nonempty : validate_path [] ≡ none → ⊥
        nonempty v = cc ((validate_path_iff []).0 v).0

    one_higher :
        (rounds : ℕ) (c found : Str)
        → (found ≡ [])
          ⊎ ((a : Str) × Occurs a (ancestors rounds (dir c)) × (found ≡ join_path (a ∷ name ∷ [])))
        → (found ≡ [])
          ⊎ ((a : Str) × Occurs a (ancestors (suc rounds) c) × (found ≡ join_path (a ∷ name ∷ [])))
    one_higher rounds c found (inl e) = inl e
    one_higher rounds c found (inr (a, o, e)) = inr (a, inr o, e)

    -- What the walk finds is the name below one of the directories that it goes through.
    walk-Above :
        (rounds depth : ℕ) (c : Str) (s : Session W)
        → ((walk srv rounds depth c name s).0.0 ≡ [])
          ⊎ ((a : Str) × Occurs a (ancestors rounds c)
              × ((walk srv rounds depth c name s).0.0 ≡ join_path (a ∷ name ∷ [])))
    unfolding walk probe
    walk-Above zero depth c s = inl refl
    walk-Above (suc rounds) depth c s =
        elim (Bool-cases (probe srv (join_path (c ∷ name ∷ [])) s).0) [
          | inl g ↦ rw (g, walk) (inr (c, inl refl, refl))
          | inr g ↦ elim (Bool-cases (c == slash ∷ [] || c == dot)) [
            | inl e ↦ rw (g, walk, e) (inl refl)
            | inr e ↦ elim (Bool-cases (dir c == c)) [
              | inl f ↦ rw (g, walk, e, f) (inl refl)
              | inr f ↦
                  rw (g, walk, e, f)
                    (one_higher rounds c _ (
                      walk-Above rounds (depth + 1) (dir c)
                        (probe srv (join_path (c ∷ name ∷ [])) s).1))
            ]
          ]
        ]

    pub ancestor_walk_resolve-Above :
        (parent : Str) (s : Session W)
        → ((ancestor_walk_resolve srv parent name s).0.0 ≡ [])
          ⊎ ((a : Str) × Occurs a (ancestors 5 parent)
              × ((ancestor_walk_resolve srv parent name s).0.0 ≡ join_path (a ∷ name ∷ [])))
    unfolding ancestor_walk_resolve
    ancestor_walk_resolve-Above parent s = walk-Above 5 0 parent s

    -- Where the ancestor walk finds nothing, the server has refused the name below the directory and
    -- below the four above it.
    pub ancestor_walk_resolve-Refused :
        (parent : Str) (s : Session W)
        → is_rooted parent ≡ true
        → name ≢ []
        → (ancestor_walk_resolve srv parent name s).0.0 ≡ []
        → All NotBelow (ancestors 5 parent)
    unfolding ancestor_walk_resolve
    ancestor_walk_resolve-Refused parent s r n h = walk-Refused 5 0 parent s r n h
