-- ===== src/SftpClient/Junctions/Walk.antt =====
-- What the ancestor walk finds, and what it costs.
use kasten_frs_web.Base.{
  ℕ, zero, suc, ◌+◌, ◌≤◌, ◌≡◌, refl, ◌≢◌, ◌⊎◌, inl, inr, true, ◌||◌, none, [], ◌∷◌, ◌++◌, arith,
  nat_beq_iff, Bool-cases, Option-cases, ◌==◌, Str, take, nat_eq, text_eq, subst,
}
use kasten_frs_web.SftpClient.{SftpServer, Session, succeeded, probe, counting}
use kasten_frs_web.SftpClient.Chroot.Cost.{reads}
use kasten_frs_web.SftpClient.Junctions.{walk_rounds, walk, ancestor_walk_resolve}
use kasten_frs_web.SftpClient.Validate.{validate_path}
use kasten_frs_web.SftpClient.Validate.Meaning.{validate_path-clean}
use kasten_frs_web.Std.Paths.{dot, is_rooted, clean, join_path, dir}
use kasten_frs_web.Std.Paths.Cleaning.{is_rooted-clean}
use kasten_frs_web.Std.Strings.{slash, last_index_byte}

last_index_byte_cons : (xs : Str) → last_index_byte slash (slash ∷ xs) ≢ none
unfolding last_index_byte
last_index_byte_cons xs e = ground (arith, nat_beq_iff slash slash)

-- The directory of a rooted path is rooted.
pub is_rooted-dir : (p : Str) → is_rooted p ≡ true → is_rooted (dir p) ≡ true
unfolding dir
is_rooted-dir [] h = cc
is_rooted-dir (x ∷ xs) h = elim (Option-cases (last_index_byte slash (x ∷ xs))) [
  | inl e ↦ absurd (
      last_index_byte_cons xs
        (subst (λ y. last_index_byte slash (y ∷ xs) ≡ none) ((nat_beq_iff x slash).0 h) e))
  | inr (i, e) ↦ rw (e, dir) (is_rooted-clean (take (i + 1) (x ∷ xs)) (first i))
]
  where
    first : (i : ℕ) → is_rooted (take (i + 1) (x ∷ xs)) ≡ true
    first i = let e : i + 1 ≡ suc i = omega arith in rw e h

-- Joining a name to a rooted path cleans a rooted path.
pub join_path_rooted :
    (p name : Str)
    → is_rooted p ≡ true
    → name ≢ []
    → join_path (p ∷ name ∷ []) ≡ clean (p ++ (slash ∷ name))
unfolding join_path
join_path_rooted [] name h n = cc
join_path_rooted (x ∷ xs) [] h n = absurd (n refl)
join_path_rooted (x ∷ xs) (y ∷ ys) h n = refl

pub validate_path-join_path :
    (p name : Str)
    → is_rooted p ≡ true
    → name ≢ []
    → validate_path (join_path (p ∷ name ∷ [])) ≡ none
validate_path-join_path p name h n =
    rw (join_path_rooted p name h n) (validate_path-clean _ (rooted p h))
  where
    rooted : (q : Str) → is_rooted q ≡ true → is_rooted (q ++ (slash ∷ name)) ≡ true
    rooted [] k = cc
    rooted (x ∷ xs) k = k

module _ {W : Type 0} (srv : SftpServer W) where
  -- The path that was found: some directory above the link joined with the name, accepted by
  -- validatePath, and just listed by the server.
  pub record Found (r : (Str × ℕ) × Session W) : Type 0 where
    pub accepted : validate_path r.0.0 ≡ none
    pub before : W
    pub listed : succeeded (srv.read_dir r.0.0 before).0 ≡ true

  abbrev pub WalkOutcome : (Str × ℕ) × Session W → Type 0
  WalkOutcome r = (r.0.0 ≡ []) ⊎ Found r

  walk-Found :
      (rounds depth : ℕ) (candidate name : Str) (s : Session W)
      → is_rooted candidate ≡ true
      → name ≢ []
      → WalkOutcome (walk srv rounds depth candidate name s)
  unfolding walk probe
  walk-Found zero depth candidate name s h n = inl refl
  walk-Found (suc rounds) depth candidate name s h n =
      elim (Bool-cases (probe srv (join_path (candidate ∷ name ∷ [])) s).0) [
        | inl g ↦
            rw (g, walk)
              (inr (record {
                accepted = validate_path-join_path candidate name h n;
                before = s.world;
                listed = g;
              }))
        | inr g ↦ elim (Bool-cases (candidate == slash ∷ [] || candidate == dot)) [
          | inl e ↦ rw (g, walk, e) (inl refl)
          | inr e ↦ elim (Bool-cases (dir candidate == candidate)) [
            | inl f ↦ rw (g, walk, e, f) (inl refl)
            | inr f ↦
                rw (g, walk, e, f)
                  (walk-Found rounds (depth + 1) (dir candidate) name _ (is_rooted-dir candidate h)
                    n)
          ]
        ]
      ]

  -- The ancestor walk from a rooted directory, for a name that is not empty, returns nothing or a
  -- path that the server has just listed and that validatePath accepts.
  pub ancestor_walk_resolve-Found :
      (parent name : Str) (s : Session W)
      → is_rooted parent ≡ true
      → name ≢ []
      → ((ancestor_walk_resolve srv parent name s).0.0 ≡ [])
        ⊎ Found (ancestor_walk_resolve srv parent name s)
  unfolding ancestor_walk_resolve
  ancestor_walk_resolve-Found parent name s h n = walk-Found walk_rounds 0 parent name s h n

  walk-reads :
      (rounds depth : ℕ) (candidate name : Str) (s : Session (W × ℕ))
      → reads (walk (counting srv) rounds depth candidate name s).1 ≤ reads s + rounds
  unfolding walk probe counting
  walk-reads zero depth candidate name s = omega arith
  walk-reads (suc rounds) depth candidate name s = ground (
    arith,
    walk-reads rounds (depth + 1) (dir candidate) name
        (probe (counting srv) (join_path (candidate ∷ name ∷ [])) s).1,
  )

  -- The ancestor walk makes at most five reads.
  pub ancestor_walk_resolve-reads :
      (parent name : Str) (s : Session (W × ℕ))
      → reads (ancestor_walk_resolve (counting srv) parent name s).1 ≤ reads s + 5
  unfolding ancestor_walk_resolve
  ancestor_walk_resolve-reads parent name s = walk-reads walk_rounds 0 parent name s
