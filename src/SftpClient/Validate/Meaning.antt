-- ===== src/SftpClient/Validate/Meaning.antt =====
-- What validatePath lets through.
use mathlib.Core.List.{reverse-cons, reverse-reverse}
use kasten_frs_web.Base.{
  ◌≡◌, refl, ◌≢◌, ◌↔◌, inl, inr, true, false, none, List, [], ◌∷◌, arith, Bool-cases, ◌==◌, eq_ne,
  ne_of_eq_false, Str, str, any, All, nat_eq, text_eq, ap, subst, ◌∙◌, Bool, not, ◌||◌, some, ◌++◌,
  reverse, append-nil, append_assoc, text_beq_iff, keep, All-map,
}
use kasten_frs_web.SftpClient.Validate.{
  validate_path, PathError, empty, not_absolute, parent_segment, not_rooted,
}
use kasten_frs_web.Std.Paths.{dot_dot, is_rooted, dot, resolve, resolve_all, clean}
use kasten_frs_web.Std.Paths.Cleaning.{
  clean_parts, clean_rooted, is_rooted-clean, IsPlain, clean_parts-IsPlain, split_of_parts,
}
use kasten_frs_web.Std.Strings.{slash, split, has_prefix, join}

pub has_prefix-slash : (p : Str) → has_prefix p (str "/") ≡ is_rooted p
unfolding has_prefix
has_prefix-slash [] = refl
has_prefix-slash (x ∷ xs) = ground arith

abbrev pub NoParent : List Str → Type 0
NoParent segs = All (λ seg. seg ≢ dot_dot) segs

NoParent-any : (segs : List Str) → any (λ seg. seg == dot_dot) segs ≡ false → NoParent segs
unfolding any
NoParent-any [] h = tt
NoParent-any (seg ∷ segs) h = elim (Bool-cases (seg == dot_dot)) [
  | inl e ↦ cc
  | inr e ↦ (ne_of_eq_false seg dot_dot e, NoParent-any segs (rw e at h))
]

any_of_NoParent : (segs : List Str) → NoParent segs → any (λ seg. seg == dot_dot) segs ≡ false
unfolding any
any_of_NoParent [] h = refl
any_of_NoParent (seg ∷ segs) h = rw (eq_ne seg dot_dot h.0) (any_of_NoParent segs h.1)

-- The path is absolute and none of its segments is "..".
abbrev pub IsValidPath : Str → Type 0
IsValidPath p = (is_rooted p ≡ true) × NoParent (split slash p)

abbrev climbs : Str → Bool
climbs p = any (λ seg. seg == dot_dot) (split slash p)

accepted_tests : (p : Str) → validate_path p ≡ none → (is_rooted p ≡ true) × (climbs p ≡ false)
unfolding validate_path
accepted_tests p h = ground (arith, has_prefix-slash p)

accepted_of_tests : (p : Str) → is_rooted p ≡ true → climbs p ≡ false → validate_path p ≡ none
unfolding validate_path
accepted_of_tests [] r c = cc
accepted_of_tests (x ∷ xs) r c = rw (
  eq_ne (x ∷ xs) [] (λ e. cc),
  has_prefix-slash (x ∷ xs),
  r,
  c,
  has_prefix-slash (clean (x ∷ xs)),
  is_rooted-clean (x ∷ xs) r,
)

-- validatePath accepts exactly the absolute paths without a ".." segment.
pub validate_path_iff : (p : Str) → (validate_path p ≡ none) ↔ IsValidPath p
validate_path_iff p = (
  λ h. let (r, c) = accepted_tests p h in (r, NoParent-any (split slash p) c),
  λ v. accepted_of_tests p v.0 (any_of_NoParent (split slash p) v.1),
)

-- What a refusal says: the first of the three faults that the path has. The fourth test of the
-- source, on the cleaned path, never fires.
abbrev pub Blames : Str → PathError → Type 0
Blames p empty = p ≡ []
Blames p not_absolute = (p ≢ []) × (is_rooted p ≡ false)
Blames p parent_segment = (is_rooted p ≡ true) × ¬ NoParent (split slash p)
Blames p not_rooted = ⊥

climbs-Blames : (p : Str) → climbs p ≡ true → ¬ NoParent (split slash p)
climbs-Blames p h n = cc (any_of_NoParent (split slash p) n)

-- A refusal of validatePath names the first fault that the path has: it is empty, it is not
-- absolute, or it has a ".." segment; the test of the cleaned path never fires.
pub validate_path-Blames : (p : Str) (e : PathError) → validate_path p ≡ some e → Blames p e
unfolding validate_path
validate_path-Blames p e h = elim (Bool-cases (p == [])) [
  | inl a ↦ subst (Blames p) {x = empty} (ground arith) ((text_beq_iff p []).0 a)
  | inr a ↦ elim (Bool-cases (is_rooted p)) [
    | inr b ↦
        subst (Blames p) {x = not_absolute} (ground (arith, has_prefix-slash p))
          (ne_of_eq_false p [] a, b)
    | inl b ↦ elim (Bool-cases (climbs p)) [
      | inl c ↦
          subst (Blames p) {x = parent_segment} (ground (arith, has_prefix-slash p))
            (b, climbs-Blames p c)
      | inr c ↦ absurd (ground (arith, accepted_of_tests p b c))
    ]
  ]
]

-- In a rooted path without "..", cleaning drops the empty and "." segments and nothing else.
unfoldable pub named : List Str → List Str
named segs = keep (λ seg. not (seg == [] || seg == dot)) segs

resolve_all-named :
    (stack segs : List Str)
    → NoParent segs
    → resolve_all true stack segs ≡ reverse (named segs) ++ stack
unfolding resolve_all resolve named keep
resolve_all-named stack [] h = refl
resolve_all-named stack (seg ∷ segs) h = elim (Bool-cases (seg == [] || seg == dot)) [
  | inl e ↦ rw e (resolve_all-named stack segs h.1)
  | inr e ↦
      rw (e, eq_ne seg dot_dot h.0)
        (resolve_all-named (seg ∷ stack) segs h.1
          ∙ simp (reverse-cons seg (named segs), append_assoc))
]

pub clean-named :
    (p : Str) → validate_path p ≡ none → clean p ≡ slash ∷ join slash (named (split slash p))
clean-named p h =
    let (r, n) = (validate_path_iff p).0 h in
    clean_rooted p r ∙ ap (λ ps. slash ∷ join slash ps) (kept n)
  where
    kept : NoParent (split slash p) → clean_parts p ≡ named (split slash p)
    kept n =
        unfold clean_parts in
        (ap reverse (resolve_all-named [] (split slash p) n ∙ append-nil _) ∙ reverse-reverse _)

segments_of_root : NoParent (split slash (slash ∷ join slash []))
unfolding split join
segments_of_root = (λ e. cc, (λ e. cc, tt))

pub segments_of_parts :
    (ps : List Str) → All IsPlain ps → NoParent (split slash (slash ∷ join slash ps))
segments_of_parts [] k = segments_of_root
segments_of_parts (p ∷ ps) k =
    rw (split_of_parts p ps k) (λ e. cc, All-map (λ q (i : IsPlain q). i.not_dot_dot) (p ∷ ps) k)

-- Cleaning a rooted path always gives a path that validatePath accepts.
pub validate_path-clean : (p : Str) → is_rooted p ≡ true → validate_path (clean p) ≡ none
validate_path-clean p h = (validate_path_iff (clean p)).1 (is_rooted-clean p h, segments)
  where
    segments : NoParent (split slash (clean p))
    segments = rw (clean_rooted p h) (segments_of_parts (clean_parts p) (clean_parts-IsPlain p))
