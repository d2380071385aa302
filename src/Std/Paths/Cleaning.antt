-- ===== src/Std/Paths/Cleaning.antt =====
-- A cleaned rooted path: a slash, then plain parts. So it cannot climb, and cleaning is idempotent.
use mathlib.Core.List.{reverse-cons, reverse-reverse}
use kasten_frs_web.Base.{
  ◌≢◌, inl, inr, true, List, [], ◌∷◌, Bool-cases, ◌==◌, eq_ne, ne_of_eq_false, Str, All, nat_eq,
  text_eq, ◌≡◌, refl, ap, ◌∙◌, ◌++◌, reverse, append-nil, append_assoc, All-map, All-reverse, Bool,
}
use kasten_frs_web.Std.Paths.{dot, dot_dot, pop, resolve, resolve_all, is_rooted, clean}
use kasten_frs_web.Std.Strings.{slash, split, join}
use kasten_frs_web.Std.Strings.Splitting.{Lacks, split-Lacks, split-join}

-- A part that names an entry: not empty, not "." and not "..", and free of slashes.
pub record IsPlain (part : Str) : Type 0 where
  pub nonempty : part ≢ []
  pub not_dot : part ≢ dot
  pub not_dot_dot : part ≢ dot_dot
  pub whole : Lacks slash part

pop-IsPlain : (stack : List Str) → All IsPlain stack → All IsPlain (pop true stack)
pop-IsPlain [] h = tt
pop-IsPlain (top ∷ stack) h = rw (eq_ne top dot_dot h.0.not_dot_dot) h.1

resolve-IsPlain :
    (stack : List Str) (part : Str)
    → All IsPlain stack
    → Lacks slash part
    → All IsPlain (resolve true stack part)
unfolding resolve
resolve-IsPlain stack part h l = elim (Bool-cases (part == [])) [
  | inl e ↦ rw e h
  | inr e ↦ elim (Bool-cases (part == dot)) [
    | inl d ↦ rw (e, d) h
    | inr d ↦ elim (Bool-cases (part == dot_dot)) [
      | inl u ↦ rw (e, d, u) (pop-IsPlain stack h)
      | inr u ↦
          rw (e, d, u)
            (
              record {
                nonempty = ne_of_eq_false part [] e;
                not_dot = ne_of_eq_false part dot d;
                not_dot_dot = ne_of_eq_false part dot_dot u;
                whole = l;
              },
              h,
            )
    ]
  ]
]

pub resolve_all-IsPlain :
    (stack parts : List Str)
    → All IsPlain stack
    → All (Lacks slash) parts
    → All IsPlain (resolve_all true stack parts)
unfolding resolve_all
resolve_all-IsPlain stack [] h l = h
resolve_all-IsPlain stack (part ∷ parts) h l =
    resolve_all-IsPlain (resolve true stack part) parts (resolve-IsPlain stack part h l.0) l.1

-- The parts that are left of a rooted path.
unfoldable pub clean_parts : Str → List Str
clean_parts p = reverse (resolve_all true [] (split slash p))

pub clean_parts-IsPlain : (p : Str) → All IsPlain (clean_parts p)
unfolding clean_parts
clean_parts-IsPlain p =
    All-reverse IsPlain _ (resolve_all-IsPlain [] (split slash p) tt (split-Lacks slash p))

pub clean_rooted : (p : Str) → is_rooted p ≡ true → clean p ≡ slash ∷ join slash (clean_parts p)
unfolding clean clean_parts
clean_rooted p h = rw h

pub is_rooted-clean : (p : Str) → is_rooted p ≡ true → is_rooted (clean p) ≡ true
is_rooted-clean p h = rw (clean_rooted p h) refl

resolve_plain :
    (rooted : Bool) (stack : List Str) (part : Str)
    → IsPlain part
    → resolve rooted stack part ≡ part ∷ stack
unfolding resolve
resolve_plain rooted stack part h =
    rw (eq_ne part [] h.nonempty, eq_ne part dot h.not_dot, eq_ne part dot_dot h.not_dot_dot)

pub resolve_all_plain :
    (rooted : Bool) (stack parts : List Str)
    → All IsPlain parts
    → resolve_all rooted stack parts ≡ reverse parts ++ stack
unfolding resolve_all
resolve_all_plain rooted stack [] h = refl
resolve_all_plain rooted stack (part ∷ parts) h = rw (resolve_plain rooted stack part h.0) (
    resolve_all_plain rooted (part ∷ stack) parts h.1
    ∙ simp (reverse-cons part parts, append_assoc))

pub Lacks-IsPlain : (ps : List Str) → All IsPlain ps → All (Lacks slash) ps
Lacks-IsPlain ps = All-map (λ p (h : IsPlain p). h.whole) ps

-- The segments of a slash and plain parts.
pub split_of_parts :
    (p : Str) (ps : List Str)
    → All IsPlain (p ∷ ps)
    → split slash (slash ∷ join slash (p ∷ ps)) ≡ [] ∷ p ∷ ps
unfolding split
split_of_parts p ps h = ap (◌∷◌ []) (split-join slash (p ∷ ps) tt (Lacks-IsPlain (p ∷ ps) h))

-- A path made of a slash and plain parts is clean.
pub clean_of_parts :
    (ps : List Str) → All IsPlain ps → clean (slash ∷ join slash ps) ≡ slash ∷ join slash ps
unfolding clean
clean_of_parts [] h = refl
clean_of_parts (p ∷ ps) h = rw (split_of_parts p ps h) (ap (λ qs. slash ∷ join slash qs) kept)
  where
    kept : reverse (resolve_all true [] ([] ∷ p ∷ ps)) ≡ p ∷ ps
    kept =
        ap reverse (resolve_all_plain true [] (p ∷ ps) h ∙ append-nil _) ∙ reverse-reverse (p ∷ ps)

pub clean_idempotent : (p : Str) → is_rooted p ≡ true → clean (clean p) ≡ clean p
clean_idempotent p h =
    rw (clean_rooted p h) (clean_of_parts (clean_parts p) (clean_parts-IsPlain p))
