-- ===== src/Handlers/Paths/Crumbs.antt =====
-- The text helpers on a clean path: its crumbs, its parent and its last part.
use kasten_frs_web.Base.{
  text_eq, nat_eq, ℕ, suc, ◌+◌, ◌≡◌, refl, sym, ap, subst, ◌∙◌, ◌≢◌, some, List, [], ◌∷◌, ◌++◌,
  append_assoc, arith, eq_ne, Str, length, take, drop, All, false, ltb, text_beq, length-append,
  All-append,
}
use kasten_frs_web.Base.Int.{pos}
use kasten_frs_web.Handlers.Paths.{
  split_path, cut_at, build_path, parent_path, join_leaf, base_name,
}
use kasten_frs_web.Std.Paths.Cleaning.{IsPlain, Lacks-IsPlain}
use kasten_frs_web.Std.Paths.Parts.{
  join_append, join-IsCons, trim_right_part, has_suffix_part, last_index_part,
}
use kasten_frs_web.Std.Strings.{
  slash, join, trim_left, trim_right, trim, has_suffix, last_index_byte,
}
use kasten_frs_web.Std.Strings.Splitting.{IsCons, split-join}

-- The path of some parts.
abbrev pub path_of : List Str → Str
path_of ps = slash ∷ join slash ps

-- What stands before the last slash, by the parts before the last.
abbrev before_last : List Str → Str
before_last [] = []
before_last (p ∷ ps) = path_of (p ∷ ps)

take-length : (s t : Str) → take (length s) (s ++ t) ≡ s
take-length [] t = refl
take-length (c ∷ s) t = ap (◌∷◌ c) (take-length s t)

take_parts : (ps qs : List Str) → take (length ps) (ps ++ qs) ≡ ps
take_parts [] qs = refl
take_parts (p ∷ ps) qs = ap (◌∷◌ p) (take_parts ps qs)

drop_past : (s : Str) (c : ℕ) (t : Str) → drop (length s + 1) (s ++ (c ∷ t)) ≡ t
drop_past [] c t = refl
drop_past (x ∷ s) c t =
    let e : length (x ∷ s) + 1 ≡ suc (length s + 1) = omega arith in rw e (drop_past s c t)

-- The text of some parts ends in a part.
ends_in_part :
    (p : Str) (ps : List Str)
    → All IsPlain (p ∷ ps)
    → (s : Str) × (z : Str) × IsPlain z × (join slash (p ∷ ps) ≡ s ++ z)
unfolding join
ends_in_part p [] h = ([], p, h.0, refl)
ends_in_part p (x ∷ ps) h =
    let (s, z, k, e) = ends_in_part x ps h.1 in
    (p ++ (slash ∷ s), z, k, ap (λ t. p ++ (slash ∷ t)) e ∙ sym (append_assoc p (slash ∷ s) z))

trim_left_parts :
    (p : Str) (ps : List Str)
    → IsPlain p
    → trim_left slash (join slash (p ∷ ps)) ≡ join slash (p ∷ ps)
unfolding trim_left join
trim_left_parts [] ps h = absurd (h.nonempty refl)
trim_left_parts (c ∷ p) [] h = rw (eq_ne c slash h.whole.0) refl
trim_left_parts (c ∷ p) (q ∷ ps) h = rw (eq_ne c slash h.whole.0) refl

trim_right_parts :
    (s p : Str) (ps : List Str)
    → All IsPlain (p ∷ ps)
    → trim_right slash (s ++ join slash (p ∷ ps)) ≡ s ++ join slash (p ∷ ps)
trim_right_parts s p ps h =
    let (t, z, k, e) = ends_in_part p ps h in
    let f : s ++ join slash (p ∷ ps) ≡ (s ++ t) ++ z =
      ap (λ x. s ++ x) e ∙ sym (append_assoc s t z) in
    ap (trim_right slash) f ∙ trim_right_part (s ++ t) z k ∙ sym f

parts_nonempty : (p : Str) (ps : List Str) → IsPlain p → join slash (p ∷ ps) ≢ []
parts_nonempty p ps h e = subst IsCons e (join-IsCons p ps h)

pub split_path_of :
    (p : Str) (ps : List Str) → All IsPlain (p ∷ ps) → split_path (path_of (p ∷ ps)) ≡ p ∷ ps
unfolding split_path
split_path_of p ps h =
    rw (trimmed, eq_ne _ [] (parts_nonempty p ps h.0))
      (split-join slash (p ∷ ps) tt (Lacks-IsPlain (p ∷ ps) h))
  where
    trimmed : trim slash (path_of (p ∷ ps)) ≡ join slash (p ∷ ps)
    trimmed =
        unfold trim in
        (unfold trim_left in
          (ap (trim_right slash) (trim_left_parts p ps h.0) ∙ trim_right_parts [] p ps h))

before_slash : (ps : List Str) (q : Str) → path_of (ps ++ (q ∷ [])) ≡ before_last ps ++ (slash ∷ q)
unfolding join
before_slash [] q = refl
before_slash (p ∷ ps) q = ap (λ t. slash ∷ t) (sym (join_append p ps q []))

cut_before :
    (ps : List Str) (q : Str)
    → cut_at (before_last ps ++ (slash ∷ q)) (some (length (before_last ps))) ≡ path_of ps
unfolding join
cut_before [] q = refl
cut_before (p ∷ ps) q = take-length (path_of (p ∷ ps)) (slash ∷ q)

base_name_after : (s q : Str) → IsPlain q → base_name (s ++ (slash ∷ q)) ≡ q
unfolding base_name
base_name_after s q h = rw (last_index_part s q h.whole, base_name) (drop_past s slash q)

base_name_of : (ps : List Str) (q : Str) → IsPlain q → base_name (path_of (ps ++ (q ∷ []))) ≡ q
base_name_of ps q h = ap base_name (before_slash ps q) ∙ base_name_after (before_last ps) q h

cut_last :
    (p : Str) (ps : List Str)
    → All IsPlain (p ∷ ps)
    → parent_path (path_of (p ∷ ps))
      ≡ cut_at (path_of (p ∷ ps)) (last_index_byte slash (path_of (p ∷ ps)))
unfolding parent_path text_beq
cut_last p ps h =
    rw (eq_ne _ [] (parts_nonempty p ps h.0), trim_right_parts (slash ∷ []) p ps h) refl

-- The parts, last included, as a list that is not empty.
last_split :
    (P : List Str → Type 0) (ps : List Str) (q : Str)
    → All IsPlain ps
    → IsPlain q
    → ((p : Str) (xs : List Str) → All IsPlain (p ∷ xs) → P (p ∷ xs))
    → P (ps ++ (q ∷ []))
last_split P [] q h k f = f q [] (k, tt)
last_split P (p ∷ ps) q h k f =
    f p (ps ++ (q ∷ [])) (h.0, All-append IsPlain ps (q ∷ []) h.1 (k, tt))

parent_path_of :
    (ps : List Str) (q : Str)
    → All IsPlain ps
    → IsPlain q
    → parent_path (path_of (ps ++ (q ∷ []))) ≡ path_of ps
parent_path_of ps q h k =
    last_split
      (λ xs. parent_path (path_of xs) ≡ cut_at (path_of xs) (last_index_byte slash (path_of xs))) ps
      q h k cut_last
    ∙ (rw (before_slash ps q, last_index_part (before_last ps) q k.whole) (cut_before ps q))

build_path_of :
    (ps : List Str) (q : Str)
    → All IsPlain ps
    → IsPlain q
    → build_path (path_of (ps ++ (q ∷ []))) (pos (length ps)) ≡ path_of ps
unfolding build_path
build_path_of ps q h k =
    let parts = last_split (λ xs. split_path (path_of xs) ≡ xs) ps q h k split_path_of in
    let long : ltb (length (ps ++ (q ∷ []))) (length ps) ≡ false =
      rw (length-append ps (q ∷ [])) (ground arith) in
    rw (parts, long) (ap (λ xs. slash ∷ join slash xs) (take_parts ps (q ∷ [])))

join_leaf_of :
    (ps : List Str) (q : Str) → All IsPlain ps → join_leaf (path_of ps) q ≡ path_of (ps ++ (q ∷ []))
unfolding join_leaf text_beq
join_leaf_of [] q h = unfold join in refl
join_leaf_of (p ∷ ps) q h =
    let (t, z, k, e) = ends_in_part p ps h in
    let ended : has_suffix (path_of (p ∷ ps)) (slash ∷ []) ≡ false =
      ap (λ x. has_suffix (slash ∷ x) (slash ∷ [])) e ∙ has_suffix_part (slash ∷ t) z k in
    rw (eq_ne _ [] (parts_nonempty p ps h.0), ended) (sym (before_slash (p ∷ ps) q))

-- For a clean path other than "/", the parent's path is the last crumb's but one, the name of the file
-- is its last part, and joining them gives the path again; the crumbs are its parts.
pub path_of_parts :
    (ps : List Str) (q : Str)
    → All IsPlain ps
    → IsPlain q
    → let path = path_of (ps ++ (q ∷ [])) in
      (split_path path ≡ ps ++ (q ∷ []))
      × (base_name path ≡ q)
      × (parent_path path ≡ build_path path (pos (length ps)))
      × (join_leaf (parent_path path) (base_name path) ≡ path)
path_of_parts ps q h k = (
  last_split (λ xs. split_path (path_of xs) ≡ xs) ps q h k split_path_of,
  base_name_of ps q k,
  parent_path_of ps q h k ∙ sym (build_path_of ps q h k),
  rw (parent_path_of ps q h k, base_name_of ps q k) (join_leaf_of ps q h),
)
