-- ===== src/Handlers/Archive/Escapes.antt =====
-- Which paths stay inside an archive, and the guard against those that do not.
use mathlib.Core.List.{reverse-cons, reverse-reverse}
use kasten_frs_web.Base.{
  ◌≡◌, refl, subst, ◌≢◌, inl, inr, true, false, List, [], ◌∷◌, ◌++◌, arith, nat_beq_iff, Bool-cases,
  ◌==◌, Str, str, All, All-map, nat_eq, text_eq, ℕ, ap, ◌∙◌, ◌↔◌, Bool, reverse, if◌then◌else◌, sym,
  drop,
}
use kasten_frs_web.Handlers.Archive.{archive_path, is_escape, entry_name_of}
use kasten_frs_web.Std.Paths.{dot_dot, dot}
use kasten_frs_web.Std.Paths.Cleaning.{
  IsPlain, clean_parts, clean_parts-IsPlain, clean_rooted, split_of_parts,
}
use kasten_frs_web.Std.Strings.{
  slash, split, join, has_prefix, extend_head, trim_suffix, has_suffix,
}
use kasten_frs_web.Std.Strings.Splitting.{IsCons, split-IsCons}

-- A path in an archive that has no part "..".
abbrev pub StaysInside : Str → Type 0
StaysInside p = All (λ part. part ≢ dot_dot) (split slash p)

plain-inside : (ps : List Str) → All IsPlain ps → All (λ part. part ≢ dot_dot) ps
plain-inside ps h = All-map (λ part p. IsPlain.not_dot_dot p) ps h

archive_path-parts : (rel : Str) → archive_path rel ≡ slash ∷ join slash (clean_parts (slash ∷ rel))
archive_path-parts rel = clean_rooted (slash ∷ rel) refl

rooted-inside : (ps : List Str) → All IsPlain ps → StaysInside (slash ∷ join slash ps)
rooted-inside [] h = unfold join in unfold split in (λ e. cc, (λ e. cc, tt))
rooted-inside (p ∷ ps) h = rw (split_of_parts p ps h) (λ e. cc, plain-inside (p ∷ ps) h)

archive_path-inside : (rel : Str) → StaysInside (archive_path rel)
archive_path-inside rel =
    rw (archive_path-parts rel)
      (rooted-inside (clean_parts (slash ∷ rel)) (clean_parts-IsPlain (slash ∷ rel)))

has_prefix-append : (s p : Str) → has_prefix s p ≡ true → (rest : Str) × (s ≡ p ++ rest)
unfolding has_prefix
has_prefix-append s [] h = (s, refl)
has_prefix-append [] (c ∷ p) h = cc
has_prefix-append (x ∷ s) (c ∷ p) h = elim (Bool-cases (x == c)) [
  | inl e ↦
      let (rest, q) = has_prefix-append s p (rw e at h) in (rest, cc (q, (nat_beq_iff x c).0 e))
  | inr e ↦ cc (rw e at h)
]

climbing-outside : (rest : Str) → StaysInside (str "/../" ++ rest) → ⊥
unfolding split
climbing-outside rest h = h.1.0 refl

-- The archive's guard against escapes never fires: no path that reaches it is refused.
pub is_escape-never : (rel : Str) → is_escape rel ≡ false
unfolding is_escape
is_escape-never rel = elim (Bool-cases (has_prefix (archive_path rel) (str "/../"))) [
  | inr e ↦ ground (arith, e)
  | inl e ↦
      let (rest, q) = has_prefix-append (archive_path rel) (str "/../") e in
      elim (climbing-outside rest (subst StaysInside q (archive_path-inside rel))) [ ]
]

extend_head-snoc :
    (c : ℕ) (ws : List Str)
    → IsCons ws
    → extend_head c (ws ++ ([] ∷ [])) ≡ extend_head c ws ++ ([] ∷ [])
extend_head-snoc c [] h = elim h [ ]
extend_head-snoc c (w ∷ ws) h = refl

split-snoc : (s : Str) → split slash (s ++ (slash ∷ [])) ≡ split slash s ++ ([] ∷ [])
unfolding split
split-snoc [] = refl
split-snoc (c ∷ s) = elim (Bool-cases (c == slash)) [
  | inl e ↦ rw e (ap (◌∷◌ []) (split-snoc s))
  | inr e ↦ rw e (
      ap (extend_head c) (split-snoc s) ∙ extend_head-snoc c (split slash s) (split-IsCons slash s))
]

All-snoc :
    (ws : List Str) (w : Str)
    → (w ≢ dot_dot)
    → All (λ part. part ≢ dot_dot) ws ↔ All (λ part. part ≢ dot_dot) (ws ++ (w ∷ []))
All-snoc [] w h = (λ t. (h, tt), λ t. tt)
All-snoc (v ∷ ws) w h = (λ t. (t.0, (All-snoc ws w h).0 t.1), λ t. (t.0, (All-snoc ws w h).1 t.1))

slash-inside : (s : Str) → StaysInside s ↔ StaysInside (s ++ (slash ∷ []))
slash-inside s = rw (split-snoc s) (All-snoc (split slash s) [] (λ e. cc))

reversed_tail : (c : ℕ) (t s : Str) → reverse s ≡ c ∷ t → reverse t ++ (c ∷ []) ≡ s
reversed_tail c t s e = sym (reverse-cons c t) ∙ ap reverse (sym e) ∙ reverse-reverse s

cut_slash :
    (s l : Str)
    → reverse s ≡ l
    → has_prefix l (slash ∷ []) ≡ true
    → reverse (drop 1 l) ++ (slash ∷ []) ≡ s
unfolding has_prefix
cut_slash s [] e h = cc
cut_slash s (c ∷ t) e h =
    let same : c ≡ slash = (nat_beq_iff c slash).0 (ground (arith, h)) in
    subst (λ d. reverse t ++ (d ∷ []) ≡ s) same (reversed_tail c t s e)

trimmed-inside : (s : Str) → StaysInside s → StaysInside (trim_suffix s (slash ∷ []))
unfolding trim_suffix has_suffix
trimmed-inside s h = elim (Bool-cases (has_prefix (reverse s) (slash ∷ []))) [
  | inr f ↦ rw f h
  | inl t ↦ rw t (
      (slash-inside (reverse (drop 1 (reverse s)))).1
        (subst StaysInside (sym (cut_slash s (reverse s) refl t)) h))
]

dot-inside : StaysInside dot
unfolding split
dot-inside = (λ e. cc, tt)

pub entry_name_of-inside : (rel : Str) (is_dir : Bool) → StaysInside (entry_name_of rel is_dir)
unfolding entry_name_of
entry_name_of-inside rel is_dir = elim (Bool-cases (archive_path rel == slash ∷ [])) [
  | inl e ↦ rw e dot-inside
  | inr e ↦ rw e (named is_dir)
]
  where
    named :
        (b : Bool)
        → StaysInside (
            if b
            then trim_suffix (archive_path rel) (slash ∷ []) ++ (slash ∷ [])
            else archive_path rel)
    named true =
        (slash-inside (trim_suffix (archive_path rel) (slash ∷ []))).0
          (trimmed-inside (archive_path rel) (archive_path-inside rel))
    named false = archive_path-inside rel
