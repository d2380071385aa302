-- ===== src/Std/Paths/Parts.antt =====
-- Texts that are made of parts with slashes between them.
use mathlib.Core.List.{reverse-append, reverse-reverse}
use kasten_frs_web.Base.{
  text_eq, nat_eq, ℕ, ◌≡◌, refl, sym, ap, ◌∙◌, ◌≢◌, false, none, some, List, [], ◌∷◌, ◌++◌, reverse,
  append_assoc, eq_ne, Str, length,
}
use kasten_frs_web.Std.Paths.Cleaning.{IsPlain}
use kasten_frs_web.Std.Strings.{
  slash, join, has_prefix, has_suffix, trim_left, trim_right, last_index_byte,
}
use kasten_frs_web.Std.Strings.Splitting.{Lacks, IsCons}

pub join_append :
    (p : Str) (ps : List Str) (q : Str) (qs : List Str)
    → join slash (p ∷ ps) ++ (slash ∷ join slash (q ∷ qs)) ≡ join slash ((p ∷ ps) ++ (q ∷ qs))
unfolding join
join_append p [] q qs = refl
join_append p (x ∷ ps) q qs =
    append_assoc p (slash ∷ join slash (x ∷ ps)) (slash ∷ join slash (q ∷ qs))
    ∙ ap (λ t. p ++ (slash ∷ t)) (join_append x ps q qs)

pub join-IsCons : (p : Str) (ps : List Str) → IsPlain p → IsCons (join slash (p ∷ ps))
unfolding join
join-IsCons [] ps h = absurd (h.nonempty refl)
join-IsCons (c ∷ p) [] h = tt
join-IsCons (c ∷ p) (q ∷ ps) h = tt

-- A nonempty text that lacks a byte ends in another one.
last_byte :
    (c : ℕ) (q : Str) → Lacks c q → q ≢ [] → (t : Str) × (d : ℕ) × (q ≡ t ++ (d ∷ [])) × (d ≢ c)
last_byte c [] h n = absurd (n refl)
last_byte c (d ∷ []) h n = ([], d, refl, h.0)
last_byte c (d ∷ e ∷ q) h n =
    let (t, x, p, k) = last_byte c (e ∷ q) h.1 (λ z. cc) in (d ∷ t, x, ap (◌∷◌ d) p, k)

-- What ends in a part ends in a byte other than the slash.
reversed_end :
    (s q : Str) → IsPlain q → (d : ℕ) × (t : Str) × (reverse (s ++ q) ≡ d ∷ t) × (d ≢ slash)
reversed_end s q h =
    let (t, d, p, k) = last_byte slash q h.whole h.nonempty in
    (
      d,
      reverse (s ++ t),
      ap reverse (ap (λ x. s ++ x) p ∙ sym (append_assoc s t (d ∷ [])))
          ∙ reverse-append (s ++ t) (d ∷ []),
      k,
    )

pub trim_right_part : (s q : Str) → IsPlain q → trim_right slash (s ++ q) ≡ s ++ q
unfolding trim_right trim_left
trim_right_part s q h =
    let (d, t, e, k) = reversed_end s q h in
    ap (λ x. reverse (trim_left slash x)) e
    ∙ (rw (eq_ne d slash k) refl ∙ ap reverse (sym e) ∙ reverse-reverse (s ++ q))

pub has_suffix_part : (s q : Str) → IsPlain q → has_suffix (s ++ q) (slash ∷ []) ≡ false
unfolding has_suffix has_prefix
has_suffix_part s q h =
    let (d, t, e, k) = reversed_end s q h in
    ap (λ x. has_prefix x (slash ∷ [])) e ∙ rw (eq_ne d slash k) refl

last_index_of_Lacks : (c : ℕ) (q : Str) → Lacks c q → last_index_byte c q ≡ none
unfolding last_index_byte
last_index_of_Lacks c [] h = refl
last_index_of_Lacks c (x ∷ q) h = rw (last_index_of_Lacks c q h.1, eq_ne x c h.0) refl

pub last_index_part :
    (s q : Str) → Lacks slash q → last_index_byte slash (s ++ (slash ∷ q)) ≡ some (length s)
unfolding last_index_byte
last_index_part [] q h = rw (last_index_of_Lacks slash q h) refl
last_index_part (x ∷ s) q h = rw (last_index_part s q h) refl
