-- ===== src/Std/Base64/Roundtrip.antt =====
-- Decoding undoes encoding, and an encoded text holds only letters, digits, "-" and "_".
use kasten_frs_web.Base.{
  ℕ, ◌<◌, ◌≡◌, refl, ◌≢◌, false, not, some, List, [], ◌∷◌, map, arith, Str, keep, All, ap, ◌∙◌,
}
use kasten_frs_web.Std.Base64.{
  IsByte, enc_char, dec_char, to_sextets, from_sextets, encode, dec_chars, is_newline, decode,
  decode_sextets,
}

abbrev pub IsSextet : ℕ → Type 0
IsSextet x = x < 64

to_sextets-IsSextet : (bs : Str) → All IsByte bs → All IsSextet (to_sextets bs)
unfolding to_sextets
to_sextets-IsSextet [] h = tt
to_sextets-IsSextet (a ∷ []) h = omega arith
to_sextets-IsSextet (a ∷ b ∷ []) h = omega arith
to_sextets-IsSextet (a ∷ b ∷ c ∷ rest) (ha, (hb, (hc, h))) =
    (omega arith, (omega arith, (omega arith, (omega arith, to_sextets-IsSextet rest h))))

from_sextets-to_sextets : (bs : Str) → All IsByte bs → from_sextets (to_sextets bs) ≡ some bs
unfolding from_sextets to_sextets
from_sextets-to_sextets [] h = refl
from_sextets-to_sextets (a ∷ []) h = ground arith
from_sextets-to_sextets (a ∷ b ∷ []) h = ground arith
from_sextets-to_sextets (a ∷ b ∷ c ∷ rest) (ha, (hb, (hc, h))) =
    rw (from_sextets-to_sextets rest h) (ground arith)

dec_char-enc_char : (x : ℕ) → IsSextet x → dec_char (enc_char x) ≡ some x
unfolding dec_char enc_char
dec_char-enc_char x h = ground arith

dec_chars-map : (xs : List ℕ) → All IsSextet xs → dec_chars (map enc_char xs) ≡ some xs
unfolding dec_chars
dec_chars-map [] h = refl
dec_chars-map (x ∷ xs) h = rw (dec_char-enc_char x h.0, dec_chars-map xs h.1)

-- A byte that the encoding writes.
abbrev pub IsPlainChar : ℕ → Type 0
IsPlainChar c = (c ≢ b'.') × (is_newline c ≡ false)

enc_char-IsPlainChar : (x : ℕ) → IsSextet x → IsPlainChar (enc_char x)
unfolding enc_char
enc_char-IsPlainChar x h = (ground arith, ground arith)

map-IsPlainChar : (xs : List ℕ) → All IsSextet xs → All IsPlainChar (map enc_char xs)
map-IsPlainChar [] h = tt
map-IsPlainChar (x ∷ xs) h = (enc_char-IsPlainChar x h.0, map-IsPlainChar xs h.1)

pub encode-IsPlainChar : (bs : Str) → All IsByte bs → All IsPlainChar (encode bs)
unfolding encode
encode-IsPlainChar bs h = map-IsPlainChar (to_sextets bs) (to_sextets-IsSextet bs h)

keep_plain : (s : Str) → All IsPlainChar s → keep (λ c. not (is_newline c)) s ≡ s
unfolding keep
keep_plain [] h = refl
keep_plain (c ∷ s) h = rw (h.0.1, keep_plain s h.1)

-- Decoding undoes encoding.
pub decode-encode : (bs : Str) → All IsByte bs → decode (encode bs) ≡ some bs
unfolding decode
decode-encode bs h =
    ap decode_sextets (ap dec_chars (keep_plain (encode bs) (encode-IsPlainChar bs h)) ∙ chars)
    ∙ from_sextets-to_sextets bs h
  where
    chars : dec_chars (encode bs) ≡ some (to_sextets bs)
    chars = unfold encode in dec_chars-map (to_sextets bs) (to_sextets-IsSextet bs h)
