-- ===== src/Std/Base64.antt =====
-- Package encoding/base64: RawURLEncoding, which writes no padding and, when it decodes, skips
-- newlines and ignores the bits that are left over.
pub mod Roundtrip
use kasten_frs_web.Base.{
  ℕ, ◌+◌, ◌-◌, ◌*◌, ◌/◌, ◌%◌, ◌<◌, Bool, not, ◌&&◌, ◌||◌, Option, none, some, List, [], ◌∷◌, ◌++◌,
  map, ltb, leb, nat_beq, if◌then◌else◌, Str, keep,
}

abbrev pub IsByte : ℕ → Type 0
IsByte b = b < 256

unfoldable pub enc_char : ℕ → ℕ
enc_char n =
    if ltb n 26
    then b'A' + n
    else if ltb n 52
    then b'a' + (n - 26)
    else if ltb n 62
    then b'0' + (n - 52)
    else if nat_beq n 62
    then b'-'
    else b'_'

unfoldable pub dec_char : ℕ → Option ℕ
dec_char c =
    if leb b'A' c && leb c b'Z'
    then some (c - b'A')
    else if leb b'a' c && leb c b'z'
    then some (c - b'a' + 26)
    else if leb b'0' c && leb c b'9'
    then some (c - b'0' + 52)
    else if nat_beq c b'-'
    then some 62
    else if nat_beq c b'_'
    then some 63
    else none

-- The six-bit groups of some bytes.
unfoldable pub to_sextets : Str → List ℕ
to_sextets [] = []
to_sextets (a ∷ []) = a / 4 ∷ (a % 4 * 16) ∷ []
to_sextets (a ∷ b ∷ []) = a / 4 ∷ (a % 4 * 16 + b / 16) ∷ (b % 16 * 4) ∷ []
to_sextets (a ∷ b ∷ c ∷ rest) =
    a / 4 ∷ (a % 4 * 16 + b / 16) ∷ (b % 16 * 4 + c / 64) ∷ (c % 64) ∷ to_sextets rest

abbrev pub prepend : List ℕ → Option (List ℕ) → Option (List ℕ)
prepend xs none = none
prepend xs (some ys) = some (xs ++ ys)

-- The bytes of some six-bit groups; one group alone is corrupt.
unfoldable pub from_sextets : List ℕ → Option Str
from_sextets [] = some []
from_sextets (x ∷ []) = none
from_sextets (x ∷ y ∷ []) = some ((x * 4 + y / 16) ∷ [])
from_sextets (x ∷ y ∷ z ∷ []) = some ((x * 4 + y / 16) ∷ (y % 16 * 16 + z / 4) ∷ [])
from_sextets (x ∷ y ∷ z ∷ w ∷ rest) =
    prepend ((x * 4 + y / 16) ∷ (y % 16 * 16 + z / 4) ∷ (z % 4 * 64 + w) ∷ []) (from_sextets rest)

unfoldable pub encode : Str → Str
unfolding to_sextets enc_char
encode bs = map enc_char (to_sextets bs)

abbrev pub dec_step : Option ℕ → Option (List ℕ) → Option (List ℕ)
dec_step none xs = none
dec_step (some x) xs = prepend (x ∷ []) xs

unfoldable pub dec_chars : Str → Option (List ℕ)
dec_chars [] = some []
dec_chars (c ∷ cs) = dec_step (dec_char c) (dec_chars cs)

abbrev pub is_newline : ℕ → Bool
is_newline c = nat_beq c 10 || nat_beq c 13

unfoldable pub decode_sextets : Option (List ℕ) → Option Str
unfolding from_sextets
decode_sextets none = none
decode_sextets (some xs) = from_sextets xs

unfoldable pub decode : Str → Option Str
unfolding dec_chars dec_char decode_sextets keep
decode s = decode_sextets (dec_chars (keep (λ c. not (is_newline c)) s))
