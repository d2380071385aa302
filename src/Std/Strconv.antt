-- ===== src/Std/Strconv.antt =====
-- Package strconv: FormatInt and ParseInt in base 10.
pub mod Decimal
use kasten_frs_web.Base.{
  ℕ, zero, suc, ◌+◌, ◌-◌, ◌*◌, ◌/◌, ◌%◌, ◌^◌, Bool, true, false, ◌&&◌, Option, none, some, [], ◌∷◌,
  ◌++◌, ltb, leb, nat_beq, if◌then◌else◌, Str,
}
use kasten_frs_web.Base.Int.{ℤ, pos, negsuc}

-- The decimal digits of a number; the number itself is fuel enough.
unfoldable pub digits_within : ℕ → ℕ → Str
digits_within zero n = []
digits_within (suc fuel) n =
    let more = digits_within fuel (n / 10) ++ (b'0' + n % 10) ∷ [] in
    if ltb n 10 then (b'0' + n) ∷ [] else more

unfoldable pub format_nat : ℕ → Str
unfolding digits_within
format_nat n = digits_within (n + 1) n

-- strconv.FormatInt(x, 10).
unfoldable pub format_int : ℤ → Str
unfolding format_nat
format_int (pos n) = format_nat n
format_int (negsuc n) = b'-' ∷ format_nat (n + 1)

abbrev pub is_digit : ℕ → Bool
is_digit c = leb b'0' c && leb c b'9'

unfoldable pub parse_digits : ℕ → Str → Option ℕ
parse_digits acc [] = some acc
parse_digits acc (c ∷ cs) =
    let rest = parse_digits (acc * 10 + (c - b'0')) cs in if is_digit c then rest else none

unfoldable pub parse_nat : Str → Option ℕ
unfolding parse_digits
parse_nat [] = none
parse_nat (c ∷ cs) = parse_digits 0 (c ∷ cs)

abbrev pub in_range : Bool → ℕ → Option ℤ
in_range false n = if ltb n (2 ^ 63) then some (pos n) else none
in_range true n =
    if leb n (2 ^ 63) then some (if nat_beq n 0 then pos 0 else negsuc (n - 1)) else none

abbrev pub signed : Bool → Option ℕ → Option ℤ
signed negative none = none
signed negative (some n) = in_range negative n

-- strconv.ParseInt(s, 10, 64), and strconv.Atoi on a 64-bit machine: `none` for each error.
unfoldable pub parse_int : Str → Option ℤ
unfolding parse_nat
parse_int [] = none
parse_int (c ∷ cs) =
    if nat_beq c b'-'
    then signed true (parse_nat cs)
    else if nat_beq c b'+'
    then signed false (parse_nat cs)
    else signed false (parse_nat (c ∷ cs))
