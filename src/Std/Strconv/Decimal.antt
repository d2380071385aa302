-- ===== src/Std/Strconv/Decimal.antt =====
-- Parsing undoes formatting.
use kasten_frs_web.Base.{
  ℕ, zero, suc, ◌+◌, ◌-◌, ◌*◌, ◌/◌, ◌%◌, ◌^◌, ◌<◌, ◌≡◌, refl, inl, inr, true, Option, none, some,
  [], ◌∷◌, ◌++◌, arith, ltb, Bool-cases, Str, All, All-append,
}
use kasten_frs_web.Base.Int.{pos}
use kasten_frs_web.Std.Base64.{IsByte}
use kasten_frs_web.Std.Strconv.{
  digits_within, format_nat, format_int, is_digit, parse_digits, parse_nat, parse_int,
}

abbrev pub and_then : Option ℕ → Str → Option ℕ
and_then none s = none
and_then (some n) s = parse_digits n s

parse_digits-append :
    (acc : ℕ) (s t : Str) → parse_digits acc (s ++ t) ≡ and_then (parse_digits acc s) t
unfolding parse_digits
parse_digits-append acc [] t = refl
parse_digits-append acc (c ∷ s) t = ground (arith, parse_digits-append (acc * 10 + (c - b'0')) s t)

parse_digits-digits_within :
    (fuel n : ℕ) → n < fuel → parse_digits 0 (digits_within fuel n) ≡ some n
unfolding digits_within parse_digits
parse_digits-digits_within zero n h = elim h [ ]
parse_digits-digits_within (suc fuel) n h = elim (Bool-cases (ltb n 10)) [
  | inl e ↦ rw e (ground arith)
  | inr e ↦
      rw
        (
          e,
          parse_digits-append 0 (digits_within fuel (n / 10)) ((b'0' + n % 10) ∷ []),
          parse_digits-digits_within fuel (n / 10) (ground arith),
        )
        (ground arith)
]

-- The digits of a number: at least one, and each is a digit.
first_digit :
    (fuel n : ℕ)
    → n < fuel
    → (c : ℕ) × (cs : Str) × (digits_within fuel n ≡ c ∷ cs) × (is_digit c ≡ true)
unfolding digits_within
first_digit zero n h = elim h [ ]
first_digit (suc fuel) n h = elim (Bool-cases (ltb n 10)) [
  | inl e ↦ (b'0' + n, [], rw e, ground arith)
  | inr e ↦
      let (c, cs, found, digit) = first_digit fuel (n / 10) (ground arith) in
      (c, cs ++ (b'0' + n % 10) ∷ [], rw (e, found), digit)
]

pub parse_int-format_int : (n : ℕ) → n < 2 ^ 63 → parse_int (format_int (pos n)) ≡ some (pos n)
unfolding parse_int format_int parse_nat format_nat
parse_int-format_int n h =
    let (c, cs, found, digit) = first_digit (n + 1) n (omega arith) in
    let parsed = rw found at (parse_digits-digits_within (n + 1) n (omega arith)) in
    rw found (rw parsed (ground arith))

digits_within-IsByte : (fuel n : ℕ) → All IsByte (digits_within fuel n)
unfolding digits_within
digits_within-IsByte zero n = tt
digits_within-IsByte (suc fuel) n = elim (Bool-cases (ltb n 10)) [
  | inl e ↦ rw e (ground arith, tt)
  | inr e ↦ rw e (
      All-append IsByte (digits_within fuel (n / 10)) _ (digits_within-IsByte fuel (n / 10))
        (omega arith))
]

pub format_int-IsByte : (n : ℕ) → All IsByte (format_int (pos n))
unfolding format_int format_nat
format_int-IsByte n = digits_within-IsByte (n + 1) n
