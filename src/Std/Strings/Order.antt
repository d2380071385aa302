-- ===== src/Std/Strings/Order.antt =====
-- The order `<` on Go's strings, which compares bytes, and that it is a strict total order.
use kasten_frs_web.Base.{
  ℕ, ◌≡◌, refl, Bool, true, false, ◌&&◌, ◌||◌, [], ◌∷◌, arith, ltb, ◌==◌, Str, nat_eq, text_eq,
}

unfoldable pub text_ltb : Str → Str → Bool
text_ltb [] [] = false
text_ltb [] (y ∷ ys) = true
text_ltb (x ∷ xs) [] = false
text_ltb (x ∷ xs) (y ∷ ys) = ltb x y || (x == y && text_ltb xs ys)

pub text_ltb_asym : (a b : Str) → text_ltb a b ≡ true → text_ltb b a ≡ false
unfolding text_ltb
text_ltb_asym [] [] h = cc
text_ltb_asym [] (y ∷ ys) h = refl
text_ltb_asym (x ∷ xs) [] h = cc
text_ltb_asym (x ∷ xs) (y ∷ ys) h = ground (arith, text_ltb_asym xs ys)

pub text_ltb_trans :
    (a b c : Str) → text_ltb a b ≡ false → text_ltb b c ≡ false → text_ltb a c ≡ false
unfolding text_ltb
text_ltb_trans [] [] c h k = k
text_ltb_trans [] (y ∷ ys) c h k = cc
text_ltb_trans (x ∷ xs) [] [] h k = refl
text_ltb_trans (x ∷ xs) [] (z ∷ zs) h k = cc
text_ltb_trans (x ∷ xs) (y ∷ ys) [] h k = refl
text_ltb_trans (x ∷ xs) (y ∷ ys) (z ∷ zs) h k = ground (arith, text_ltb_trans xs ys zs)

pub text_ltb_total : (a b : Str) → text_ltb a b ≡ false → text_ltb b a ≡ false → a ≡ b
unfolding text_ltb
text_ltb_total [] [] h k = refl
text_ltb_total [] (y ∷ ys) h k = cc
text_ltb_total (x ∷ xs) [] h k = cc
text_ltb_total (x ∷ xs) (y ∷ ys) h k =
    let (same, rest) = heads x y xs ys h k in cc (same, text_ltb_total xs ys rest.0 rest.1)
  where
    heads :
        (x y : ℕ) (xs ys : Str)
        → (ltb x y || (x == y && text_ltb xs ys)) ≡ false
        → (ltb y x || (y == x && text_ltb ys xs)) ≡ false
        → (x ≡ y) × ((text_ltb xs ys ≡ false) × (text_ltb ys xs ≡ false))
    heads x y xs ys h k = ground arith
