-- ===== src/Base/Decimal.antt =====
-- `str(n)` for an integer that is not negative.
use dop_api.Base.{
  ap, ◌∙◌, sym, ℕ, zero, suc, ◌+◌, ◌-◌, ◌*◌, ◌/◌, ◌%◌, ◌<◌, ◌≡◌, ◌⊎◌, inl, inr, refl, String, false,
  nat_eq, ltb, if◌then◌else◌, has_char, arith, Bool-cases,
}
use Prim.Native.Nat.{compare, Ordering}
use Prim.Native.Char.{Char, char, code, IsScalar}

compare-lt : (m n : ℕ) → m < n → compare m n ≡ Ordering.lt
compare-lt m n h = ground arith

pub IsScalar-low : (n : ℕ) → n < 55296 → IsScalar n
IsScalar-low n h = rw (compare-lt n 55296 h) tt

-- The character of a digit, by its last decimal place.
abbrev digit : ℕ → Char
digit d = char (48 + d % 10) (IsScalar-low (48 + d % 10) (omega arith))

-- The digits of a number in front of a text; each round divides by ten.
decimal_from : ℕ → ℕ → String → String
decimal_from zero n out = out
decimal_from (suc f) n out =
    let rest = decimal_from f (n / 10) (String.◌∷◌ (digit (n % 10)) out) in
    if ltb n 10 then String.◌∷◌ (digit n) out else rest

-- The fuel is more than the number of digits.
unfoldable pub to_decimal : ℕ → String
unfolding decimal_from
to_decimal n = decimal_from (suc n) n ""

-- The number that a text of digits stands for.
pub value_from : ℕ → String → ℕ
value_from acc String.[] = acc
value_from acc (String.◌∷◌ c s) = value_from (acc * 10 + (code c - 48)) s

value_from-decimal_from :
    (f n : ℕ) (out : String) → n < f → value_from 0 (decimal_from f n out) ≡ value_from n out
unfolding value_from decimal_from
value_from-decimal_from zero n out lt = elim lt [ ]
value_from-decimal_from (suc f) n out lt = elim (Bool-cases (ltb n 10)) [
  | inl small ↦ rw small (ap (λ k. value_from k out) (ground arith))
  | inr large ↦ rw large (
      value_from-decimal_from f (n / 10) (String.◌∷◌ (digit (n % 10)) out) (ground arith)
      ∙ ap (λ k. value_from k out) (omega arith))
]

-- Printing loses nothing.
pub value_from-to_decimal : (n : ℕ) → value_from 0 (to_decimal n) ≡ n
unfolding to_decimal value_from
value_from-to_decimal n = value_from-decimal_from (suc n) n "" (omega arith)

pub to_decimal-injective : (m n : ℕ) → to_decimal m ≡ to_decimal n → m ≡ n
to_decimal-injective m n same =
    sym (value_from-to_decimal m) ∙ ap (value_from 0) same ∙ value_from-to_decimal n

decimal_from-has_char :
    (c f n : ℕ) (out : String)
    → c < 48 ⊎ (57 < c)
    → has_char c out ≡ false
    → has_char c (decimal_from f n out) ≡ false
unfolding decimal_from
decimal_from-has_char c zero n out off clean = clean
decimal_from-has_char c (suc f) n out off clean = elim (Bool-cases (ltb n 10)) [
  | inl small ↦ rw small (ground arith)
  | inr large ↦
      rw large
        (decimal_from-has_char c f (n / 10) (String.◌∷◌ (digit (n % 10)) out) off (ground arith))
]

-- A decimal holds nothing but digits.
pub to_decimal-has_char : (c n : ℕ) → c < 48 ⊎ (57 < c) → has_char c (to_decimal n) ≡ false
unfolding to_decimal
to_decimal-has_char c n off = decimal_from-has_char c (suc n) n "" off refl
