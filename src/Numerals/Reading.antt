-- ===== src/Numerals/Reading.antt =====
-- Reading back what was written.
use Prim.Native.Char.{Char}
use Prim.Native.String.{◌++◌ as append}
use text.Mathlib.TextLemmas.{nil-append, cons-append}
use displayfab_smart_factory.Prelude.{
  ℕ, zero, suc, ◌+◌, ◌*◌, ◌/◌, ◌%◌, ◌<◌, String, some, ◌≡◌, refl, Bool-cases, inl, inr, ltb, arith,
  nat_eq, ltb→lt, ltb-false→le, ◌∙◌, ap,
}
use displayfab_smart_factory.Numerals.{
  digit_char, digit_value, digits, decimal, read_from, read_decimal, strip_prefix,
}

digit_value-digit_char : (d : ℕ) → d < 10 → digit_value (digit_char d) ≡ some d
unfolding digit_value digit_char
digit_value-digit_char zero h = refl
digit_value-digit_char (suc zero) h = refl
digit_value-digit_char (suc (suc zero)) h = refl
digit_value-digit_char (suc (suc (suc zero))) h = refl
digit_value-digit_char (suc (suc (suc (suc zero)))) h = refl
digit_value-digit_char (suc (suc (suc (suc (suc zero))))) h = refl
digit_value-digit_char (suc (suc (suc (suc (suc (suc zero)))))) h = refl
digit_value-digit_char (suc (suc (suc (suc (suc (suc (suc zero))))))) h = refl
digit_value-digit_char (suc (suc (suc (suc (suc (suc (suc (suc zero)))))))) h = refl
digit_value-digit_char (suc (suc (suc (suc (suc (suc (suc (suc (suc zero))))))))) h = refl
digit_value-digit_char (suc (suc (suc (suc (suc (suc (suc (suc (suc (suc d)))))))))) h =
    absurd (omega arith)

read_from-digit :
    (acc d : ℕ) (s : String)
    → d < 10
    → read_from acc (String.◌∷◌ (digit_char d) s) ≡ read_from (acc * 10 + d) s
unfolding read_from
read_from-digit acc d s h = rw (digit_value-digit_char d h, read_from)

read_from-digits :
    (fuel n : ℕ) (rest : String) → n < fuel → read_from 0 (digits fuel n rest) ≡ read_from n rest
unfolding digits
read_from-digits zero n rest h = absurd (omega arith)
read_from-digits (suc fuel) n rest h = elim (Bool-cases (ltb n 10)) [
  | inl small ↦
      rw (small, digits)
        (read_from-digit 0 n rest (omega (arith, ltb→lt n 10 small))
          ∙ ap (λ m. read_from m rest) (omega arith))
  | inr large ↦
      rw (large, digits)
        (read_from-digits fuel (n / 10) (String.◌∷◌ (digit_char (n % 10)) rest)
            (omega (arith, ltb-false→le n 10 large))
          ∙ read_from-digit (n / 10) (n % 10) rest (omega arith)
          ∙ ap (λ m. read_from m rest) (omega arith))
]

not_empty :
    (fuel n : ℕ) (c : Char) (s : String)
    → read_decimal (digits fuel n (String.◌∷◌ c s)) ≡ read_from 0 (digits fuel n (String.◌∷◌ c s))
unfolding digits read_decimal
not_empty zero n c s = refl
not_empty (suc fuel) n c s = elim (Bool-cases (ltb n 10)) [
  | inl small ↦ rw (small, digits) refl
  | inr large ↦ rw (large, digits) (not_empty fuel (n / 10) (digit_char (n % 10)) (String.◌∷◌ c s))
]

decimal_not_empty : (n : ℕ) → read_decimal (decimal n) ≡ read_from 0 (decimal n)
unfolding decimal read_decimal read_from
decimal_not_empty n = elim (Bool-cases (ltb n 10)) [
  | inl small ↦ rw (small, digits, read_decimal) refl
  | inr large ↦ rw (large, digits) (not_empty n (n / 10) (digit_char (n % 10)) String.[])
]

-- What `decimal` writes is read back.
pub read_decimal-decimal : (n : ℕ) → read_decimal (decimal n) ≡ some n
unfolding decimal read_from
read_decimal-decimal n = decimal_not_empty n ∙ read_from-digits (suc n) n String.[] (omega arith)

pub strip_prefix-append : (p s : String) → strip_prefix p (append p s) ≡ some s
unfolding strip_prefix
strip_prefix-append String.[] s = rw nil-append
strip_prefix-append (String.◌∷◌ c p) s = rw cons-append (ground (arith, strip_prefix-append p s))
