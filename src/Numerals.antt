-- ===== src/Numerals.antt =====
-- Decimal texts, as Python's `f"{n}"`, `f"{n:0{width}d}"`, `str.isdigit`, `int` and `str.startswith`
-- make and read them. Digits are the ASCII ones.
pub mod Reading
use Prim.Native.Char.{Char, code}
use Prim.Native.String.{count}
use displayfab_smart_factory.Prelude.{
  ℕ, zero, suc, ◌+◌, ◌-◌, ◌*◌, ◌/◌, ◌%◌, String, Option, none, some, Bool, true, false, ◌&&◌, leb,
  ltb, ◌==◌, nat_eq, if◌then◌else◌,
}

unfoldable pub digit_char : ℕ → Char
digit_char zero = "0"
digit_char (suc zero) = "1"
digit_char (suc (suc zero)) = "2"
digit_char (suc (suc (suc zero))) = "3"
digit_char (suc (suc (suc (suc zero)))) = "4"
digit_char (suc (suc (suc (suc (suc zero))))) = "5"
digit_char (suc (suc (suc (suc (suc (suc zero)))))) = "6"
digit_char (suc (suc (suc (suc (suc (suc (suc zero))))))) = "7"
digit_char (suc (suc (suc (suc (suc (suc (suc (suc zero)))))))) = "8"
digit_char _ = "9"

unfoldable pub digit_value : Char → Option ℕ
digit_value c = if leb 48 (code c) && leb (code c) 57 then some (code c - 48) else none

-- the digits of `n` before `rest`
unfoldable pub digits : ℕ → ℕ → String → String
digits zero n rest = rest
digits (suc fuel) n rest = elim (ltb n 10) [
  | true ↦ String.◌∷◌ (digit_char n) rest
  | false ↦ digits fuel (n / 10) (String.◌∷◌ (digit_char (n % 10)) rest)
]

-- `n` digits are more than enough for `n`
unfoldable pub decimal : ℕ → String
unfolding digits
decimal n = digits (suc n) n String.[]

unfoldable pub zeros : ℕ → String → String
zeros zero s = s
zeros (suc n) s = String.◌∷◌ "0" (zeros n s)

unfoldable pub padded_decimal : ℕ → ℕ → String
unfolding decimal zeros
padded_decimal width n = zeros (width - count (decimal n)) (decimal n)

unfoldable pub read_from : ℕ → String → Option ℕ
read_from acc String.[] = some acc
read_from acc (String.◌∷◌ c s) = elim (digit_value c) [
  | none ↦ none
  | some d ↦ read_from (acc * 10 + d) s
]

-- `int(s)` where `s.isdigit()`
unfoldable pub read_decimal : String → Option ℕ
unfolding read_from
read_decimal String.[] = none
read_decimal (String.◌∷◌ c s) = read_from 0 (String.◌∷◌ c s)

-- `s[len(prefix):]` where `s.startswith(prefix)`
unfoldable pub strip_prefix : String → String → Option String
strip_prefix String.[] s = some s
strip_prefix (String.◌∷◌ p ps) String.[] = none
strip_prefix (String.◌∷◌ p ps) (String.◌∷◌ c s) =
    let rest = strip_prefix ps s in if code p == code c then rest else none
