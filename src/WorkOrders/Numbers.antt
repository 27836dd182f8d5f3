-- ===== src/WorkOrders/Numbers.antt =====
-- The numbers of orders, lots, cassettes and panels: `next_seq` gives one that no row has.
use Prim.Native.String.{count}
use displayfab_smart_factory.Prelude.{
  ℕ, ◌<◌, zero, suc, ◌≤◌, ◌-◌, String, some, true, false, List, [], ◌∷◌, ◌≡◌, arith, contains,
  string_eq,
}
use displayfab_smart_factory.Numerals.{
  decimal, digit_value, padded_decimal, zeros, read_from, read_decimal,
}
use displayfab_smart_factory.Numerals.Reading.{read_decimal-decimal, strip_prefix-append}
use displayfab_smart_factory.WorkOrders.{sequence_number, highest, next_seq, padded}

-- leading zeros do not change the number
read_decimal-zero :
    (s : String) (n : ℕ) → read_decimal s ≡ some n → read_decimal (String.◌∷◌ "0" s) ≡ some n
unfolding read_decimal read_from digit_value
read_decimal-zero String.[] n h = absurd (cc)
read_decimal-zero (String.◌∷◌ c s) n h = h

read_decimal-zeros :
    (k : ℕ) (s : String) (n : ℕ) → read_decimal s ≡ some n → read_decimal (zeros k s) ≡ some n
unfolding zeros
read_decimal-zeros zero s n h = h
read_decimal-zeros (suc k) s n h = read_decimal-zero (zeros k s) n (read_decimal-zeros k s n h)

-- The number that `_padded` writes behind a prefix is the one that `_next_seq` reads there, for any
-- prefix, number and width, also where the number is longer than the width.
pub sequence_number-padded :
    (prefix : String) (n width : ℕ) → sequence_number prefix (padded prefix n width) ≡ some n
unfolding sequence_number padded padded_decimal
sequence_number-padded prefix n width = ground (
  arith,
  strip_prefix-append prefix (padded_decimal width n),
  read_decimal-zeros (width - count (decimal n)) (decimal n) n (read_decimal-decimal n),
)

contains-highest :
    (prefix : String) (values : List String) (s : String) (n : ℕ)
    → sequence_number prefix s ≡ some n
    → contains values s ≡ true
    → n ≤ highest prefix values
unfolding contains highest
contains-highest prefix [] s n h k = absurd (cc)
contains-highest prefix (v ∷ values) s n h k = ground (arith, contains-highest prefix values s n h)

pub padded-unused :
    (values : List String) (prefix : String) (n width : ℕ)
    → highest prefix values < n
    → contains values (padded prefix n width) ≡ false
padded-unused values prefix n width h =
    let bound =
      contains-highest prefix values (padded prefix n width) n
        (sequence_number-padded prefix n width) in
    ground arith

-- Whatever the ids of a table are, the next one of a prefix, padded to any width, is none of them.
pub next_seq-unused :
    (values : List String) (prefix : String) (width : ℕ)
    → contains values (padded prefix (next_seq values prefix) width) ≡ false
unfolding next_seq
next_seq-unused values prefix width =
    padded-unused values prefix (next_seq values prefix) width (omega arith)
