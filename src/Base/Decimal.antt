-- ===== src/Base/Decimal.antt =====
-- Decimal numbers in text: `operator<<` and `std::from_chars` of the C++ library on unsigned numbers.
use Prim.Native.Nat.{ℕ, zero, suc, ◌+◌, ◌-◌, ◌*◌, ◌/◌, ◌%◌, ◌^◌, ◌≤◌, ◌<◌}
use mathlib.Core.Path.{◌≡◌, refl, ◌∙◌}
use mathlib.Core.Logic.{inl, inr}
use mathlib.Core.Bool.{Bool, true, false, ◌&&◌}
use mathlib.Core.Option.{Option, none, some}
use mathlib.Core.List.{[], ◌∷◌, ◌++◌}
use native.Mathlib.Omega.{arith}
use bolt_stream.Base.Tests.{ltb, leb, if◌then◌else◌, Bool-cases}
use bolt_stream.Base.Lists.{Bytes, length, is_empty, length-append}

-- The decimal digits of a number below `10 ^ fuel`.
unfoldable pub decimal : ℕ → ℕ → Bytes
decimal zero n = []
decimal (suc fuel) n =
    let more = decimal fuel (n / 10) ++ (b'0' + n % 10) ∷ [] in
    if ltb n 10 then (b'0' + n) ∷ [] else more

unfoldable pub zeros : ℕ → Bytes
zeros zero = []
zeros (suc n) = b'0' ∷ zeros n

-- `std::setw(width) << std::setfill('0')` on a 64-bit number; twenty digits are enough.
unfoldable pub padded : ℕ → ℕ → Bytes
unfolding decimal zeros
padded width n = let digits = decimal 20 n in zeros (width - length digits) ++ digits

abbrev pub is_digit : ℕ → Bool
is_digit c = leb b'0' c && leb c b'9'

-- Every character is a digit.
unfoldable pub all_digits : Bytes → Bool
all_digits [] = true
all_digits (c ∷ text) = is_digit c && all_digits text

-- The number that digits stand for, behind the digits with value `value`.
unfoldable pub digits_value : ℕ → Bytes → ℕ
digits_value value [] = value
digits_value value (c ∷ text) = digits_value (value * 10 + (c - b'0')) text

-- `std::from_chars` that must take the whole text, on a type with the values below `bound`.
unfoldable pub parse_uint : ℕ → Bytes → Option ℕ
parse_uint bound text =
    if is_empty text
    then none
    else if all_digits text
    then (if ltb (digits_value 0 text) bound then some (digits_value 0 text) else none)
    else none

all_digits-append : (s t : Bytes) → all_digits (s ++ t) ≡ (all_digits s && all_digits t)
unfolding all_digits
all_digits-append [] t = refl
all_digits-append (c ∷ s) t = ground (arith, all_digits-append s t)

digits_value-append :
    (v : ℕ) (s t : Bytes) → digits_value v (s ++ t) ≡ digits_value (digits_value v s) t
unfolding digits_value
digits_value-append v [] t = refl
digits_value-append v (c ∷ s) t = digits_value-append (v * 10 + (c - b'0')) s t

-- The digits of a number are digits, and stand for it.
pub decimal-digits :
    (fuel n : ℕ)
    → n < 10 ^ fuel
    → (all_digits (decimal fuel n) ≡ true) × (digits_value 0 (decimal fuel n) ≡ n)
unfolding decimal all_digits digits_value
decimal-digits zero n h = (refl, omega arith)
decimal-digits (suc fuel) n h = elim (Bool-cases (ltb n 10)) [
  | inl small ↦ rw small (ground arith)
  | inr large ↦
      let below : n / 10 < 10 ^ fuel = omega arith in
      let (digits, value) = decimal-digits fuel (n / 10) below in
      rw
        (
          large,
          all_digits-append (decimal fuel (n / 10)) ((b'0' + n % 10) ∷ []),
          digits_value-append 0 (decimal fuel (n / 10)) ((b'0' + n % 10) ∷ []),
          digits,
          value,
        )
        (ground arith)
]

decimal-nonempty : (fuel n : ℕ) → is_empty (decimal (suc fuel) n) ≡ false
unfolding decimal
decimal-nonempty fuel n = elim (Bool-cases (ltb n 10)) [
  | inl small ↦ rw small
  | inr large ↦ rw large (append-nonempty (decimal fuel (n / 10)) (b'0' + n % 10))
]
  where
    append-nonempty : (s : Bytes) (c : ℕ) → is_empty (s ++ c ∷ []) ≡ false
    append-nonempty [] c = refl
    append-nonempty (x ∷ s) c = refl

-- A number of at most twenty digits is read back from its decimal text.
pub parse_uint-decimal :
    (bound n : ℕ) → n < bound → n < 10 ^ 20 → parse_uint bound (decimal 20 n) ≡ some n
unfolding parse_uint
parse_uint-decimal bound n small short =
    let (digits, value) = decimal-digits 20 n short in
    rw (decimal-nonempty 19 n, digits, value) (ground arith)

zeros-digits :
    (k : ℕ) (s : Bytes)
    → (all_digits (zeros k ++ s) ≡ all_digits s)
      × (digits_value 0 (zeros k ++ s) ≡ digits_value 0 s)
unfolding zeros all_digits digits_value
zeros-digits zero s = (refl, refl)
zeros-digits (suc k) s = zeros-digits k s

-- So with leading zeros.
pub padded-digits :
    (width n : ℕ)
    → n < 10 ^ 20
    → (all_digits (padded width n) ≡ true) × (digits_value 0 (padded width n) ≡ n)
unfolding padded
padded-digits width n h =
    let (digits, value) = decimal-digits 20 n h in
    let pad = zeros-digits (width - length (decimal 20 n)) (decimal 20 n) in
    (pad.0 ∙ digits, pad.1 ∙ value)

length-zeros : (k : ℕ) → length (zeros k) ≡ k
unfolding zeros
length-zeros zero = refl
length-zeros (suc k) = omega (arith, length-zeros k)

length-decimal : (fuel n : ℕ) → length (decimal fuel n) ≤ fuel
unfolding decimal
length-decimal zero n = omega arith
length-decimal (suc fuel) n = ground (
  arith,
  length-decimal fuel (n / 10),
  length-append (decimal fuel (n / 10)) ((b'0' + n % 10) ∷ []),
)

pub length-padded : (width n : ℕ) → 20 ≤ width → length (padded width n) ≡ width
unfolding padded
length-padded width n h =
    let digits = length-decimal 20 n in
    omega (
      arith,
      length-append (zeros (width - length (decimal 20 n))) (decimal 20 n),
      length-zeros (width - length (decimal 20 n)),
    )

-- A number below a power of ten has no more digits than its exponent.
pub length-decimal_of_lt : (fuel k n : ℕ) → n < 10 ^ suc k → length (decimal fuel n) ≤ suc k
unfolding decimal
length-decimal_of_lt zero k n h = omega arith
length-decimal_of_lt (suc fuel) zero n h = ground (arith, h)
length-decimal_of_lt (suc fuel) (suc k) n h = ground (
  arith,
  length-decimal_of_lt fuel k (n / 10) (omega arith),
  length-append (decimal fuel (n / 10)) ((b'0' + n % 10) ∷ []),
)

pub length-padded_of_lt : (k n : ℕ) → n < 10 ^ suc k → length (padded (suc k) n) ≡ suc k
unfolding padded
length-padded_of_lt k n h =
    let digits = length-decimal_of_lt 20 k n h in
    omega (
      arith,
      length-append (zeros (suc k - length (decimal 20 n))) (decimal 20 n),
      length-zeros (suc k - length (decimal 20 n)),
    )
