-- ===== src/OrderedMap/Numbers.antt =====
-- Numbers as keys, in the order of `<`.
use bolt_stream.Base.{ℕ, ◌≡◌, true, false, ltb, ◌==◌, ==_iff, arith}
use bolt_stream.OrderedMap.{Key}
use bolt_stream.OrderedMap.Order.{IsOrdered}

instance abbrev pub number_key : Key ℕ
number_key = record { eq = ◌==◌; lt = ltb }

lt_irrefl : (a : ℕ) → ltb a a ≡ false
lt_irrefl a = ground arith

lt_trans : (a b c : ℕ) → ltb a b ≡ true → ltb b c ≡ true → ltb a c ≡ true
lt_trans a b c h g = ground arith

lt_total : (a b : ℕ) → (a == b) ≡ false → ltb b a ≡ false → ltb a b ≡ true
lt_total a b e h = ground arith

pub number_IsOrdered : IsOrdered number_key
number_IsOrdered = record {
  eq_iff = ==_iff;
  lt_irrefl = lt_irrefl;
  lt_trans = lt_trans;
  lt_total = lt_total;
}
