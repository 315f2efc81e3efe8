-- ===== src/OrderedMap/Order.antt =====
-- Byte strings in the order of `std::string`, which compares bytes as unsigned characters.
use bolt_stream.Base.{
  ◌≡◌, refl, Bool, true, false, ◌&&◌, ◌||◌, [], ◌∷◌, ltb, ◌==◌, arith, Bytes, ◌↔◌,
}
use bolt_stream.OrderedMap.{Key}

unfoldable pub bytes_eq : Bytes → Bytes → Bool
bytes_eq [] [] = true
bytes_eq [] (y ∷ ys) = false
bytes_eq (x ∷ xs) [] = false
bytes_eq (x ∷ xs) (y ∷ ys) = x == y && bytes_eq xs ys

unfoldable pub bytes_lt : Bytes → Bytes → Bool
bytes_lt xs [] = false
bytes_lt [] (y ∷ ys) = true
bytes_lt (x ∷ xs) (y ∷ ys) = ltb x y || (x == y && bytes_lt xs ys)

instance abbrev pub bytes_key : Key Bytes
bytes_key = record { eq = bytes_eq; lt = bytes_lt }

-- The laws of a key's order, for the keys that stand in one map.
pub record IsOrdered {ℓ} {K : Type ℓ} (k : Key K) : Type ℓ where
  pub eq_iff : (a b : K) → (k.eq a b ≡ true) ↔ (a ≡ b)
  pub lt_irrefl : (a : K) → k.lt a a ≡ false
  pub lt_trans : (a b c : K) → k.lt a b ≡ true → k.lt b c ≡ true → k.lt a c ≡ true
  pub lt_total : (a b : K) → k.eq a b ≡ false → k.lt b a ≡ false → k.lt a b ≡ true

bytes_eq-eq : (a b : Bytes) → bytes_eq a b ≡ true → a ≡ b
unfolding bytes_eq
bytes_eq-eq [] [] h = refl
bytes_eq-eq [] (y ∷ ys) h = cc
bytes_eq-eq (x ∷ xs) [] h = cc
bytes_eq-eq (x ∷ xs) (y ∷ ys) h = ground (arith, bytes_eq-eq xs ys)

pub bytes_eq_refl : (a : Bytes) → bytes_eq a a ≡ true
unfolding bytes_eq
bytes_eq_refl [] = refl
bytes_eq_refl (x ∷ xs) = ground (arith, bytes_eq_refl xs)

bytes_lt_irrefl : (a : Bytes) → bytes_lt a a ≡ false
unfolding bytes_lt
bytes_lt_irrefl [] = refl
bytes_lt_irrefl (x ∷ xs) = ground (arith, bytes_lt_irrefl xs)

bytes_lt_trans : (a b c : Bytes) → bytes_lt a b ≡ true → bytes_lt b c ≡ true → bytes_lt a c ≡ true
unfolding bytes_lt
bytes_lt_trans a b [] h g =
    elim b as (λ b. bytes_lt b [] ≡ true → bytes_lt a [] ≡ true) [ [] ↦ λ g. cc | x ∷ xs ↦ λ g. cc ]
      g
bytes_lt_trans [] b (z ∷ zs) h g = refl
bytes_lt_trans (x ∷ xs) [] (z ∷ zs) h g = cc
bytes_lt_trans (x ∷ xs) (y ∷ ys) (z ∷ zs) h g = ground (arith, bytes_lt_trans xs ys zs)

bytes_lt_total : (a b : Bytes) → bytes_eq a b ≡ false → bytes_lt b a ≡ false → bytes_lt a b ≡ true
unfolding bytes_lt bytes_eq
bytes_lt_total [] [] e h = cc
bytes_lt_total [] (y ∷ ys) e h = refl
bytes_lt_total (x ∷ xs) [] e h = cc
bytes_lt_total (x ∷ xs) (y ∷ ys) e h = ground (arith, bytes_lt_total xs ys)

pub bytes_IsOrdered : IsOrdered bytes_key
bytes_IsOrdered = record {
  eq_iff = λ a b. (bytes_eq-eq a b, λ e. rw e (bytes_eq_refl b));
  lt_irrefl = bytes_lt_irrefl;
  lt_trans = bytes_lt_trans;
  lt_total = bytes_lt_total;
}
