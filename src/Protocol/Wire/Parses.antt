-- ===== src/Protocol/Wire/Parses.antt =====
-- What a successful read says about its input: the bytes consumed are exactly those that the writer
-- would have written for the value read. One rule for each way to build a reader.
use bolt_stream.Base.{
  ℕ, zero, suc, ◌%◌, ◌^◌, ◌<◌, ◌≡◌, refl, sym, ap, subst, ◌∙◌, Bool, true, false, Option, none,
  some, List, [], ◌∷◌, ◌++◌, arith, length, drop, All, Bytes, take-append-drop, length-take_of_le,
  append_assoc,
}
use bolt_stream.Protocol.Wire.{
  Reader, IsU16, IsU32, IsU64, IsSized, ◌>>=◌, pure, write_u16, write_u32, write_u64, write_bytes,
  write_string, write_bool, read_u16, read_u32, read_u64, read_bytes, read_string, read_bool,
  take_exactly, bool_of, IsByte, write_each, read_each, require, ◌>>◌, write_list, read_list,
}

-- A reader `m` that stands behind the bytes `pre`: `w` writes the value for all of them.
pub record Parses {ℓ} {A : Type ℓ} (P : A → Type 0) (pre : Bytes) (m : Reader A) (w : A → Bytes)
    : Type ℓ where
  pub at :
      (bytes : Bytes) {a : A} {rest : Bytes}
      → All IsByte bytes
      → m bytes ≡ some (a, rest)
      → (pre ++ bytes ≡ w a ++ rest) × P a × All IsByte rest

abbrev Inverts : ℕ → (ℕ → Bytes) → ℕ → Bytes → Bytes → Type 0
Inverts bound write v rest bytes = (bytes ≡ write v ++ rest) × (v < bound) × All IsByte rest

read_u16-inv :
    (bytes : Bytes) {v : ℕ} {rest : Bytes}
    → All IsByte bytes
    → read_u16 bytes ≡ some (v, rest)
    → Inverts (2 ^ 16) write_u16 v rest bytes
unfolding read_u16 write_u16
read_u16-inv [] b e = cc
read_u16-inv (x ∷ []) b e = cc
read_u16-inv (x ∷ y ∷ r) b e = ground arith

read_u32-inv :
    (bytes : Bytes) {v : ℕ} {rest : Bytes}
    → All IsByte bytes
    → read_u32 bytes ≡ some (v, rest)
    → Inverts (2 ^ 32) write_u32 v rest bytes
unfolding read_u32 write_u32
read_u32-inv [] b e = cc
read_u32-inv (x ∷ []) b e = cc
read_u32-inv (x ∷ y ∷ []) b e = cc
read_u32-inv (x ∷ y ∷ z ∷ []) b e = cc
read_u32-inv (x ∷ y ∷ z ∷ t ∷ r) b e = ground arith

read_u64-inv :
    (bytes : Bytes) {v : ℕ} {rest : Bytes}
    → All IsByte bytes
    → read_u64 bytes ≡ some (v, rest)
    → Inverts (2 ^ 64) write_u64 v rest bytes
unfolding read_u64 write_u64
read_u64-inv [] b e = cc
read_u64-inv (x ∷ []) b e = cc
read_u64-inv (x ∷ y ∷ []) b e = cc
read_u64-inv (x ∷ y ∷ z ∷ []) b e = cc
read_u64-inv (x ∷ y ∷ z ∷ t ∷ []) b e = cc
read_u64-inv (x ∷ y ∷ z ∷ t ∷ p ∷ []) b e = cc
read_u64-inv (x ∷ y ∷ z ∷ t ∷ p ∷ q ∷ []) b e = cc
read_u64-inv (x ∷ y ∷ z ∷ t ∷ p ∷ q ∷ r ∷ []) b e = cc
read_u64-inv (x ∷ y ∷ z ∷ t ∷ p ∷ q ∷ r ∷ s ∷ l) b e = ground arith

All-drop {ℓ} : {A : Type ℓ} (P : A → Type 0) (n : ℕ) (xs : List A) → All P xs → All P (drop n xs)
All-drop P zero xs h = h
All-drop P (suc n) [] h = h
All-drop P (suc n) (x ∷ xs) h = All-drop P n xs h.1

take_exactly-inv :
    (size : ℕ) (bytes : Bytes) {s rest : Bytes}
    → All IsByte bytes
    → take_exactly size bytes ≡ some (s, rest)
    → (bytes ≡ s ++ rest) × (length s ≡ size) × All IsByte rest
unfolding take_exactly
take_exactly-inv size bytes b e =
    ground (
      arith,
      take-append-drop size bytes,
      length-take_of_le size bytes,
      All-drop IsByte size bytes b,
    )

-- A chain that succeeds has a first step that succeeds.
module _ {ℓ κ} {A : Type ℓ} {B : Type κ} (f : A → Reader B) {out : B × Bytes} where
  first_read :
      (o : Option (A × Bytes))
      → elim o as (λ _. Option (B × Bytes)) [ none ↦ none | some (a, rest) ↦ f a rest ] ≡ some out
      → (a : A) × (rest : Bytes) × (o ≡ some (a, rest)) × (f a rest ≡ some out)
  first_read none e = cc
  first_read (some (a, rest)) e = (a, rest, refl, e)

  pub >>=-eq-some :
      (m : Reader A) (bytes : Bytes)
      → (m >>= f) bytes ≡ some out
      → (a : A) × (rest : Bytes) × (m bytes ≡ some (a, rest)) × (f a rest ≡ some out)
  >>=-eq-some m bytes e = first_read (m bytes) e

module _ {ℓ κ} {A : Type ℓ} {B : Type κ} {P : A → Type 0} {Q : B → Type 0} {w : A → Bytes}
    {u : B → Bytes} where
  pub Parses-bind :
      {m : Reader A} {f : A → Reader B} {pre : Bytes}
      → Parses P [] m w
      → ((a : A) → P a → Parses Q (pre ++ w a) (f a) u)
      → Parses Q pre (m >>= f) u
  Parses-bind {m} {f} {pre} pm pf = record {
    at = λ bytes {a = b} {rest} hb e.
        let (a, r, first, next) = >>=-eq-some f m bytes e in
        let (split, pa, hr) = pm.at bytes hb first in
        let (whole, qb, hrest) = (pf a pa).at r hr next in
        (ap (λ l. pre ++ l) split ∙ sym (append_assoc pre (w a) r) ∙ whole, qb, hrest);
  }

module _ {ℓ} {A : Type ℓ} {P : A → Type 0} {w : A → Bytes} {pre : Bytes} where
  pub Parses-pure : (a : A) → pre ≡ w a → P a → Parses P pre (pure a) w
  Parses-pure a h pa = record {
    at = λ bytes {a = b} {rest} hb e.
        let same : a ≡ b = cc in
        let kept : bytes ≡ rest = cc in
        (
          ap (λ l. l ++ bytes) h ∙ ap (λ c. w c ++ bytes) same ∙ ap (λ l. w b ++ l) kept,
          subst P same pa,
          subst (All IsByte) kept hb,
        );
  }

module _ {ℓ} {A : Type ℓ} {P : A → Type 0} {w : A → Bytes} {pre : Bytes} {m : Reader A} where
  pub Parses-require :
      (test : Bool) → (test ≡ true → Parses P pre m w) → Parses P pre (require test >> m) w
  Parses-require true pm = record { at = λ bytes hb e. (pm refl).at bytes hb e }
  Parses-require false pm = record { at = λ bytes hb e. cc }

pub read_u16-Parses : Parses IsU16 [] read_u16 write_u16
read_u16-Parses = record { at = λ bytes hb e. read_u16-inv bytes hb e }

pub read_u32-Parses : Parses IsU32 [] read_u32 write_u32
read_u32-Parses = record { at = λ bytes hb e. read_u32-inv bytes hb e }

pub read_u64-Parses : Parses IsU64 [] read_u64 write_u64
read_u64-Parses = record { at = λ bytes hb e. read_u64-inv bytes hb e }

abbrev write_sized : Bytes → Bytes
write_sized s = write_u32 (length s % 2 ^ 32) ++ s

take_exactly-Parses :
    (size : ℕ) → IsU32 size → Parses IsSized (write_u32 size) (take_exactly size) write_sized
take_exactly-Parses size h = record {
  at = λ bytes {a = s} {rest} hb e.
      let (split, len, hr) = take_exactly-inv size bytes hb e in
      let fits : size % 2 ^ 32 ≡ size = omega arith in
      (rw (split, len, fits) (sym (append_assoc (write_u32 size) s rest)), omega arith, hr);
}

pub string_Parses : Parses IsSized [] read_string write_string
unfolding read_string write_string
string_Parses = Parses-bind read_u32-Parses take_exactly-Parses

pub bytes_Parses : Parses IsSized [] read_bytes write_bytes
unfolding read_bytes write_bytes
bytes_Parses = Parses-bind read_u32-Parses take_exactly-Parses

-- The encoded value is one of the two that `write_bool` writes.
bool_of-Parses : (v : ℕ) → IsU32 v → Parses (λ b. Unit {0}) (write_u32 v) (bool_of v) write_bool
unfolding bool_of write_bool
bool_of-Parses v h = record { at = λ bytes {a = b} {rest} hb e. (ground arith, tt, ground arith) }

pub bool_Parses : Parses (λ b. Unit {0}) [] read_bool write_bool
unfolding read_bool
bool_Parses = Parses-bind read_u32-Parses bool_of-Parses

module _ {ℓ} {A : Type ℓ} {P : A → Type 0} {w : A → Bytes} {m : Reader A} where
  pub each_Parses :
      (count : ℕ)
      → Parses P [] m w
      → Parses (λ xs. (length xs ≡ count) × All P xs) [] (read_each m count) (write_each w)
  unfolding read_each write_each
  each_Parses zero pm = Parses-pure [] refl (refl, tt)
  each_Parses (suc count) pm = Parses-bind pm λ x px.
      Parses-bind (each_Parses count pm)
        λ xs pxs. Parses-pure (x ∷ xs) refl (omega (arith, pxs.0), (px, pxs.1))

  list_entries_Parses :
      (count : ℕ)
      → Parses P [] m w
      → IsU32 count
      → Parses
          (λ xs. IsU32 (length xs) × All P xs)
          (write_u32 count)
          (read_each m count)
          (λ xs. write_u32 (length xs % 2 ^ 32) ++ write_each w xs)
  list_entries_Parses count pm h = record {
    at = λ bytes {a = xs} {rest} hb e.
        let (split, valid, hr) = (each_Parses count pm).at bytes hb e in
        let fits : count % 2 ^ 32 ≡ count = omega arith in
        (
          rw (split, valid.0, fits) (sym (append_assoc (write_u32 count) (write_each w xs) rest)),
          (omega (arith, valid.0), valid.1),
          hr,
        );
  }

  pub list_Parses :
      Parses P [] m w → Parses (λ xs. IsU32 (length xs) × All P xs) [] (read_list m) (write_list w)
  unfolding read_list write_list
  list_Parses pm = Parses-bind read_u32-Parses λ count h. list_entries_Parses count pm h
