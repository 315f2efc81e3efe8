-- ===== src/Protocol/Wire/Reads.antt =====
-- Each reader gives back what its writer wrote and leaves the bytes behind it. A chain of reads goes
-- forward by `step`, one field at a time.
use bolt_stream.Base.{
  ℕ, ◌%◌, ◌^◌, ◌≡◌, refl, ◌∙◌, Bool, true, false, some, List, [], ◌∷◌, ◌++◌, arith, length, All,
  Bytes, length-append, take-append, drop-append, append_assoc,
}
use bolt_stream.Protocol.Wire.{
  Reader, IsU16, IsU32, IsU64, IsSized, ◌>>=◌, write_u16, write_u32, write_u64, write_bytes,
  write_string, write_bool, read_u16, read_u32, read_u64, read_bytes, read_string, read_bool,
  take_exactly, bool_of, write_each, read_each, write_list, read_list,
}

-- On values with `P`, the reader `m` inverts the writer `w`, whatever follows.
pub record Reads {ℓ} {A : Type ℓ} (P : A → Type 0) (w : A → Bytes) (m : Reader A) : Type ℓ where
  pub at : (a : A) (rest : Bytes) → P a → m (w a ++ rest) ≡ some (a, rest)

pub then_read {ℓ κ} :
    {A : Type ℓ} {B : Type κ} (m : Reader A) (f : A → Reader B) {bytes : Bytes} {a : A}
    {rest : Bytes}
    → m bytes ≡ some (a, rest)
    → (m >>= f) bytes ≡ f a rest
then_read m f e = rw (e, ◌>>=◌)

pub step {ℓ κ} :
    {A : Type ℓ} {B : Type κ} {P : A → Type 0} {w : A → Bytes} {m : Reader A}
    → Reads P w m
    → (f : A → Reader B) {a : A} {rest : Bytes} → P a
    → (m >>= f) (w a ++ rest) ≡ f a rest
step {m} r f {a} {rest} h = then_read m f (r.at a rest h)

pub read_u16-Reads : Reads IsU16 write_u16 read_u16
unfolding read_u16 write_u16
read_u16-Reads = record { at = λ v rest h. ground arith }

pub read_u32-Reads : Reads IsU32 write_u32 read_u32
unfolding read_u32 write_u32
read_u32-Reads = record { at = λ v rest h. ground arith }

pub read_u64-Reads : Reads IsU64 write_u64 read_u64
unfolding read_u64 write_u64
read_u64-Reads = record { at = λ v rest h. ground arith }

take_exactly-append : (s rest : Bytes) → take_exactly (length s) (s ++ rest) ≡ some (s, rest)
unfolding take_exactly
take_exactly-append s rest =
    ground (arith, length-append s rest, take-append s rest, drop-append s rest)

sized_step :
    (s rest : Bytes)
    → IsSized s
    → (read_u32 >>= take_exactly) ((write_u32 (length s % 2 ^ 32) ++ s) ++ rest) ≡ some (s, rest)
sized_step s rest h =
    let fits : length s % 2 ^ 32 ≡ length s = omega arith in
    rw (append_assoc (write_u32 (length s % 2 ^ 32)) s rest, fits)
      (step read_u32-Reads take_exactly h ∙ take_exactly-append s rest)

pub bytes_Reads : Reads IsSized write_bytes read_bytes
unfolding read_bytes write_bytes
bytes_Reads = record { at = sized_step }

pub string_Reads : Reads IsSized write_string read_string
unfolding read_string write_string
string_Reads = record { at = sized_step }

read_bool-write_bool : (b : Bool) (rest : Bytes) → read_bool (write_bool b ++ rest) ≡ some (b, rest)
unfolding read_bool write_bool bool_of
read_bool-write_bool true rest = step read_u32-Reads bool_of (omega arith)
read_bool-write_bool false rest = step read_u32-Reads bool_of (omega arith)

pub bool_Reads : Reads (λ b. Unit {0}) write_bool read_bool
bool_Reads = record { at = λ b rest h. read_bool-write_bool b rest }

-- A count that agrees with the entries reads them all.
module _ {ℓ} {A : Type ℓ} {P : A → Type 0} {w : A → Bytes} {m : Reader A} (r : Reads P w m) where
  read_each-write_each :
      (xs : List A) (rest : Bytes)
      → All P xs
      → read_each m (length xs) (write_each w xs ++ rest) ≡ some (xs, rest)
  unfolding read_each write_each
  read_each-write_each [] rest h = refl
  read_each-write_each (x ∷ xs) rest h =
      rw (append_assoc (w x) (write_each w xs) rest)
        (step r _ h.0 ∙ rw (read_each-write_each xs rest h.1, ◌>>=◌))

  pub each_Reads :
      (count : ℕ) → Reads (λ xs. (length xs ≡ count) × All P xs) (write_each w) (read_each m count)
  each_Reads count = record { at = λ xs rest h. rw (← h.0) (read_each-write_each xs rest h.1) }

  pub list_Reads : Reads (λ xs. IsU32 (length xs) × All P xs) (write_list w) (read_list m)
  unfolding read_list write_list
  list_Reads = record {
    at = λ xs rest h.
        let fits : length xs % 2 ^ 32 ≡ length xs = omega (arith, h.0) in
        rw (append_assoc (write_u32 (length xs % 2 ^ 32)) (write_each w xs) rest, fits)
          (step read_u32-Reads (read_each m) h.0 ∙ read_each-write_each xs rest h.1);
  }
