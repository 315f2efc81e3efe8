-- ===== src/Storage/Names.antt =====
-- The names of topics, segments and partitions (src/storage/partition_log.cpp).
use bolt_stream.Base.{
  ℕ, suc, ◌^◌, ◌<◌, ◌≡◌, refl, sym, ap, ◌∙◌, Bool, true, false, ◌&&◌, ◌||◌, not, Option, none, some,
  [], ◌∷◌, ◌++◌, arith, ltb, leb, ◌==◌, if◌then◌else◌, length, take, drop, is_empty, Bytes, codes,
  padded, all_digits, parse_uint, padded-digits, length-padded_of_lt, length-append, take-append,
  drop-append,
}
use bolt_stream.OrderedMap.Order.{bytes_eq}

unfoldable pub is_topic_char : ℕ → Bool
is_topic_char ch =
    leb b'A' ch && leb ch b'Z'
    || (leb b'a' ch && leb ch b'z'
        || (leb b'0' ch && leb ch b'9' || (ch == b'.' || (ch == b'_' || ch == b'-'))))

unfoldable pub all_topic_chars : Bytes → Bool
unfolding is_topic_char
all_topic_chars [] = true
all_topic_chars (ch ∷ topic) = is_topic_char ch && all_topic_chars topic

unfoldable pub is_valid_topic_name : Bytes → Bool
unfolding all_topic_chars bytes_eq
is_valid_topic_name topic =
    if is_empty topic || (bytes_eq topic (codes ".") || bytes_eq topic (codes ".."))
    then false
    else all_topic_chars topic

-- `segment_path`, without the directory.
unfoldable pub segment_name : ℕ → Bytes
segment_name base_offset = padded 20 base_offset ++ codes ".log"

unfoldable pub parse_base_offset : Bytes → Option ℕ
unfolding bytes_eq
parse_base_offset name =
    if not (length name == 24) || not (bytes_eq (drop 20 name) (codes ".log"))
    then none
    else if all_digits (take 20 name)
    then parse_uint (2 ^ 64) (take 20 name)
    else none

-- The last part of `partition_directory`.
unfoldable pub partition_name : ℕ → Bytes
partition_name partition_id = codes "partition-" ++ padded 6 partition_id

unfoldable pub parse_partition_id : Bytes → Option ℕ
unfolding bytes_eq
parse_partition_id name =
    if not (length name == 16) || not (bytes_eq (take 10 name) (codes "partition-"))
    then none
    else if all_digits (drop 10 name)
    then elim (parse_uint (2 ^ 32) (drop 10 name)) [
      | none ↦ none
      | some parsed ↦ if ltb 65535 parsed then none else some parsed
    ]
    else none

is_empty-of_length : (s : Bytes) → 0 < length s → is_empty s ≡ false
is_empty-of_length [] h = absurd (omega arith)
is_empty-of_length (x ∷ s) h = refl

parse_uint-padded :
    (bound k n : ℕ)
    → n < 10 ^ (suc k)
    → n < 10 ^ 20
    → n < bound
    → parse_uint bound (padded (suc k) n) ≡ some n
unfolding parse_uint
parse_uint-padded bound k n short h small =
    let (digits, value) = padded-digits (suc k) n h in
    let full =
      is_empty-of_length (padded (suc k) n) (omega (arith, length-padded_of_lt k n short)) in
    rw (full, digits, value) (ground arith)

-- The name of a segment with a 64-bit base offset is read back as this offset, so that segments and
-- their base offsets correspond.
pub parse_base_offset-segment_name :
    (base_offset : ℕ)
    → base_offset < 2 ^ 64
    → parse_base_offset (segment_name base_offset) ≡ some base_offset
unfolding parse_base_offset segment_name
parse_base_offset-segment_name base_offset h =
    let digits : Bytes = padded 20 base_offset in
    let size : length digits ≡ 20 = length-padded_of_lt 19 base_offset (omega arith) in
    let name : Bytes = digits ++ codes ".log" in
    let whole : (length name == 24) ≡ true =
      ground (arith, length-append digits (codes ".log"), size) in
    let front : take 20 name ≡ digits =
      ap (λ k. take k name) (sym size) ∙ take-append digits (codes ".log") in
    let back : drop 20 name ≡ codes ".log" =
      ap (λ k. drop k name) (sym size) ∙ drop-append digits (codes ".log") in
    rw (whole, back, front, (padded-digits 20 base_offset (omega arith)).0)
      (parse_uint-padded (2 ^ 64) 19 base_offset (omega arith) (omega arith) h)

-- The name of a partition's directory is read back as its id.
pub parse_partition_id-partition_name :
    (partition_id : ℕ)
    → partition_id < 2 ^ 16
    → parse_partition_id (partition_name partition_id) ≡ some partition_id
unfolding parse_partition_id partition_name
parse_partition_id-partition_name partition_id h =
    let digits : Bytes = padded 6 partition_id in
    let size : length digits ≡ 6 = length-padded_of_lt 5 partition_id (omega arith) in
    let name : Bytes = codes "partition-" ++ digits in
    let whole : (length name == 16) ≡ true =
      ground (arith, length-append (codes "partition-") digits, size) in
    rw
      (
        whole,
        (padded-digits 6 partition_id (omega arith)).0,
        parse_uint-padded (2 ^ 32) 5 partition_id (omega arith) (omega arith) (omega arith),
      )
      (ground arith)
