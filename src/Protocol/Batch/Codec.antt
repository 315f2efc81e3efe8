-- ===== src/Protocol/Batch/Codec.antt =====
-- The functions for record sets, and the produce-batch decoder (src/protocol/protocol.cpp).
use bolt_stream.Base.{
  ℕ, ◌%◌, ◌^◌, ◌<◌, ◌≡◌, ◌≢◌, refl, sym, ap, subst, ◌==◌, if◌then◌else◌, ◌∙◌, true, not, Option,
  none, some, List, [], ◌∷◌, ◌++◌, arith, length, is_empty, All, Bytes, append_assoc, append-nil,
}
use bolt_stream.Compression.{is_supported}
use bolt_stream.Protocol.Wire.{
  IsU16, IsU32, IsSized, IsByte, read_u32, write_u32, write_list, write_each, read_each,
}
use bolt_stream.Protocol.Wire.Reads.{
  Reads, step, read_u16-Reads, read_u32-Reads, bytes_Reads, string_Reads, each_Reads,
}
use bolt_stream.Protocol.Wire.Parses.{
  Parses, Parses-bind, Parses-pure, Parses-require, bytes_Parses, each_Parses, read_u32-Parses,
}
use bolt_stream.Protocol.Types.{Decoded, ok, err, invalid_batch}
use bolt_stream.Protocol.Decode.{decode_with-written}
use bolt_stream.Protocol.Batch.{
  BatchRecord, write_batch_record, encode_record_set, read_batch_record, record_set_end,
  record_set_entries, decode_record_set, ProduceBatchRequest, batch_request_bytes,
  read_produce_batch_request, check_produce_batch_request, decode_produce_batch_request,
}

-- A record that a record set may carry: its message is not empty.
abbrev pub BatchRecordFits : BatchRecord → Type 0
BatchRecordFits r = IsSized r.key × IsSized r.message × (r.message ≢ [])

not_empty : (s : Bytes) → s ≢ [] → not (is_empty s) ≡ true
not_empty [] h = absurd (h refl)
not_empty (x ∷ s) h = refl

empty_not : (s : Bytes) → not (is_empty s) ≡ true → s ≢ []
empty_not [] h = cc
empty_not (x ∷ s) h = λ e. cc

pub batch_record_Reads : Reads BatchRecordFits write_batch_record read_batch_record
unfolding write_batch_record read_batch_record
batch_record_Reads = record {
  at = λ r rest h.
      simp append_assoc
        (step bytes_Reads _ h.0 ∙ step bytes_Reads _ h.1 ∙ rw (not_empty r.message h.2));
}

pub batch_record_Parses : Parses BatchRecordFits [] read_batch_record write_batch_record
unfolding write_batch_record read_batch_record
batch_record_Parses = Parses-bind bytes_Parses λ key h0. Parses-bind bytes_Parses λ message h1.
    Parses-require _
      λ h2. Parses-pure _ (simp (append_assoc, append-nil)) (h0, h1, empty_not message h2)

-- Fewer than 2^32 records with messages that are not empty, and with keys and messages shorter than
-- 2^32, are decoded to themselves, when their count is the expected one.
pub decode_record_set-encode_record_set :
    (records : List BatchRecord)
    → IsU32 (length records)
    → All BatchRecordFits records
    → decode_record_set (encode_record_set records) (length records) ≡ ok records
unfolding decode_record_set encode_record_set write_list
decode_record_set-encode_record_set records h fits =
    let n : length records % 2 ^ 32 ≡ length records = omega arith in
    let entries = write_each write_batch_record records in
    let counted = read_u32-Reads.at (length records) entries h in
    let read = (each_Reads batch_record_Reads (length records)).at records [] (refl, fits) in
    rw (n, counted) (ground (arith, read, append-nil entries))

record_set_end-ok :
    (o : Option (List BatchRecord × Bytes)) {records : List BatchRecord}
    → record_set_end o ≡ ok records
    → o ≡ some (records, [])
record_set_end-ok none e = cc
record_set_end-ok (some (records, [])) e = cc
record_set_end-ok (some (records, b ∷ rest)) e = cc

record_set_count :
    {d : Decoded (List BatchRecord)} (expected_count count : ℕ) {records : List BatchRecord}
    → (if not (count == expected_count) then err invalid_batch "record-set count mismatch" else d)
      ≡ ok records
    → (count ≡ expected_count) × (d ≡ ok records)
record_set_count expected_count count e = ground arith

record_set_entries-ok :
    (expected_count : ℕ) (o : Option (ℕ × Bytes)) {records : List BatchRecord}
    → record_set_entries expected_count o ≡ ok records
    → (rest : Bytes) × (o ≡ some (expected_count, rest))
      × (read_each read_batch_record expected_count rest ≡ some (records, []))
record_set_entries-ok expected_count none e = cc
record_set_entries-ok expected_count (some (count, rest)) {records} e =
    let same = record_set_count expected_count count e in
    (
      rest,
      cc (same.0),
      subst (λ c. read_each read_batch_record c rest ≡ some (records, [])) same.0
          (record_set_end-ok (read_each read_batch_record count rest) same.1),
    )

-- If a payload of bytes is decoded to records, then encoding these gives the payload back, they are as
-- many as expected, and each has a message that is not empty.
pub encode_record_set-decode_record_set :
    (payload : Bytes) (expected_count : ℕ) {records : List BatchRecord}
    → All IsByte payload
    → decode_record_set payload expected_count ≡ ok records
    → (encode_record_set records ≡ payload)
      × (length records ≡ expected_count)
      × All BatchRecordFits records
unfolding decode_record_set encode_record_set write_list
encode_record_set-decode_record_set payload expected_count {records} hb e =
    let (rest, counted, read) = record_set_entries-ok expected_count (read_u32 payload) e in
    let (split, small, hr) = read_u32-Parses.at payload hb counted in
    let (entries, fits, end) = (each_Parses expected_count batch_record_Parses).at rest hr read in
    let n : length records % 2 ^ 32 ≡ expected_count = omega (arith, fits.0) in
    (
      rw n (sym (split ∙ ap (λ l. write_u32 expected_count ++ l) (entries ∙ append-nil _))),
      fits.0,
      fits.1,
    )

abbrev pub ProduceBatchRequestFits : ProduceBatchRequest → Type 0
ProduceBatchRequestFits r =
    IsSized r.topic
    × IsU16 r.partition
    × IsU32 r.record_count
    × IsU32 r.uncompressed_bytes
    × IsSized r.encoded_records

abbrev pub ProduceBatchRequestAccepts : ProduceBatchRequest → Type 0
ProduceBatchRequestAccepts r =
    (r.topic ≢ [])
    × (0 < r.record_count)
    × (0 < r.uncompressed_bytes)
    × (r.encoded_records ≢ [])
    × (is_supported r.codec ≡ true)

batch_request_Reads :
    (codec_word : ℕ)
    → IsU16 codec_word
    → Reads
        (λ r. ProduceBatchRequestFits r × (codec_word % 2 ^ 8 ≡ r.codec))
        (λ r. batch_request_bytes r codec_word)
        read_produce_batch_request
unfolding batch_request_bytes read_produce_batch_request
batch_request_Reads codec_word hw = record {
  at = λ r rest h. simp append_assoc (
      step string_Reads _ h.0.0
      ∙ step read_u16-Reads _ h.0.1
      ∙ step read_u16-Reads _ hw
      ∙ step read_u32-Reads _ h.0.2
      ∙ step read_u32-Reads _ h.0.3
      ∙ step bytes_Reads _ h.0.4
      ∙ ap (λ c. some (record r { codec = c }, rest)) h.1);
}

accept_produce_batch_request :
    (r : ProduceBatchRequest) → ProduceBatchRequestAccepts r → check_produce_batch_request r ≡ ok r
unfolding check_produce_batch_request
accept_produce_batch_request r h = ground arith

-- If a produce-batch request fits its fields and meets the decoder's checks, then with any 16-bit codec
-- word whose low byte is the request's codec, also one that is no codec, it is decoded to the request.
pub decode_produce_batch_request_word :
    (r : ProduceBatchRequest) (codec_word : ℕ)
    → ProduceBatchRequestFits r
    → ProduceBatchRequestAccepts r
    → IsU16 codec_word
    → codec_word % 2 ^ 8 ≡ r.codec
    → decode_produce_batch_request (batch_request_bytes r codec_word) ≡ ok r
unfolding decode_produce_batch_request
decode_produce_batch_request_word r codec_word fits accepts hw e =
    decode_with-written _ _ (batch_request_Reads codec_word hw) accept_produce_batch_request r
      ((fits, e), accepts)
