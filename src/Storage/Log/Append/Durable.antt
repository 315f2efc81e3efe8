-- ===== src/Storage/Log/Append/Durable.antt =====
-- `append_batch` and `recover` together (src/storage/partition_log.cpp).
use bolt_stream.Base.{
  ℕ, zero, suc, ◌+◌, ◌-◌, ◌%◌, ◌^◌, ◌<◌, ◌≡◌, refl, ap, subst, sym, ◌∙◌, true, false, none, some,
  List, [], ◌∷◌, ◌++◌, map, length, All, if◌then◌else◌, Bytes, Bool-cases, inl, inr, arith,
  append_assoc, append-nil,
}
use bolt_stream.Compression.{Zstd, Outcome, returns, throws}
use bolt_stream.Protocol.Wire.{IsU64}
use bolt_stream.Storage.Records.{RecordMetadata, encode_record}
use bolt_stream.Storage.Records.Codec.{decoded_record}
use bolt_stream.Storage.Log.{
  LogOptions, Directory, IndexEntry, Entry, plain, PartitionLog, last_segment, active_segment_base,
  append_to, plain_index,
}
use bolt_stream.Storage.Log.Recover.{entry_index, entry_next}
use bolt_stream.Storage.Log.Recover.Scan.{Chunk, chunk_bytes, IsChunk, length-chunk_bytes}
use bolt_stream.Storage.Log.Layout.Ready.{Ready, Holding, Ready-roll, Ready-open, Ready-write}
use bolt_stream.Storage.Log.Append.{
  AppendRecord, Outside, Flush, AppendState, done, and_then, file_size_or_zero, flush_chunk,
  open_chunk, roll, roll_due, write_at, staged_entry, entry_bytes, write_record, append_encoded,
  append_one, append_records,
}
use bolt_stream.Storage.Log.Append.Growth.{Ends, Ends-and_then}
use bolt_stream.Storage.Log.Append.Chunks.{record_chunk, encode_record-IsChunk}

-- The segments of the log hold whole records and batches, and its state is what they say.
abbrev pub IsLaid : Zstd → PartitionLog → Type 0
IsLaid zstd log =
    Ready zstd log.options log.files log.index log.next_offset (active_segment_base log)
      (file_size_or_zero (active_segment_base log) log.files.logs)

-- As many offsets as the second number says, from the first on.
unfoldable pub offsets_from : ℕ → ℕ → List ℕ
offsets_from first zero = []
offsets_from first (suc count) = offsets_from first count ++ (first + count) ∷ []

-- What is stored for each record, with the offsets from `offset` on.
unfoldable pub appended_entries : LogOptions → ℕ → List (AppendRecord × Outside) → List Entry
appended_entries options offset [] = []
appended_entries options offset ((r, outside) ∷ records) =
    plain (
      decoded_record options.topic options.partition_id offset outside.timestamp_unix_ns r.key
        r.value)
    ∷ appended_entries options (offset + 1) records

map_end :
    (metadata : List RecordMetadata) (m : RecordMetadata)
    → map RecordMetadata.offset (metadata ++ m ∷ [])
      ≡ map RecordMetadata.offset metadata ++ m.offset ∷ []
map_end [] m = refl
map_end (x ∷ metadata) m = ap (λ l. x.offset ∷ l) (map_end metadata m)

last_segment-append :
    (otherwise : ℕ) (entries : List IndexEntry) (e : IndexEntry)
    → last_segment otherwise (entries ++ e ∷ []) ≡ e.segment
unfolding last_segment
last_segment-append otherwise [] e = refl
last_segment-append otherwise (x ∷ entries) e = last_segment-append x.segment entries e

abbrev pub Anything : Directory → Type 0
Anything files = Unit

module _ (zstd : Zstd) (options : LogOptions) (index : List IndexEntry) (first : ℕ) where
  -- The locals after so many records.
  pub record Opened (held : List Entry) (count : ℕ) (s : AppendState) : Type 0 where
    pub ready :
        Holding zstd options s.files
          (index ++ s.staged)
          (first + count)
          s.base_offset
          s.current_size
          held
    pub numbered : map RecordMetadata.offset s.metadata ≡ offsets_from first count

  pub record Appended (held : List Entry) (count : ℕ) (s : AppendState) : Type 0 where
    pub opened : Opened held count s
    pub active : last_segment 0 (index ++ s.staged) ≡ s.base_offset

  abbrev appended_one : ℕ → ℕ → AppendRecord → Entry
  appended_one count timestamp_unix_ns r = plain (
      decoded_record options.topic options.partition_id (first + count) timestamp_unix_ns r.key
        r.value)

  open_chunk-Opened :
      (held : List Entry) (count : ℕ) (outside : Outside) (s : AppendState)
      → Opened held count s
      → Ends (Opened held count) Anything (open_chunk outside s)
  unfolding open_chunk
  open_chunk-Opened held count outside s h =
      let there =
        Ready-open zstd options s.files (index ++ s.staged) (first + count) s.base_offset
          s.current_size held h.ready.0 h.ready.1 in
      let both : Opened held count (record s {
        files = record {
          logs = append_to s.base_offset [] s.files.logs;
          indexes = append_to s.base_offset [] s.files.indexes;
        };
        is_open = true;
        opened_base = s.base_offset;
        opened_log = file_size_or_zero s.base_offset s.files.logs;
        opened_index = file_size_or_zero s.base_offset s.files.indexes;
      }) =
        record {
          ready = there (append_to s.base_offset [] s.files.indexes);
          numbered = h.numbered;
        } in
      ground (arith, h, both)

  write_record-Appended :
      (held : List Entry) (count timestamp_unix_ns : ℕ) (r : AppendRecord) (outside : Outside)
      (s : AppendState)
      → IsChunk zstd options (record_chunk options (first + count) timestamp_unix_ns r.key r.value)
      → first + suc count < 2 ^ 64
      → Opened held count s
      → Ends (Appended (held ++ appended_one count timestamp_unix_ns r ∷ []) (suc count)) Anything (
          write_record options
            (first + count)
            outside
            (chunk_bytes (record_chunk options (first + count) timestamp_unix_ns r.key r.value))
            s)
  unfolding write_record offsets_from entry_index entry_next
  write_record-Appended held count timestamp_unix_ns r outside s chunk small h =
      let c : Chunk = record_chunk options (first + count) timestamp_unix_ns r.key r.value in
      let offset : ℕ = first + count in
      let encoded : Bytes = chunk_bytes c in
      let size : (length encoded - 4) % 2 ^ 32 ≡ length c.body =
        omega (arith, length-chunk_bytes c, chunk.short) in
      let entry : IndexEntry = staged_entry offset (length encoded) s in
      let written =
        Ready-write zstd options s.files (index ++ s.staged) offset s.base_offset s.current_size
          held h.ready.0 h.ready.1 c (entry_bytes offset (length encoded) s) (first + suc count)
          chunk (omega arith) (omega arith) (omega arith, tt) refl in
      let same : (index ++ s.staged)
            ++ plain_index offset s.current_size (length c.body) s.base_offset ∷ []
          ≡ index ++ (s.staged ++ entry ∷ []) =
        ap (λ n. (index ++ s.staged) ++ plain_index offset s.current_size n s.base_offset ∷ [])
          (sym size)
        ∙ append_assoc index s.staged (entry ∷ []) in
      elim outside.cut_off
        as (λ cut.
          Ends (Appended (held ++ appended_one count timestamp_unix_ns r ∷ []) (suc count)) Anything
            (write_record options offset (record outside { cut_off = cut }) encoded s)) [
              | some cut ↦ tt
              | none ↦ record {
                opened = record {
                  ready =
                      subst
                        (λ l.
                          Holding zstd options
                            (write_at s.base_offset encoded (entry_bytes offset (length encoded) s)
                              s.files)
                            l (first + suc count) s.base_offset (s.current_size + length encoded)
                            (held ++ c.entry ∷ []))
                        same written;
                  numbered =
                      map_end s.metadata (record {
                        topic = options.topic;
                        partition = options.partition_id;
                        offset = offset;
                        timestamp_unix_ns = outside.timestamp_unix_ns;
                        encoded_byte_size = length encoded % 2 ^ 32;
                      })
                      ∙ ap (λ l. l ++ offset ∷ []) h.numbered;
                };
                active =
                    ap (last_segment 0) (sym (append_assoc index s.staged (entry ∷ [])))
                    ∙ last_segment-append 0 (index ++ s.staged) entry;
              }
            ]

  pub flush_chunk-Appended :
      (held : List Entry) (count : ℕ) (flush : Flush) (s : AppendState)
      → Appended held count s
      → Ends (Appended held count) Anything (flush_chunk flush s)
  unfolding flush_chunk
  flush_chunk-Appended held count flush s h =
      let closed : Appended held count (record s { is_open = false }) = record {
        opened = record { ready = h.opened.ready; numbered = h.opened.numbered };
        active = h.active;
      } in
      ground (arith, h, closed)

  roll-Opened :
      (held : List Entry) (count : ℕ) (s : AppendState)
      → Appended held count s
      → Opened held count (roll (first + count) s)
  roll-Opened held count s h = record {
    ready =
        Ready-roll zstd options s.files (index ++ s.staged) (first + count) s.base_offset
          s.current_size held h.opened.ready.0 h.opened.ready.1;
    numbered = h.opened.numbered;
  }

  append_encoded-Appended :
      (held : List Entry) (count : ℕ) (r : AppendRecord) (outside : Outside) (s : AppendState)
      (o : Outcome Bytes)
      → encode_record (first + count) outside.timestamp_unix_ns r.key r.value ≡ o
      → IsU64 outside.timestamp_unix_ns
      → first + suc count < 2 ^ 64
      → Appended held count s
      → Ends
          (Appended (held ++ appended_one count outside.timestamp_unix_ns r ∷ []) (suc count))
          Anything
          (append_encoded options (first + count) outside s o)
  append_encoded-Appended held count r outside s (throws message) e fits small h = tt
  append_encoded-Appended held count r outside s (returns encoded) e fits small h =
      let offset : ℕ = first + count in
      let (image, chunk) =
        encode_record-IsChunk zstd options offset outside.timestamp_unix_ns r.key r.value encoded
          (omega arith) fits e in
      Ends-and_then (Opened held count)
        (Appended (held ++ appended_one count outside.timestamp_unix_ns r ∷ []) (suc count))
        Anything
        (if roll_due options outside (length encoded) s
          then and_then (flush_chunk outside.flush s) (λ s. done (roll offset s))
          else done s)
        (λ s. and_then (open_chunk outside s) (write_record options offset outside encoded))
        (elim (Bool-cases (roll_due options outside (length encoded) s)) [
          | inl due ↦ rw due (
              Ends-and_then (Appended held count) (Opened held count) Anything
                (flush_chunk outside.flush s) (λ s. done (roll offset s))
                (flush_chunk-Appended held count outside.flush s h)
                (λ s g. roll-Opened held count s g))
          | inr room ↦ rw room h.opened
        ])
        λ s g.
          Ends-and_then (Opened held count)
            (Appended (held ++ appended_one count outside.timestamp_unix_ns r ∷ []) (suc count))
            Anything (open_chunk outside s) (write_record options offset outside encoded)
            (open_chunk-Opened held count outside s g)
            λ s g.
              subst
                (λ b.
                  Ends
                    (Appended (held ++ appended_one count outside.timestamp_unix_ns r ∷ [])
                      (suc count))
                    Anything (write_record options offset outside b s))
                (sym image)
                (write_record-Appended held count outside.timestamp_unix_ns r outside s chunk small
                  g)

  pub append_records-Appended :
      (held : List Entry) (count : ℕ) (records : List (AppendRecord × Outside)) (s : AppendState)
      → All (λ entry. IsU64 (Outside.timestamp_unix_ns entry.1)) records
      → first + (count + length records) < 2 ^ 64
      → Appended held count s
      → Ends
          (Appended
            (held ++ appended_entries options (first + count) records)
            (count + length records))
          Anything
          (append_records options (first + count) records s)
  unfolding append_records append_one appended_entries
  append_records-Appended held count [] s fits small h =
      subst (λ l. Appended l (count + 0) s) (sym (append-nil held))
        (subst (λ n. Appended held n s) {x = count} (omega arith) h)
  append_records-Appended held count ((r, outside) ∷ records) s fits small h =
      let same : (first + count) % 2 ^ 64 ≡ first + count = omega arith in
      let later : first + count + 1 ≡ first + suc count = omega arith in
      let total : suc count + length records ≡ count + length ((r, outside) ∷ records) =
        omega arith in
      let one = appended_one count outside.timestamp_unix_ns r in
      let rest = appended_entries options (first + suc count) records in
      let more : (held ++ one ∷ []) ++ rest ≡ held ++ one ∷ rest =
        append_assoc held (one ∷ []) rest in
      rw (same, later)
        (Ends-and_then (Appended (held ++ one ∷ []) (suc count))
          (Appended (held ++ one ∷ rest) (count + suc (length records))) Anything
          (append_encoded options (first + count) outside s
            (encode_record (first + count) outside.timestamp_unix_ns r.key r.value))
          (append_records options (first + suc count) records)
          (append_encoded-Appended held count r outside s
            (encode_record (first + count) outside.timestamp_unix_ns r.key r.value) refl fits.0
            (omega arith) h)
          λ s g.
            subst
              (λ l.
                Ends (Appended l (count + suc (length records))) Anything
                  (append_records options (first + suc count) records s))
              more
              (subst
                (λ n.
                  Ends (Appended ((held ++ one ∷ []) ++ rest) n) Anything
                    (append_records options (first + suc count) records s))
                total
                (append_records-Appended (held ++ one ∷ []) (suc count) records s fits.1
                  (omega arith) g)))
