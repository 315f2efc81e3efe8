-- ===== src/Storage/Log/Append/Restore.antt =====
-- What the handler of `append_batch` does to one segment and to the others
-- (src/storage/partition_log.cpp).
use bolt_stream.Base.{
  ℕ, ◌-◌, ◌==◌, ◌≡◌, refl, ap, sym, ◌∙◌, true, false, Option, none, some, [], ◌∷◌, ◌++◌, length,
  if◌then◌else◌, Bytes, Bool-cases, inl, inr, arith, take-append, append-nil, length-append, ==_iff,
  Option-cases,
}
use bolt_stream.OrderedMap.{find}
use bolt_stream.OrderedMap.Laws.{
  find-insert, find-erase_other, IsSorted, IsSorted-insert, IsSorted-erase,
}
use bolt_stream.OrderedMap.Numbers.{number_key, number_IsOrdered}
use bolt_stream.Storage.Log.{Files, Directory, content}
use bolt_stream.Storage.Log.Append.{
  Cleanup, Originals, originals, file_size_or_zero, zero_bytes, resized, resize_file,
  restore_segment, rollback,
}
use bolt_stream.Storage.Log.Append.Grown.{Grown}

resized-append : (old more : Bytes) → resized (length old) (old ++ more) ≡ old
unfolding zero_bytes
resized-append old more =
    let longer : length old - length (old ++ more) ≡ 0 = omega (arith, length-append old more) in
    rw (longer, take-append old more) (append-nil old)

-- Resizing a file touches no other.
resize_file_other :
    (base other n : ℕ) (files : Files)
    → (base == other) ≡ false
    → find other (resize_file base n files) ≡ find other files
unfolding resize_file
resize_file_other base other n files h = elim (Option-cases (find base files)) [
  | inl missing ↦ rw missing
  | inr (bytes, there) ↦ rw there (
      find-insert number_IsOrdered base other (resized n bytes) files
      ∙ ap (λ t. if t then some (resized n bytes) else find other files) h)
]

-- The file is there, with more behind what it was.
pub resize_file-find :
    (base : ℕ) (old more : Bytes) (files : Files)
    → find base files ≡ some (old ++ more)
    → find base (resize_file base (length old) files) ≡ some old
unfolding resize_file
resize_file-find base old more files there =
    let same : (base == base) ≡ true = ground arith in
    rw there (
      find-insert number_IsOrdered base base (resized (length old) (old ++ more)) files
      ∙ ap (λ t. if t then some (resized (length old) (old ++ more)) else find base files) same
      ∙ ap some (resized-append old more))

-- The content is what it was and more, whether the file is there or not.
abbrev pub Behind : Option Bytes → Option Bytes → Type 0
Behind old new = (more : Bytes) × (content new ≡ content old ++ more)

pub Grown-Behind : (old new : Option Bytes) → Grown old new → Behind old new
Grown-Behind old new (inl same) = ([], ap content same ∙ sym (append-nil (content old)))
Grown-Behind old new (inr (more, e)) = (more, ap content e)

nothing_before : (old more : Bytes) → [] ≡ old ++ more → [] ≡ old
nothing_before [] more e = refl
nothing_before (x ∷ old) more e = cc e

pub resize_file-content :
    (base : ℕ) (old : Option Bytes) (files : Files)
    → Behind old (find base files)
    → content (find base (resize_file base (length (content old)) files)) ≡ content old
unfolding resize_file
resize_file-content base old files (more, e) = elim (Option-cases (find base files)) [
  | inl missing ↦ rw (missing, missing) (nothing_before (content old) more (rw missing at e))
  | inr (bytes, there) ↦
      let whole : find base files ≡ some (content old ++ more) = there ∙ ap some (rw there at e) in
      ap content (resize_file-find base (content old) more files whole)
]

abbrev pub sizes_of : Files → ℕ → Option Bytes → Option (ℕ × ℕ)
sizes_of indexes base none = none
sizes_of indexes base (some bytes) = some (length bytes, file_size_or_zero base indexes)

pub find-originals :
    (base : ℕ) (logs indexes : Files)
    → find base (originals logs indexes) ≡ sizes_of indexes base (find base logs)
unfolding originals find
find-originals base [] indexes = refl
find-originals base ((other, bytes) ∷ logs) indexes = elim (Bool-cases (other == base)) [
  | inl same ↦
      let e : other ≡ base = (==_iff other base).0 same in
      rw same (ap (λ b. some (length bytes, file_size_or_zero b indexes)) e)
  | inr differs ↦ rw differs (find-originals base logs indexes)
]

-- The loop brings about for a segment what one round for it does, and other rounds keep.
module _ (cleanup : Cleanup) (sizes : Originals) (base : ℕ) (Before After : Directory → Type 0)
    (here : (f : Directory) → Before f → After (restore_segment cleanup base (find base sizes) f))
    (back : (f : Directory) → After f → Before f)
    (away : (other : ℕ) (f : Directory)
      → (other == base) ≡ false
      → (Before f → Before (restore_segment cleanup other (find other sizes) f))
        × (After f → After (restore_segment cleanup other (find other sizes) f))) where
  pub rollback-After :
      (segments : Files) (f : Directory)
      → Before f
      → (find base segments ≡ none → After f)
      → After (rollback cleanup sizes segments f)
  unfolding rollback find
  rollback-After [] f before after = after refl
  rollback-After ((other, bytes) ∷ segments) f before after = elim (Bool-cases (other == base)) [
    | inl same ↦
        let e : other ≡ base = (==_iff other base).0 same in
        let restored : After (restore_segment cleanup other (find other sizes) f) =
          rw e (here f before) in
        rollback-After segments (restore_segment cleanup other (find other sizes) f)
          (back _ restored) (λ gone. restored)
    | inr differs ↦
        let (keep_before, keep_after) = away other f differs in
        rollback-After segments (restore_segment cleanup other (find other sizes) f)
          (keep_before before) (λ gone. keep_after (after (rw differs gone)))
  ]

-- A round touches no other segment.
pub restore_segment_other :
    (cleanup : Cleanup) (other base : ℕ) (size : Option (ℕ × ℕ)) (f : Directory)
    → (other == base) ≡ false
    → (find base (restore_segment cleanup other size f).logs ≡ find base f.logs)
      × (find base (restore_segment cleanup other size f).indexes ≡ find base f.indexes)
restore_segment_other cleanup other base none f h =
    let logs = find-erase_other number_IsOrdered other base f.logs h in
    let indexes = find-erase_other number_IsOrdered other base f.indexes h in
    ground (arith, logs, indexes)
restore_segment_other cleanup other base (some (log_bytes, index_size)) f h =
    let logs = resize_file_other other base log_bytes f.logs h in
    let indexes = resize_file_other other base index_size f.indexes h in
    ground (arith, logs, indexes)

resize_file-IsSorted :
    (base n : ℕ) (files : Files)
    → IsSorted number_IsOrdered files
    → IsSorted number_IsOrdered (resize_file base n files)
unfolding resize_file
resize_file-IsSorted base n files h = elim (Option-cases (find base files)) [
  | inl missing ↦ rw missing h
  | inr (bytes, there) ↦ rw there (IsSorted-insert number_IsOrdered base (resized n bytes) files h)
]

pub restore_segment-IsSorted :
    (cleanup : Cleanup) (base : ℕ) (size : Option (ℕ × ℕ)) (f : Directory)
    → IsSorted number_IsOrdered f.logs
    → IsSorted number_IsOrdered (restore_segment cleanup base size f).logs
restore_segment-IsSorted cleanup base none f h = elim (Bool-cases (cleanup.removes_log base)) [
  | inl removes ↦ rw removes (IsSorted-erase number_IsOrdered base f.logs h)
  | inr keeps ↦ rw keeps h
]
restore_segment-IsSorted cleanup base (some (log_bytes, index_size)) f h =
    elim (Bool-cases (cleanup.resizes_log base)) [
      | inl resizes ↦ rw resizes (resize_file-IsSorted base log_bytes f.logs h)
      | inr keeps ↦ rw keeps h
    ]
