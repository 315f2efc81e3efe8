-- ===== src/Storage/Log/Append/Grown.antt =====
-- What a file has grown to, by bytes behind it or by a cut (src/storage/partition_log.cpp).
use bolt_stream.Base.{
  ℕ, ◌-◌, ◌≤◌, sym, ◌==◌, ◌≡◌, ap, ◌∙◌, Option, some, ◌++◌, take, length, if◌then◌else◌, Bytes,
  Bool-cases, ◌⊎◌, inl, inr, arith, append_assoc, ==_iff, length-append, take-all, take-append_past,
  Option-cases,
}
use bolt_stream.OrderedMap.{find, insert}
use bolt_stream.OrderedMap.Laws.{find-insert}
use bolt_stream.OrderedMap.Numbers.{number_key, number_IsOrdered}
use bolt_stream.Storage.Log.{Files, content, append_to}
use bolt_stream.Storage.Log.Append.{cut_file}

-- A file is as it was, or it is there with more behind its content.
abbrev pub Grown : Option Bytes → Option Bytes → Type 0
Grown old new = (new ≡ old) ⊎ ((more : Bytes) × (new ≡ some (content old ++ more)))

pub Grown-trans : (a b c : Option Bytes) → Grown a b → Grown b c → Grown a c
Grown-trans a b c (inl same) h = elim h [
  | inl same' ↦ inl (same' ∙ same)
  | inr (y, e) ↦ inr (y, e ∙ ap (λ o. some (content o ++ y)) same)
]
Grown-trans a b c (inr (x, e)) h = elim h [
  | inl same ↦ inr (x, same ∙ e)
  | inr (y, f) ↦
      inr (x ++ y, f ∙ ap (λ o. some (content o ++ y)) e ∙ ap some (append_assoc (content a) x y))
]

pub find-append_to :
    (base other : ℕ) (bytes : Bytes) (files : Files)
    → find other (append_to base bytes files)
      ≡ (if base == other then some (content (find base files) ++ bytes) else find other files)
unfolding append_to
find-append_to base other bytes files =
    find-insert number_IsOrdered base other (content (find base files) ++ bytes) files

pub Grown-append_to :
    (base other : ℕ) (bytes : Bytes) (files : Files)
    → Grown (find other files) (find other (append_to base bytes files))
Grown-append_to base other bytes files = elim (Bool-cases (base == other)) [
  | inl same ↦
      let e : base ≡ other = (==_iff base other).0 same in
      inr (bytes, rw (find-append_to base other bytes files, same, e))
  | inr differs ↦ inl (rw (find-append_to base other bytes files, differs))
]

pub Grown-length :
    (old new : Option Bytes) → Grown old new → length (content old) ≤ length (content new)
Grown-length old new (inl same) = omega (arith, ap (λ o. length (content o)) same)
Grown-length old new (inr (more, e)) =
    omega (arith, ap (λ o. length (content o)) e, length-append (content old) more)

-- A cut behind the content of `old` leaves what has grown from it.
pub find-cut_file :
    (base n other : ℕ) (old : Option Bytes) (files : Files)
    → (base ≡ other → length (content old) ≤ n)
    → Grown old (find other files)
    → Grown old (find other (cut_file base n files))
unfolding cut_file
find-cut_file base n other old files behind h = elim (Option-cases (find base files)) [
  | inl missing ↦ rw missing h
  | inr (bytes, there) ↦
      let cut : find other (insert base (take n bytes) files)
          ≡ (if base == other then some (take n bytes) else find other files) =
        find-insert number_IsOrdered base other (take n bytes) files in
      elim (Bool-cases (base == other)) [
        | inr differs ↦ rw (there, cut, differs) h
        | inl same ↦
            let e : base ≡ other = (==_iff base other).0 same in
            let here : find other files ≡ some bytes = rw⁻¹ e there in
            let long = behind e in
            rw (there, cut, same)
              (elim h [
                | inl unchanged ↦
                    let was : old ≡ some bytes = sym unchanged ∙ here in
                    inl (
                      ap some
                        (take-all n bytes (omega (arith, long, ap (λ o. length (content o)) was)))
                      ∙ sym was)
                | inr (more, grown) ↦
                    let whole : bytes ≡ content old ++ more = cc (here, grown) in
                    inr (
                      take (n - length (content old)) more,
                      ap some (ap (take n) whole ∙ take-append_past n (content old) more long),
                    )
              ])
      ]
]
