-- ===== src/Group/Assignment.antt =====
-- Which partitions `recompute_assignment` of src/broker/group_coordinator.cpp gives to the members.
use native.Mathlib.Nat.{div-add-mod, mod-lt}
use mathlib.Core.Path.{ap₂}
use bolt_stream.Base.{
  ℕ, zero, suc, ◌+◌, ◌-◌, ◌*◌, ◌/◌, ◌%◌, ◌^◌, ◌≤◌, ◌<◌, min, ◌≡◌, ◌≢◌, refl, sym, ap, ◌∙◌, List, [],
  ◌∷◌, ◌++◌, arith, ltb, ◌==◌, if◌then◌else◌, length, append_assoc,
}
use bolt_stream.Group.{
  Members, GroupState, push_partitions, deal, clear_assignments, recompute_assignment, contains,
  owns_partition,
}

-- `count` numbers from `next` on.
unfoldable pub count_up : ℕ → ℕ → List ℕ
count_up next zero = []
count_up next (suc count) = next ∷ count_up (next + 1) count

-- The assignments of the members, one after another.
unfoldable pub assigned : Members → List ℕ
assigned [] = []
assigned ((id, m) ∷ ms) = m.assignment ++ assigned ms

pub assigned-append : (xs ys : Members) → assigned (xs ++ ys) ≡ assigned xs ++ assigned ys
unfolding assigned
assigned-append [] ys = refl
assigned-append ((id, m) ∷ xs) ys =
    ap (λ l. m.assignment ++ l) (assigned-append xs ys)
    ∙ sym (append_assoc m.assignment (assigned xs) (assigned ys))

count_up-add : (next a b : ℕ) → count_up next (a + b) ≡ count_up next a ++ count_up (next + a) b
unfolding count_up
count_up-add next zero b = ap₂ count_up (omega arith) (omega arith)
count_up-add next (suc a) b =
    let e : suc a + b ≡ suc (a + b) = omega arith in
    let f : next + 1 + a ≡ next + suc a = omega arith in
    rw e (
      ap (λ l. next ∷ l)
        (count_up-add (next + 1) a b ∙ ap (λ n. count_up (next + 1) a ++ count_up n b) f))

-- Below the 16-bit limit the counter does not wrap.
push_partitions-count_up :
    (count next : ℕ)
    → next + count < 2 ^ 16
    → push_partitions count next ≡ (count_up next count, next + count)
unfolding push_partitions count_up
push_partitions-count_up zero next h = ground arith
push_partitions-count_up (suc count) next h =
    let w : (next + 1) % 2 ^ 16 ≡ next + 1 = omega arith in
    rw (w, push_partitions-count_up count (next + 1) (omega arith)) (ground arith)

-- How many partitions the members from `index` on are dealt.
abbrev share : ℕ → ℕ → ℕ → ℕ → ℕ
share base remainder index members = base * members + min (remainder - index) members

quota : ℕ → ℕ → ℕ → ℕ
quota base remainder index = base + (if ltb index remainder then 1 else 0)

share-suc :
    (base remainder index n : ℕ)
    → share base remainder index (suc n)
      ≡ quota base remainder index + share base remainder (index + 1) n
unfolding quota
share-suc base remainder index n = grind arith

share-zero : (base remainder index : ℕ) → share base remainder index 0 ≡ 0
share-zero base remainder index = omega arith

assigned-deal :
    (base remainder next index : ℕ) (ms : Members)
    → next + share base remainder index (length ms) < 2 ^ 16
    → assigned (deal base remainder next index ms)
      ≡ count_up next (share base remainder index (length ms))
unfolding assigned deal quota
assigned-deal base remainder next index [] h =
    rw (share-zero base remainder index) (unfold count_up in refl)
assigned-deal base remainder next index ((id, m) ∷ ms) h =
    let count : ℕ = quota base remainder index in
    let rest : ℕ = share base remainder (index + 1) (length ms) in
    let total = share-suc base remainder index (length ms) in
    rw (push_partitions-count_up count next (omega (arith, total))) (
      ap (λ l. count_up next count ++ l)
        (assigned-deal base remainder (next + count) (index + 1) ms (omega (arith, total)))
      ∙ sym (count_up-add next count rest)
      ∙ ap (count_up next) (sym total))

length-clear_assignments : (ms : Members) → length (clear_assignments ms) ≡ length ms
unfolding clear_assignments
length-clear_assignments [] = refl
length-clear_assignments ((id, m) ∷ ms) = omega (arith, length-clear_assignments ms)

share-whole : (count n : ℕ) → 0 < n → share (count / n) (count % n) 0 n ≡ count
share-whole count n h =
    let split = div-add-mod count n in
    let small : count % n < n = mod-lt count h in omega (arith, split, small)

assigned-clear_assignments : (ms : Members) → assigned (clear_assignments ms) ≡ []
unfolding assigned clear_assignments
assigned-clear_assignments [] = refl
assigned-clear_assignments ((id, m) ∷ ms) = assigned-clear_assignments ms

dealt :
    (count : ℕ) (ms : Members)
    → ms ≢ []
    → count < 2 ^ 16
    → assigned (deal (count / length ms) (count % length ms) 0 0 (clear_assignments ms))
      ≡ count_up 0 count
dealt count [] h small = absurd (h refl)
dealt count (e ∷ ms) h small =
    let n : ℕ = length (e ∷ ms) in
    let cleared = length-clear_assignments (e ∷ ms) in
    let whole = share-whole count n (omega arith) in
    let total : share (count / n) (count % n) 0 (length (clear_assignments (e ∷ ms))) ≡ count =
      rw cleared whole in
    assigned-deal (count / n) (count % n) 0 0 (clear_assignments (e ∷ ms)) (omega (arith, total))
    ∙ ap (count_up 0) total

-- If a group has members and its topic fewer than 2^16 partitions, then after `recompute_assignment`
-- the assignments in the members' order are the partitions 0, 1, … of the topic, each once.
pub assigned-recompute_assignment :
    (state : GroupState)
    → state.members ≢ []
    → state.partition_count < 2 ^ 16
    → assigned (recompute_assignment state).members ≡ count_up 0 state.partition_count
unfolding recompute_assignment count_up
assigned-recompute_assignment state h small = ground (
  arith,
  dealt state.partition_count state.members h small,
  assigned-clear_assignments state.members,
)

-- How many members own a partition.
unfoldable pub owners : ℕ → Members → ℕ
owners partition [] = 0
owners partition ((id, m) ∷ ms) =
    (if owns_partition m partition then 1 else 0) + owners partition ms

occurrences : ℕ → List ℕ → ℕ
occurrences p [] = 0
occurrences p (x ∷ xs) = (if x == p then 1 else 0) + occurrences p xs

occurrences-append :
    (p : ℕ) (xs ys : List ℕ) → occurrences p (xs ++ ys) ≡ occurrences p xs + occurrences p ys
unfolding occurrences
occurrences-append p [] ys = omega arith
occurrences-append p (x ∷ xs) ys = ground (arith, occurrences-append p xs ys)

occurrences-count_up :
    (p next count : ℕ)
    → occurrences p (count_up next count)
      ≡ (if ltb p next then 0 else if ltb p (next + count) then 1 else 0)
unfolding occurrences count_up
occurrences-count_up p next zero = ground arith
occurrences-count_up p next (suc count) = ground (arith, occurrences-count_up p (next + 1) count)

contains-occurrences : (p : ℕ) (xs : List ℕ) → contains xs p ≡ ltb 0 (occurrences p xs)
unfolding contains occurrences
contains-occurrences p [] = refl
contains-occurrences p (x ∷ xs) = ground (arith, contains-occurrences p xs)

-- Where no partition is dealt twice, the owners are counted by the occurrences.
owners-occurrences :
    (p : ℕ) (ms : Members)
    → occurrences p (assigned ms) ≤ 1
    → owners p ms ≡ occurrences p (assigned ms)
unfolding owners owns_partition assigned
owners-occurrences p [] h = unfold occurrences in refl
owners-occurrences p ((id, m) ∷ ms) h = ground (
  arith,
  occurrences-append p m.assignment (assigned ms),
  contains-occurrences p m.assignment,
  owners-occurrences p ms,
)

-- Where the assignments are the partitions from 0 on, each of these has one owner and no other has one.
pub owners-count_up :
    (partition count : ℕ) (ms : Members)
    → assigned ms ≡ count_up 0 count
    → owners partition ms ≡ (if ltb partition count then 1 else 0)
owners-count_up partition count ms all =
    let once : occurrences partition (assigned ms) ≡ (if ltb partition count then 1 else 0) =
      ap (occurrences partition) all ∙ occurrences-count_up partition 0 count ∙ ground arith in
    owners-occurrences partition ms (ground (arith, once)) ∙ once

-- If a group has members and its topic fewer than 2^16 partitions, then after `recompute_assignment`
-- every partition of the topic has exactly one owner, and nobody owns another partition.
pub owners-recompute_assignment :
    (state : GroupState) (partition : ℕ)
    → state.members ≢ []
    → state.partition_count < 2 ^ 16
    → owners partition (recompute_assignment state).members
      ≡ (if ltb partition state.partition_count then 1 else 0)
owners-recompute_assignment state partition h small =
    owners-count_up partition state.partition_count _ (assigned-recompute_assignment state h small)
