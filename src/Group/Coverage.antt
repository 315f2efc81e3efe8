-- ===== src/Group/Coverage.antt =====
-- The invariant of one group (src/broker/group_coordinator.cpp): its members stand in the order of their
-- ids, and together they own every partition of the topic exactly once.
use bolt_stream.Base.{
  ℕ, ◌+◌, ◌^◌, ◌<◌, ◌≡◌, ◌≢◌, refl, ap, ◌∙◌, true, [], ◌∷◌, arith, ◌==◌, is_empty, Bool-cases, inl,
  inr, Bytes, ◌||◌,
}
use bolt_stream.OrderedMap.Order.{bytes_key, bytes_IsOrdered}
use bolt_stream.OrderedMap.Laws.{Above, IsSorted, Above-mono, IsSorted-tail}
use bolt_stream.Group.{
  Members, GroupState, is_expired, expired_ids, live_members, deal, clear_assignments,
  recompute_assignment, bump_generation, expire_state,
}
use bolt_stream.Group.Assignment.{count_up, assigned, assigned-recompute_assignment}

abbrev pub SortedMembers : Members → Type 0
SortedMembers = IsSorted bytes_IsOrdered

abbrev AboveId : Bytes → Members → Type 0
AboveId = Above bytes_IsOrdered

-- `partition_count` is the topic's number of partitions.
pub record IsCovered (partition_count : ℕ) (s : GroupState) : Type 0 where
  pub counted : s.partition_count ≡ partition_count
  pub small : partition_count < 2 ^ 16
  pub sorted : SortedMembers s.members
  pub covered : s.members ≢ [] → assigned s.members ≡ count_up 0 partition_count

-- Dealing and clearing keep the ids.
Above-clear_assignments :
    (low : Bytes) (ms : Members) → AboveId low ms → AboveId low (clear_assignments ms)
unfolding clear_assignments
Above-clear_assignments low [] h = tt
Above-clear_assignments low ((id, m) ∷ ms) h = (h.0, Above-clear_assignments id ms h.1)

Above-deal :
    (low : Bytes) (ms : Members) (base remainder next index : ℕ)
    → AboveId low ms
    → AboveId low (deal base remainder next index ms)
unfolding deal
Above-deal low [] base remainder next index h = tt
Above-deal low ((id, m) ∷ ms) base remainder next index h =
    (h.0, Above-deal id ms base remainder _ (index + 1) h.1)

IsSorted-clear_assignments :
    (ms : Members) → SortedMembers ms → SortedMembers (clear_assignments ms)
unfolding clear_assignments
IsSorted-clear_assignments [] h = tt
IsSorted-clear_assignments ((id, m) ∷ ms) h = Above-clear_assignments id ms h

IsSorted-deal :
    (base remainder next index : ℕ) (ms : Members)
    → SortedMembers ms
    → SortedMembers (deal base remainder next index ms)
unfolding deal
IsSorted-deal base remainder next index [] h = tt
IsSorted-deal base remainder next index ((id, m) ∷ ms) h =
    Above-deal id ms base remainder _ (index + 1) h

IsSorted-recompute_assignment :
    (s : GroupState) → SortedMembers s.members → SortedMembers (recompute_assignment s).members
unfolding recompute_assignment
IsSorted-recompute_assignment s h =
    elim (Bool-cases (is_empty s.members || s.partition_count == 0)) [
      | inl none_dealt ↦ rw none_dealt (IsSorted-clear_assignments s.members h)
      | inr some_dealt ↦
          rw some_dealt (IsSorted-deal _ _ 0 0 _ (IsSorted-clear_assignments s.members h))
    ]

clear_assignments-nil : (ms : Members) → ms ≡ [] → clear_assignments ms ≡ []
unfolding clear_assignments
clear_assignments-nil [] e = refl
clear_assignments-nil (m ∷ ms) e = cc

-- A group without members stays so.
recompute_assignment-nil : (s : GroupState) → (recompute_assignment s).members ≢ [] → s.members ≢ []
unfolding recompute_assignment
recompute_assignment-nil s h e = h (rw e (clear_assignments-nil [] refl))

partition_count-recompute_assignment :
    (s : GroupState) → (recompute_assignment s).partition_count ≡ s.partition_count
unfolding recompute_assignment
partition_count-recompute_assignment s = ground arith

-- However the members were assigned before, the assignment is covered afterwards.
pub recompute_assignment-IsCovered :
    (partition_count : ℕ) (s : GroupState)
    → s.partition_count ≡ partition_count
    → partition_count < 2 ^ 16
    → SortedMembers s.members
    → IsCovered partition_count (recompute_assignment s)
recompute_assignment-IsCovered partition_count s c small h = record {
  counted = partition_count-recompute_assignment s ∙ c;
  small = small;
  sorted = IsSorted-recompute_assignment s h;
  covered = λ ne.
      assigned-recompute_assignment s (recompute_assignment-nil s ne) (omega (arith, c))
      ∙ ap (count_up 0) c;
}

pub bump_generation-IsCovered :
    (partition_count : ℕ) (s : GroupState)
    → s.partition_count ≡ partition_count
    → partition_count < 2 ^ 16
    → SortedMembers s.members
    → IsCovered partition_count (bump_generation s)
unfolding bump_generation
bump_generation-IsCovered partition_count s c small h =
    recompute_assignment-IsCovered partition_count _ c small h

Above-live_members :
    (now : ℕ) (low : Bytes) (ms : Members) → AboveId low ms → AboveId low (live_members now ms)
unfolding live_members
Above-live_members now low [] h = tt
Above-live_members now low ((id, m) ∷ ms) h = elim (Bool-cases (is_expired now m)) [
  | inl gone ↦
      rw gone (Above-live_members now low ms (Above-mono bytes_IsOrdered low id ms h.0 h.1))
  | inr stays ↦ rw stays (h.0, Above-live_members now id ms h.1)
]

IsSorted-live_members :
    (now : ℕ) (ms : Members) → SortedMembers ms → SortedMembers (live_members now ms)
unfolding live_members
IsSorted-live_members now [] h = tt
IsSorted-live_members now ((id, m) ∷ ms) h = elim (Bool-cases (is_expired now m)) [
  | inl gone ↦ rw gone (IsSorted-live_members now ms (IsSorted-tail bytes_IsOrdered id m ms h))
  | inr stays ↦ rw stays (Above-live_members now id ms h)
]

-- If nobody expires, everybody stays.
live_members-all :
    (now : ℕ) (ms : Members) → is_empty (expired_ids now ms) ≡ true → live_members now ms ≡ ms
unfolding expired_ids live_members
live_members-all now [] h = refl
live_members-all now ((id, m) ∷ ms) h = ground (arith, live_members-all now ms)

pub expire_state-IsCovered :
    (partition_count now : ℕ) (s : GroupState)
    → IsCovered partition_count s
    → IsCovered partition_count (expire_state now s)
unfolding expire_state
expire_state-IsCovered partition_count now s h =
    elim (Bool-cases (is_empty (expired_ids now s.members))) [
      | inl nobody ↦ rw (nobody, live_members-all now s.members nobody) h
      | inr somebody ↦ rw somebody (
          bump_generation-IsCovered partition_count _ h.counted h.small
            (IsSorted-live_members now s.members h.sorted))
    ]
