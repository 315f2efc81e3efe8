-- ===== src/Group/Balance.antt =====
-- How many partitions `recompute_assignment` of src/broker/group_coordinator.cpp gives to a member.
use bolt_stream.Base.{
  ℕ, zero, suc, ◌+◌, ◌/◌, ◌%◌, ◌^◌, ◌≤◌, ◌<◌, ◌≡◌, ◌≢◌, refl, sym, some, true, ◌||◌, [], ◌∷◌, arith,
  ltb, ◌==◌, if◌then◌else◌, length, is_empty, Bool-cases, inl, inr, Bytes,
}
use bolt_stream.OrderedMap.{find}
use bolt_stream.OrderedMap.Order.{bytes_eq, bytes_key}
use bolt_stream.Group.{
  MemberState, Members, GroupState, push_partitions, deal, clear_assignments, recompute_assignment,
}

abbrev Balanced : ℕ → Members → Type 0
Balanced base [] = Unit
Balanced base ((id, m) ∷ ms) =
    (base ≤ length m.assignment) × (length m.assignment ≤ base + 1) × Balanced base ms

length-push_partitions : (count next : ℕ) → length (push_partitions count next).0 ≡ count
unfolding push_partitions
length-push_partitions zero next = refl
length-push_partitions (suc count) next =
    omega (arith, length-push_partitions count ((next + 1) % 2 ^ 16))

Balanced-deal :
    (ms : Members) (base remainder next index : ℕ)
    → Balanced base (deal base remainder next index ms)
unfolding deal
Balanced-deal [] base remainder next index = tt
Balanced-deal ((id, m) ∷ ms) base remainder next index =
    let size = length-push_partitions (base + (if ltb index remainder then 1 else 0)) next in
    (ground (arith, size), ground (arith, size), Balanced-deal ms base remainder _ (index + 1))

find-Balanced :
    (base : ℕ) (id : Bytes) (m : MemberState) (ms : Members)
    → Balanced base ms
    → find id ms ≡ some m
    → (base ≤ length m.assignment) × (length m.assignment ≤ base + 1)
unfolding find
find-Balanced base id m [] h e = cc
find-Balanced base id m ((j, x) ∷ ms) h e = elim (Bool-cases (bytes_eq j id)) [
  | inl same ↦ let here : x ≡ m = cc (rw same at e) in rw (sym here) (h.0, h.1)
  | inr other ↦ find-Balanced base id m ms h.2 (rw other at e)
]

neither : (ms : Members) (n : ℕ) → ms ≢ [] → 0 < n → (is_empty ms || n == 0) ≢ true
neither [] n h p e = h refl
neither (x ∷ ms) n h p e = ground (arith, e)

-- If a group has members and its topic has partitions, then after `recompute_assignment` every member
-- has the number of partitions divided by the number of members, rounded down, or one more.
pub recompute_assignment-balanced :
    (s : GroupState) (id : Bytes) (m : MemberState)
    → s.members ≢ []
    → 0 < s.partition_count
    → find id (recompute_assignment s).members ≡ some m
    → (s.partition_count / length s.members ≤ length m.assignment)
      × (length m.assignment ≤ s.partition_count / length s.members + 1)
unfolding recompute_assignment
recompute_assignment-balanced s id m some_members some_partitions e =
    elim (Bool-cases (is_empty s.members || s.partition_count == 0)) [
      | inl none_dealt ↦
          absurd (neither s.members s.partition_count some_members some_partitions none_dealt)
      | inr some_dealt ↦
          find-Balanced _ id m _
            (Balanced-deal (clear_assignments s.members) (s.partition_count / length s.members)
              (s.partition_count % length s.members) 0 0)
            (rw (some_dealt, recompute_assignment) at e)
    ]
