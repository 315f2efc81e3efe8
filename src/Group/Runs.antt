-- ===== src/Group/Runs.antt =====
-- Runs of calls on the coordinator. A call names the topic's partition count only in `join`.
use bolt_stream.Base.{
  ℕ, ◌^◌, ◌<◌, ◌≡◌, ◌≢◌, refl, subst, true, some, List, [], ◌∷◌, arith, ltb, if◌then◌else◌,
  is_empty, Bool-cases, Option-cases, inl, inr, Bytes,
}
use bolt_stream.OrderedMap.{find, insert}
use bolt_stream.OrderedMap.Order.{bytes_eq, bytes_key, bytes_IsOrdered}
use bolt_stream.Group.{
  GroupKey, group_key_eq, group_key_lt, group_key_order, GroupState, Coordinator,
}
use bolt_stream.Group.Assignment.{owners, owners-count_up}
use bolt_stream.Group.Calls.{
  open_group, on_group, join, sync, heartbeat, leave, validate_commit, chosen_id,
}
use bolt_stream.Group.Queries.{
  expire, has_active_members, active_member_count, expire_topic, topic_has_active_members,
  without_topic, remove_topic,
}
use bolt_stream.Group.Coverage.{IsCovered, expire_state-IsCovered}
use bolt_stream.Group.Steps.{
  join_state-IsCovered, keep_alive-IsCovered, leave_state-IsCovered, commit_state-IsCovered,
}

-- A call that changes the coordinator, with its time.
pub data Call : Type 0 where
  join_call : Bytes → Bytes → Bytes → ℕ → ℕ → ℕ → Call
  sync_call : Bytes → Bytes → Bytes → ℕ → ℕ → Call
  heartbeat_call : Bytes → Bytes → Bytes → ℕ → ℕ → Call
  leave_call : Bytes → Bytes → Bytes → ℕ → ℕ → Call
  commit_call : Bytes → Bytes → Bytes → ℕ → ℕ → ℕ → Call
  expire_call : Bytes → Bytes → ℕ → Call
  has_active_call : Bytes → Bytes → ℕ → Call
  count_active_call : Bytes → Bytes → ℕ → Call
  topic_active_call : Bytes → ℕ → Call
  remove_topic_call : Bytes → Call

unfoldable pub run_call : Coordinator → Call → Coordinator
run_call c (join_call group topic member_id timeout count now) =
    (join c group topic member_id timeout count now).0
run_call c (sync_call group topic member_id generation now) =
    (sync c group topic member_id generation now).0
run_call c (heartbeat_call group topic member_id generation now) =
    (heartbeat c group topic member_id generation now).0
run_call c (leave_call group topic member_id generation now) =
    (leave c group topic member_id generation now).0
run_call c (commit_call group topic member_id generation partition now) =
    (validate_commit c group topic member_id generation partition now).0
run_call c (expire_call group topic now) = (expire c group topic now).0
run_call c (has_active_call group topic now) = (has_active_members c group topic now).0
run_call c (count_active_call group topic now) = (active_member_count c group topic now).0
run_call c (topic_active_call topic now) = (topic_has_active_members c topic now).0
run_call c (remove_topic_call topic) = remove_topic c topic

unfoldable pub run_calls : Coordinator → List Call → Coordinator
run_calls c [] = c
run_calls c (call ∷ calls) = run_calls (run_call c call) calls

abbrev pub new_coordinator : Coordinator
new_coordinator = record { groups = []; next_member_id = 1 }

-- The partition count that a `join` names is the topic's.
abbrev pub CallFits : (Bytes → ℕ) → Call → Type 0
CallFits partitions (join_call group topic member_id timeout count now) =
    (count ≡ partitions topic) × (partitions topic < 2 ^ 16)
CallFits partitions _ = Unit

abbrev pub CallsFit : (Bytes → ℕ) → List Call → Type 0
CallsFit partitions [] = Unit
CallsFit partitions (call ∷ calls) = CallFits partitions call × CallsFit partitions calls

abbrev Groups : Type 0
Groups = List (GroupKey × GroupState)

abbrev AllCovered : (Bytes → ℕ) → Groups → Type 0
AllCovered partitions [] = Unit
AllCovered partitions ((key, s) ∷ gs) =
    IsCovered (partitions key.topic) s × AllCovered partitions gs

group_key_eq-topic : (a b : GroupKey) → group_key_eq a b ≡ true → a.topic ≡ b.topic
unfolding group_key_eq
group_key_eq-topic a b h = (bytes_IsOrdered.eq_iff a.topic b.topic).0 (ground arith)

find-AllCovered :
    (partitions : Bytes → ℕ) (key : GroupKey) (s : GroupState) (gs : Groups)
    → AllCovered partitions gs
    → find key gs ≡ some s
    → IsCovered (partitions key.topic) s
unfolding find
find-AllCovered partitions key s [] h e = cc
find-AllCovered partitions key s ((j, t) ∷ gs) h e = elim (Bool-cases (group_key_eq j key)) [
  | inl same ↦
      let here : t ≡ s = cc (rw same at e) in
      subst (λ x. IsCovered (partitions key.topic) x) here
        (subst (λ x. IsCovered (partitions x) t) (group_key_eq-topic j key same) h.0)
  | inr other ↦ find-AllCovered partitions key s gs h.1 (rw other at e)
]

insert-AllCovered :
    (partitions : Bytes → ℕ) (key : GroupKey) (s : GroupState) (gs : Groups)
    → IsCovered (partitions key.topic) s
    → AllCovered partitions gs
    → AllCovered partitions (insert key s gs)
unfolding insert
insert-AllCovered partitions key s [] c h = (c, tt)
insert-AllCovered partitions key s ((j, t) ∷ gs) c h = elim (Bool-cases (group_key_eq j key)) [
  | inl same ↦ rw same (c, h.1)
  | inr other ↦ elim (Bool-cases (group_key_lt key j)) [
    | inl less ↦ rw (other, less) (c, h)
    | inr more ↦ rw (other, more) (h.0, insert-AllCovered partitions key s gs c h.1)
  ]
]

-- A call on a known group that keeps its invariant.
on_group-AllCovered :
    {A : Type 0} (partitions : Bytes → ℕ) (c : Coordinator) (group topic : Bytes) (unknown : A)
    (call : GroupState → GroupState × A)
    → ((s : GroupState) → IsCovered (partitions topic) s → IsCovered (partitions topic) (call s).0)
    → AllCovered partitions c.groups
    → AllCovered partitions (on_group c group topic unknown call).0.groups
unfolding on_group
on_group-AllCovered partitions c group topic unknown call keeps h =
    let key : GroupKey = record { group = group; topic = topic } in
    elim (Option-cases (find key c.groups)) [
      | inl none_there ↦ rw (none_there, on_group) h
      | inr (s, there) ↦
          rw (there, on_group)
            (insert-AllCovered partitions key (call s).0 c.groups
              (keeps s (find-AllCovered partitions key s c.groups h there)) h)
    ]

expire_topic-AllCovered :
    (partitions : Bytes → ℕ) (topic : Bytes) (now : ℕ) (gs : Groups)
    → AllCovered partitions gs
    → AllCovered partitions (expire_topic topic now gs)
unfolding expire_topic
expire_topic-AllCovered partitions topic now [] h = tt
expire_topic-AllCovered partitions topic now ((key, s) ∷ gs) h =
    let rest = expire_topic-AllCovered partitions topic now gs h.1 in
    elim (Bool-cases (bytes_eq key.topic topic)) [
      | inl same ↦ rw same (expire_state-IsCovered (partitions key.topic) now s h.0, rest)
      | inr other ↦ rw other (h.0, rest)
    ]

without_topic-AllCovered :
    (partitions : Bytes → ℕ) (topic : Bytes) (gs : Groups)
    → AllCovered partitions gs
    → AllCovered partitions (without_topic topic gs)
unfolding without_topic
without_topic-AllCovered partitions topic [] h = tt
without_topic-AllCovered partitions topic ((key, s) ∷ gs) h =
    let rest = without_topic-AllCovered partitions topic gs h.1 in
    elim (Bool-cases (bytes_eq key.topic topic)) [
      | inl same ↦ rw same rest
      | inr other ↦ rw other (h.0, rest)
    ]

-- The group that `join` works on.
open_group-IsCovered :
    (partitions : Bytes → ℕ) (c : Coordinator) (group topic : Bytes) (count : ℕ)
    → count ≡ partitions topic
    → partitions topic < 2 ^ 16
    → AllCovered partitions c.groups
    → IsCovered (partitions topic) (record (open_group c group topic) { partition_count = count })
unfolding open_group
open_group-IsCovered partitions c group topic count e small h =
    let key : GroupKey = record { group = group; topic = topic } in
    elim (Option-cases (find key c.groups)) [
      | inl none_there ↦
          rw (none_there, open_group)
            record { counted = e; small = small; sorted = tt; covered = λ ne. absurd (ne refl) }
      | inr (s, there) ↦
          let held = find-AllCovered partitions key s c.groups h there in
          elim (Bool-cases (is_empty s.group)) [
            | inl unnamed ↦
                rw (there, unnamed, open_group)
                  record {
                    counted = e;
                    small = small;
                    sorted = held.sorted;
                    covered = held.covered;
                  }
            | inr named ↦
                rw (there, named, open_group)
                  record {
                    counted = e;
                    small = small;
                    sorted = held.sorted;
                    covered = held.covered;
                  }
          ]
    ]

run_call-AllCovered :
    (partitions : Bytes → ℕ) (c : Coordinator) (call : Call)
    → CallFits partitions call
    → AllCovered partitions c.groups
    → AllCovered partitions (run_call c call).groups
unfolding run_call join sync heartbeat leave validate_commit expire has_active_members
    active_member_count topic_has_active_members remove_topic
run_call-AllCovered partitions c (join_call group topic member_id timeout count now) f h =
    insert-AllCovered partitions _ _ c.groups
      (join_state-IsCovered _ (chosen_id c member_id) timeout now _ (
        expire_state-IsCovered _ now _
          (open_group-IsCovered partitions c group topic count f.0 f.1 h)))
      h
run_call-AllCovered partitions c (sync_call group topic member_id generation now) f h =
    on_group-AllCovered partitions c group topic _ _
      (keep_alive-IsCovered _ member_id generation now) h
run_call-AllCovered partitions c (heartbeat_call group topic member_id generation now) f h =
    on_group-AllCovered partitions c group topic _ _
      (keep_alive-IsCovered _ member_id generation now) h
run_call-AllCovered partitions c (leave_call group topic member_id generation now) f h =
    on_group-AllCovered partitions c group topic _ _
      (leave_state-IsCovered _ member_id generation now) h
run_call-AllCovered partitions c (commit_call group topic member_id generation partition now) f h =
    on_group-AllCovered partitions c group topic _ _
      (commit_state-IsCovered _ member_id generation partition now) h
run_call-AllCovered partitions c (expire_call group topic now) f h =
    on_group-AllCovered partitions c group topic _ _ (expire_state-IsCovered _ now) h
run_call-AllCovered partitions c (has_active_call group topic now) f h =
    on_group-AllCovered partitions c group topic _ _ (expire_state-IsCovered _ now) h
run_call-AllCovered partitions c (count_active_call group topic now) f h =
    on_group-AllCovered partitions c group topic _ _ (expire_state-IsCovered _ now) h
run_call-AllCovered partitions c (topic_active_call topic now) f h =
    expire_topic-AllCovered partitions topic now c.groups h
run_call-AllCovered partitions c (remove_topic_call topic) f h =
    without_topic-AllCovered partitions topic c.groups h

run_calls-AllCovered :
    (partitions : Bytes → ℕ) (c : Coordinator) (calls : List Call)
    → CallsFit partitions calls
    → AllCovered partitions c.groups
    → AllCovered partitions (run_calls c calls).groups
unfolding run_calls
run_calls-AllCovered partitions c [] f h = h
run_calls-AllCovered partitions c (call ∷ calls) f h =
    run_calls-AllCovered partitions (run_call c call) calls f.1
      (run_call-AllCovered partitions c call f.0 h)

-- Every group that any run of calls leaves behind is covered.
pub run_calls-IsCovered :
    (partitions : Bytes → ℕ) (calls : List Call) (key : GroupKey) (s : GroupState)
    → CallsFit partitions calls
    → find key (run_calls new_coordinator calls).groups ≡ some s
    → IsCovered (partitions key.topic) s
run_calls-IsCovered partitions calls key s f e =
    find-AllCovered partitions key s _ (run_calls-AllCovered partitions new_coordinator calls f tt)
      e

-- After any run of calls on a new coordinator in which each `join` names the partition count of its
-- topic, one below 2^16, a group with members has exactly one owner for each partition of its topic,
-- and none for any other number.
pub run_calls-one_owner :
    (partitions : Bytes → ℕ) (calls : List Call) (key : GroupKey) (s : GroupState) (partition : ℕ)
    → CallsFit partitions calls
    → find key (run_calls new_coordinator calls).groups ≡ some s
    → s.members ≢ []
    → owners partition s.members ≡ (if ltb partition (partitions key.topic) then 1 else 0)
run_calls-one_owner partitions calls key s partition f e ne =
    let held = run_calls-IsCovered partitions calls key s f e in
    owners-count_up partition (partitions key.topic) s.members (held.covered ne)
