-- ===== src/Tests/Groups.antt =====
-- A group with two members: joins, commits, a leave and an expiry.
use bolt_stream.Base.{ℕ, ◌≤◌, arith, ◌≡◌, refl, some, List, [], ◌∷◌, String, Bytes, codes}
use bolt_stream.OrderedMap.{find, insert}
use bolt_stream.OrderedMap.Order.{bytes_eq, bytes_lt, bytes_key}
use bolt_stream.Protocol.Types.{stale_member}
use bolt_stream.Group.{
  GroupKey, group_key_eq, group_key_lt, group_key_order, MemberState, GroupState, refused,
  is_expired, expired_ids, live_members, push_partitions, deal, clear_assignments,
  recompute_assignment, bump_generation, expire_state, contains, owns_partition,
}
use bolt_stream.Group.Assignment.{
  count_up, assigned, owners, assigned-recompute_assignment, owners-recompute_assignment,
}
use bolt_stream.Group.Calls.{
  make_result, chosen_id, open_group, update_member, admit_member, reassign_idle, join_state, join,
  on_group, keep_member, leave_state, commit_state, validate_commit, member_name,
}
use bolt_stream.Group.Queries.{count_active}
use bolt_stream.Group.Runs.{
  Call, join_call, run_call, run_calls, new_coordinator, run_calls-one_owner,
}
use bolt_stream.Group.Fencing.{validate_commit-one_owner}
use bolt_stream.Group.Generations.{join_state-fences, leave_state-fences}
use bolt_stream.Group.Balance.{recompute_assignment-balanced}
use bolt_stream.Group.Expiry.{IsKept, expire_state-live, count_active-expire_state}

abbrev three_partitions : Bytes → ℕ
three_partitions topic = 3

abbrev key : GroupKey
key = record { group = codes "g"; topic = codes "t" }

abbrev two_joins : List Call
two_joins =
    join_call (codes "g") (codes "t") (codes "a") 10 3 0
    ∷ join_call (codes "g") (codes "t") (codes "b") 10 3 5
    ∷ []

abbrev member_a : MemberState
member_a = record {
  member_id = codes "a";
  session_timeout_ms = 10;
  last_heartbeat = 0;
  assignment = 0 ∷ 1 ∷ [];
}

abbrev member_b : MemberState
member_b = record {
  member_id = codes "b";
  session_timeout_ms = 10;
  last_heartbeat = 5;
  assignment = 2 ∷ [];
}

abbrev two_members : GroupState
two_members = record {
  group = codes "g";
  topic = codes "t";
  partition_count = 3;
  generation_id = 2;
  members = (codes "a", member_a) ∷ (codes "b", member_b) ∷ [];
}

two_joins_leave : find key (run_calls new_coordinator two_joins).groups ≡ some two_members
unfolding run_calls run_call join open_group expire_state expired_ids live_members is_expired
    join_state admit_member update_member reassign_idle bump_generation recompute_assignment deal
    push_partitions clear_assignments chosen_id member_name find insert group_key_eq group_key_lt
    bytes_eq bytes_lt make_result
two_joins_leave = refl

run_calls-one_owner_example : owners 1 two_members.members ≡ 1
run_calls-one_owner_example =
    run_calls-one_owner three_partitions two_joins key two_members 1
      ((refl, omega arith), ((refl, omega arith), tt)) two_joins_leave (λ e. cc)

validate_commit-one_owner_example : codes "a" ≡ codes "a"
unfolding validate_commit on_group commit_state keep_member owns_partition contains run_calls
    run_call join open_group expire_state expired_ids live_members is_expired join_state
    admit_member update_member reassign_idle bump_generation recompute_assignment deal
    push_partitions clear_assignments chosen_id member_name find insert group_key_eq group_key_lt
    bytes_eq bytes_lt make_result
validate_commit-one_owner_example =
    validate_commit-one_owner three_partitions two_joins (codes "g") (codes "t") (codes "a")
      (codes "a") 2 2 1 6 _ _ ((refl, omega arith), ((refl, omega arith), tt)) refl refl

-- The second commit is refused since another member owns the partition.
not_the_owner :
    (validate_commit
      (run_calls new_coordinator two_joins)
      (codes "g")
      (codes "t")
      (codes "b")
      2
      1
      6).1
    ≡ refused stale_member "group member does not own committed partition"
unfolding validate_commit on_group commit_state keep_member owns_partition contains run_calls
    run_call join open_group expire_state expired_ids live_members is_expired join_state
    admit_member update_member reassign_idle bump_generation recompute_assignment deal
    push_partitions clear_assignments chosen_id member_name find insert group_key_eq group_key_lt
    bytes_eq bytes_lt make_result
not_the_owner = refl

join_state-fences_example :
    (text : String) × ((commit_state (codes "a") 2 0 7 (join_state (codes "c") 10 6 two_members)).1
      ≡ refused stale_member text)
unfolding find bytes_eq
join_state-fences_example =
    join_state-fences (codes "c") (codes "a") 10 6 0 7 two_members refl (omega arith)

leave_state-fences_example :
    (text : String) × ((commit_state
        (codes "a")
        2
        0
        7
        (leave_state (codes "b") 2 6 two_members).0).1
      ≡ refused stale_member text)
unfolding leave_state run_calls run_call join open_group expire_state expired_ids live_members
    is_expired join_state admit_member update_member reassign_idle bump_generation
    recompute_assignment deal push_partitions clear_assignments chosen_id member_name find insert
    group_key_eq group_key_lt bytes_eq bytes_lt make_result
leave_state-fences_example =
    leave_state-fences (codes "b") (codes "a") 2 6 0 7 two_members _ (omega arith) refl

assigned-recompute_assignment_example :
    assigned (recompute_assignment two_members).members ≡ 0 ∷ 1 ∷ 2 ∷ []
unfolding count_up
assigned-recompute_assignment_example =
    assigned-recompute_assignment two_members (λ e. cc) (omega arith)

owners-recompute_assignment_example : owners 3 (recompute_assignment two_members).members ≡ 0
owners-recompute_assignment_example =
    owners-recompute_assignment two_members 3 (λ e. cc) (omega arith)

recompute_assignment-balanced_example : (1 ≤ 2) × (2 ≤ 2)
unfolding recompute_assignment deal push_partitions clear_assignments find bytes_eq
recompute_assignment-balanced_example =
    recompute_assignment-balanced two_members (codes "a") member_a (λ e. cc) (omega arith) refl

-- The member `a` has timed out, `b` has not.
expire_state-live_example :
    IsKept 10_000_002 member_b (find (codes "b") (expire_state 10_000_002 two_members).members)
unfolding find bytes_eq bytes_lt
expire_state-live_example =
    expire_state-live 10_000_002 (codes "b") member_b two_members (refl, tt) refl

count_active-expire_state_example : count_active 10_000_002 two_members.members ≡ 1
unfolding expire_state expired_ids live_members is_expired bump_generation recompute_assignment deal
    push_partitions clear_assignments
count_active-expire_state_example = count_active-expire_state 10_000_002 two_members
