-- ===== src/Group/Calls.antt =====
-- The calls of `GroupCoordinator`. `c` is the coordinator; a call gives the new one and what it
-- returned or threw.
use bolt_stream.Base.{
  ℕ, ◌+◌, ◌%◌, ◌^◌, Bool, true, false, ◌&&◌, ◌||◌, not, Option, none, some, List, [], ◌++◌, ◌==◌,
  if◌then◌else◌, is_empty, Bytes, codes, padded,
}
use bolt_stream.OrderedMap.{find, insert, erase}
use bolt_stream.OrderedMap.Order.{bytes_key}
use bolt_stream.Protocol.Types.{stale_member, rebalance_required}
use bolt_stream.Group.{
  group_key_order, MemberState, GroupState, Coordinator, GroupResult, Reply, replied, refused,
  expired_ids, recompute_assignment, bump_generation, expire_state, owns_partition,
}

unfoldable pub make_result : GroupState → Option MemberState → GroupResult
make_result state member = record {
  group = state.group;
  topic = state.topic;
  member_id = elim member [ none ↦ [] | some m ↦ m.member_id ];
  generation_id = state.generation_id;
  assignment = elim member [ none ↦ [] | some m ↦ m.assignment ];
  expired_member_ids = [];
  member_joined = false;
  member_left = false;
  generation_changed = false;
}

-- `"member-" << std::setw(12) << std::setfill('0') << next_member_id_`
unfoldable pub member_name : ℕ → Bytes
unfolding padded
member_name n = codes "member-" ++ padded 12 n

-- The caller's id, or the next generated one.
unfoldable pub chosen_id : Coordinator → Bytes → Bytes
chosen_id c member_id = if is_empty member_id then member_name c.next_member_id else member_id

abbrev pub fresh_member : Bytes → MemberState
fresh_member id = record {
  member_id = id;
  session_timeout_ms = 0;
  last_heartbeat = 0;
  assignment = [];
}

-- A write to the member that an iterator points at.
unfoldable pub update_member : Bytes → (MemberState → MemberState) → GroupState → GroupState
update_member id f state = elim (find id state.members) [
  | none ↦ state
  | some m ↦ record state { members = insert id (f m) state.members }
]

abbrev pub no_group : Bytes → Bytes → GroupState
no_group group topic = record {
  group = group;
  topic = topic;
  partition_count = 0;
  generation_id = 0;
  members = [];
}

-- `groups_[key]`, with the names filled in.
unfoldable pub open_group : Coordinator → Bytes → Bytes → GroupState
open_group c group topic = elim (find (record { group = group; topic = topic }) c.groups) [
  | none ↦ no_group group topic
  | some s ↦ if is_empty s.group then record s { group = group; topic = topic } else s
]

abbrev pub is_some {ℓ} : {A : Type ℓ} → Option A → Bool
is_some none = false
is_some (some a) = true

-- `try_emplace`: a new member starts a new generation.
unfoldable pub admit_member : Bytes → GroupState → GroupState
admit_member id state = elim (find id state.members) [
  | none ↦ bump_generation (record state { members = insert id (fresh_member id) state.members })
  | some m ↦ state
]

-- `if (!inserted && member.assignment.empty()) recompute_assignment(state);`
unfoldable pub reassign_idle : Bool → Bytes → GroupState → GroupState
reassign_idle inserted id state = elim (find id state.members) [
  | none ↦ state
  | some m ↦ if not inserted && is_empty m.assignment then recompute_assignment state else state
]

-- The group's part of `join`: the state, the ids expired, and whether the member is new.
unfoldable pub join_state : Bytes → ℕ → ℕ → GroupState → GroupState
join_state id session_timeout_ms now kept =
    let inserted = not (is_some (find id kept.members)) in
    reassign_idle inserted id (
      update_member id
        (λ m. record m { session_timeout_ms = session_timeout_ms; last_heartbeat = now })
        (admit_member id kept))

unfoldable pub join : Coordinator → Bytes → Bytes → Bytes → ℕ → ℕ → ℕ → Coordinator × GroupResult
join c group topic member_id session_timeout_ms partition_count now =
    let opened = record (open_group c group topic) { partition_count = partition_count } in
    let expired = expired_ids now opened.members in
    let kept = expire_state now opened in
    let id = chosen_id c member_id in
    let inserted = not (is_some (find id kept.members)) in
    let joined = join_state id session_timeout_ms now kept in
    (
      record {
        groups = insert (record { group = group; topic = topic }) joined c.groups;
        next_member_id =
            if is_empty member_id then (c.next_member_id + 1) % 2 ^ 64 else c.next_member_id;
      },
      record (make_result joined (find id joined.members)) {
        member_joined = inserted;
        generation_changed = not (is_empty expired) || inserted;
        expired_member_ids = expired;
      },
    )

-- A call on a group that must be known.
unfoldable pub on_group {ℓ} :
    {A : Type ℓ} → Coordinator → Bytes → Bytes → A → (GroupState → GroupState × A) → Coordinator × A
on_group c group topic unknown call =
    elim (find (record { group = group; topic = topic }) c.groups) [
      | none ↦ (c, unknown)
      | some state ↦
          let (state', a) = call state in
          (
            record c { groups = insert (record { group = group; topic = topic }) state' c.groups },
            a,
          )
    ]

-- `last_heartbeat = now`, and the result of a call that keeps the member.
unfoldable pub keep_member : Bytes → ℕ → List Bytes → GroupState → GroupState × Reply
keep_member member_id now expired state =
    let kept = update_member member_id (λ m. record m { last_heartbeat = now }) state in
    (
      kept,
      replied (record (make_result kept (find member_id kept.members)) {
        generation_changed = not (is_empty expired);
        expired_member_ids = expired;
      }),
    )

-- `sync` and `heartbeat` have the same body.
unfoldable pub keep_alive : Bytes → ℕ → ℕ → GroupState → GroupState × Reply
keep_alive member_id generation_id now state =
    let expired = expired_ids now state.members in
    let kept = expire_state now state in
    elim (find member_id kept.members) [
      | none ↦ (kept, refused stale_member "group member is stale")
      | some m ↦
          if not (generation_id == kept.generation_id)
          then (kept, refused rebalance_required "group generation has changed")
          else keep_member member_id now expired kept
    ]

unfoldable pub leave_state : Bytes → ℕ → ℕ → GroupState → GroupState × Reply
leave_state member_id generation_id now state =
    let expired = expired_ids now state.members in
    let kept = expire_state now state in
    elim (find member_id kept.members) [
      | none ↦ (kept, refused stale_member "group member is stale")
      | some m ↦
          if not (generation_id == kept.generation_id)
          then (kept, refused rebalance_required "group generation has changed")
          else let left =
              bump_generation (record kept { members = erase member_id kept.members }) in
            (
              left,
              replied (record (make_result kept (some m)) {
                generation_id = left.generation_id;
                member_left = true;
                generation_changed = true;
                expired_member_ids = expired;
              }),
            )
    ]

unfoldable pub commit_state : Bytes → ℕ → ℕ → ℕ → GroupState → GroupState × Reply
commit_state member_id generation_id partition now state =
    let expired = expired_ids now state.members in
    let kept = expire_state now state in
    elim (find member_id kept.members) [
      | none ↦ (kept, refused stale_member "group member is stale")
      | some m ↦
          if not (generation_id == kept.generation_id)
          then (kept, refused stale_member "group generation is stale for commit")
          else if not (owns_partition m partition)
          then (kept, refused stale_member "group member does not own committed partition")
          else keep_member member_id now expired kept
    ]

abbrev pub unknown_group : Reply
unknown_group = refused stale_member "consumer group is unknown"

unfoldable pub sync : Coordinator → Bytes → Bytes → Bytes → ℕ → ℕ → Coordinator × Reply
unfolding keep_alive
sync c group topic member_id generation_id now =
    on_group c group topic unknown_group (keep_alive member_id generation_id now)

unfoldable pub heartbeat : Coordinator → Bytes → Bytes → Bytes → ℕ → ℕ → Coordinator × Reply
heartbeat c group topic member_id generation_id now =
    on_group c group topic unknown_group (keep_alive member_id generation_id now)

unfoldable pub leave : Coordinator → Bytes → Bytes → Bytes → ℕ → ℕ → Coordinator × Reply
leave c group topic member_id generation_id now =
    on_group c group topic unknown_group (leave_state member_id generation_id now)

unfoldable pub validate_commit :
    Coordinator → Bytes → Bytes → Bytes → ℕ → ℕ → ℕ → Coordinator × Reply
validate_commit c group topic member_id generation_id partition now =
    on_group c group topic unknown_group (commit_state member_id generation_id partition now)
