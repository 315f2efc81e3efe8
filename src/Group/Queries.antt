-- ===== src/Group/Queries.antt =====
-- The calls of `GroupCoordinator` that expire, count, drop and list groups.
use bolt_stream.Base.{
  ℕ, suc, ◌+◌, ◌*◌, ltb, Bool, false, ◌||◌, not, none, List, [], ◌∷◌, if◌then◌else◌, length,
  is_empty, Bytes,
}
use bolt_stream.OrderedMap.Order.{bytes_eq}
use bolt_stream.Group.{
  GroupKey, group_key_order, MemberState, Members, GroupState, Coordinator, GroupResult,
  expired_ids, expire_state,
}
use bolt_stream.Group.Calls.{make_result, no_group, on_group}

-- `expire` names the group in its result even if it is unknown.
unfoldable pub expire : Coordinator → Bytes → Bytes → ℕ → Coordinator × GroupResult
expire c group topic now = on_group c group topic (make_result (no_group group topic) none) λ state.
    let expired = expired_ids now state.members in
    let kept = expire_state now state in
    (
      kept,
      record (make_result kept none) {
        generation_changed = not (is_empty expired);
        expired_member_ids = expired;
      },
    )

unfoldable pub has_active_members : Coordinator → Bytes → Bytes → ℕ → Coordinator × Bool
has_active_members c group topic now =
    on_group c group topic false
      λ state. let kept = expire_state now state in (kept, not (is_empty kept.members))

unfoldable pub active_member_count : Coordinator → Bytes → Bytes → ℕ → Coordinator × ℕ
active_member_count c group topic now =
    on_group c group topic 0
      λ state. let kept = expire_state now state in (kept, length kept.members)

-- The loop over the groups: those of the topic are expired.
unfoldable pub expire_topic :
    Bytes → ℕ → List (GroupKey × GroupState) → List (GroupKey × GroupState)
expire_topic topic now [] = []
expire_topic topic now ((key, state) ∷ gs) =
    (key, if bytes_eq key.topic topic then expire_state now state else state)
    ∷ expire_topic topic now gs

unfoldable pub any_active : Bytes → List (GroupKey × GroupState) → Bool
any_active topic [] = false
any_active topic ((key, state) ∷ gs) =
    (if bytes_eq key.topic topic then not (is_empty state.members) else false)
    || any_active topic gs

unfoldable pub topic_has_active_members : Coordinator → Bytes → ℕ → Coordinator × Bool
topic_has_active_members c topic now =
    let groups = expire_topic topic now c.groups in
    (record c { groups = groups }, any_active topic groups)

unfoldable pub without_topic : Bytes → List (GroupKey × GroupState) → List (GroupKey × GroupState)
without_topic topic [] = []
without_topic topic ((key, state) ∷ gs) =
    let rest = without_topic topic gs in
    if bytes_eq key.topic topic then rest else (key, state) ∷ rest

unfoldable pub remove_topic : Coordinator → Bytes → Coordinator
remove_topic c topic = record c { groups = without_topic topic c.groups }

pub record Snapshot : Type 0 where
  pub group : Bytes
  pub topic : Bytes
  pub generation_id : ℕ
  pub active_member_count : ℕ

-- `now - last_heartbeat < timeout`
unfoldable pub is_active : ℕ → MemberState → Bool
is_active now m = ltb now (m.last_heartbeat + m.session_timeout_ms * 1_000_000)

unfoldable pub count_active : ℕ → Members → ℕ
count_active now [] = 0
count_active now ((id, m) ∷ ms) =
    let rest = count_active now ms in if is_active now m then suc rest else rest

-- `snapshots` expires nobody: it counts those who would stay.
unfoldable pub snapshots : ℕ → List (GroupKey × GroupState) → List Snapshot
snapshots now [] = []
snapshots now ((key, state) ∷ gs) =
    record {
      group = key.group;
      topic = key.topic;
      generation_id = state.generation_id;
      active_member_count = count_active now state.members;
    }
    ∷ snapshots now gs
