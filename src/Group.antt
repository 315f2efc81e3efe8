-- ===== src/Group.antt =====
-- src/broker/group_coordinator.cpp: membership, generations and assignments of consumer groups.
-- Each call holds the mutex from its first line to its last, so a call is one step on the state. A
-- call that throws keeps what it has changed before: it gives the state and the error.
-- `TimePoint` is a number of nanoseconds, and `now - heartbeat >= timeout` is written with a sum.
pub mod Assignment
pub mod Balance
pub mod Coverage
pub mod Calls
pub mod Steps
pub mod Runs
pub mod Fencing
pub mod Generations
pub mod Expiry
pub mod Queries
use bolt_stream.Base.{
  ℕ, zero, suc, ◌+◌, ◌*◌, ◌/◌, ◌%◌, ◌^◌, String, Bool, true, false, ◌&&◌, ◌||◌, not, Option, none,
  some, List, [], ◌∷◌, ltb, leb, ◌==◌, if◌then◌else◌, length, is_empty, Bytes,
}
use bolt_stream.OrderedMap.{Key, find, insert, erase}
use bolt_stream.OrderedMap.Order.{bytes_eq, bytes_lt, bytes_key}
use bolt_stream.Protocol.Types.{ErrorCode, stale_member, rebalance_required}

pub record GroupKey : Type 0 where
  pub group : Bytes
  pub topic : Bytes

unfoldable pub group_key_eq : GroupKey → GroupKey → Bool
unfolding bytes_eq
group_key_eq a b = bytes_eq a.group b.group && bytes_eq a.topic b.topic

-- `operator<`
unfoldable pub group_key_lt : GroupKey → GroupKey → Bool
unfolding bytes_eq bytes_lt
group_key_lt a b =
    if not (bytes_eq a.group b.group) then bytes_lt a.group b.group else bytes_lt a.topic b.topic

instance abbrev pub group_key_order : Key GroupKey
group_key_order = record { eq = group_key_eq; lt = group_key_lt }

pub record MemberState : Type 0 where
  pub member_id : Bytes
  pub session_timeout_ms : ℕ
  pub last_heartbeat : ℕ
  pub assignment : List ℕ

abbrev pub Members : Type 0
Members = List (Bytes × MemberState)

pub record GroupState : Type 0 where
  pub group : Bytes
  pub topic : Bytes
  pub partition_count : ℕ
  pub generation_id : ℕ
  pub members : Members

pub record Coordinator : Type 0 where
  pub groups : List (GroupKey × GroupState)
  pub next_member_id : ℕ

pub record GroupResult : Type 0 where
  pub group : Bytes
  pub topic : Bytes
  pub member_id : Bytes
  pub generation_id : ℕ
  pub assignment : List ℕ
  pub expired_member_ids : List Bytes
  pub member_joined : Bool
  pub member_left : Bool
  pub generation_changed : Bool

-- A result, or a `GroupCoordinatorError`.
pub data Reply : Type 0 where
  replied : GroupResult → Reply
  refused : ErrorCode → String → Reply

-- `now - last_heartbeat >= timeout`
unfoldable pub is_expired : ℕ → MemberState → Bool
is_expired now m = leb (m.last_heartbeat + m.session_timeout_ms * 1_000_000) now

-- `expire_members`: the ids removed and the members kept, in order.
unfoldable pub expired_ids : ℕ → Members → List Bytes
expired_ids now [] = []
expired_ids now ((id, m) ∷ ms) =
    let rest = expired_ids now ms in if is_expired now m then id ∷ rest else rest

unfoldable pub live_members : ℕ → Members → Members
live_members now [] = []
live_members now ((id, m) ∷ ms) =
    let rest = live_members now ms in if is_expired now m then rest else (id, m) ∷ rest

-- `push_back(next_partition++)`, as often as `count` says: the partitions and the next one.
unfoldable pub push_partitions : ℕ → ℕ → List ℕ × ℕ
push_partitions zero next = ([], next)
push_partitions (suc count) next =
    let (rest, after) = push_partitions count ((next + 1) % 2 ^ 16) in (next ∷ rest, after)

-- The loop over the members, from `index` on.
unfoldable pub deal : ℕ → ℕ → ℕ → ℕ → Members → Members
unfolding push_partitions
deal base remainder next index [] = []
deal base remainder next index ((id, m) ∷ ms) =
    let count = base + (if ltb index remainder then 1 else 0) in
    let (assignment, after) = push_partitions count next in
    (id, record m { assignment = assignment }) ∷ deal base remainder after (index + 1) ms

unfoldable pub clear_assignments : Members → Members
clear_assignments [] = []
clear_assignments ((id, m) ∷ ms) = (id, record m { assignment = [] }) ∷ clear_assignments ms

unfoldable pub recompute_assignment : GroupState → GroupState
recompute_assignment state =
    let cleared = clear_assignments state.members in
    if is_empty state.members || state.partition_count == 0
    then record state { members = cleared }
    else record state {
      members =
          deal (state.partition_count / length state.members)
            (state.partition_count % length state.members) 0 0 cleared;
    }

unfoldable pub bump_generation : GroupState → GroupState
bump_generation state =
    recompute_assignment (record state { generation_id = (state.generation_id + 1) % 2 ^ 64 })

-- The opening of every call: expire, and start a new generation if somebody was expired.
unfoldable pub expire_state : ℕ → GroupState → GroupState
expire_state now state =
    let kept = record state { members = live_members now state.members } in
    if is_empty (expired_ids now state.members) then kept else bump_generation kept

unfoldable pub contains : List ℕ → ℕ → Bool
contains [] partition = false
contains (p ∷ ps) partition = p == partition || contains ps partition

unfoldable pub owns_partition : MemberState → ℕ → Bool
owns_partition m partition = contains m.assignment partition
