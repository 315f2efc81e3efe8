-- ===== src/Group/Generations.antt =====
-- The generation of a group under the calls of src/broker/group_coordinator.cpp, and the commits of one
-- that is over.
use bolt_stream.Base.{
  ℕ, ◌+◌, ◌%◌, ◌^◌, ◌<◌, ◌≡◌, ◌≢◌, sym, ap, ◌∙◌, Bool, ◌&&◌, not, none, arith, ◌==◌, if◌then◌else◌,
  is_empty, ==_iff, Bool-cases, Option-cases, inl, inr, Bytes, String,
}
use bolt_stream.OrderedMap.{find}
use bolt_stream.OrderedMap.Order.{bytes_key}
use bolt_stream.Protocol.Types.{stale_member}
use bolt_stream.Group.{
  group_key_order, MemberState, GroupState, GroupResult, replied, refused, expired_ids,
  recompute_assignment, bump_generation, expire_state,
}
use bolt_stream.Group.Calls.{
  update_member, admit_member, reassign_idle, join_state, leave_state, commit_state,
}

generation-recompute_assignment :
    (s : GroupState) → (recompute_assignment s).generation_id ≡ s.generation_id
unfolding recompute_assignment
generation-recompute_assignment s = ground arith

generation-bump_generation :
    (s : GroupState) → (bump_generation s).generation_id ≡ (s.generation_id + 1) % 2 ^ 64
unfolding bump_generation
generation-bump_generation s = generation-recompute_assignment _

generation-expire_state :
    (now : ℕ) (s : GroupState)
    → (expire_state now s).generation_id ≡ (
        if is_empty (expired_ids now s.members)
        then s.generation_id
        else (s.generation_id + 1) % 2 ^ 64)
unfolding expire_state
generation-expire_state now s = elim (Bool-cases (is_empty (expired_ids now s.members))) [
  | inl nobody ↦ rw nobody
  | inr somebody ↦ rw somebody (generation-bump_generation _)
]

generation-update_member :
    (id : Bytes) (f : MemberState → MemberState) (s : GroupState)
    → (update_member id f s).generation_id ≡ s.generation_id
unfolding update_member
generation-update_member id f s = elim (Option-cases (find id s.members)) [
  | inl unknown ↦ rw (unknown, update_member)
  | inr (m, known) ↦ rw (known, update_member)
]

generation-reassign_idle :
    (inserted : Bool) (id : Bytes) (s : GroupState)
    → (reassign_idle inserted id s).generation_id ≡ s.generation_id
unfolding reassign_idle
generation-reassign_idle inserted id s = elim (Option-cases (find id s.members)) [
  | inl unknown ↦ rw (unknown, reassign_idle)
  | inr (m, known) ↦ elim (Bool-cases (not inserted && is_empty m.assignment)) [
    | inl idle ↦ rw (known, idle, reassign_idle) (generation-recompute_assignment s)
    | inr busy ↦ rw (known, busy, reassign_idle)
  ]
]

generation-join_state :
    (id : Bytes) (session_timeout_ms now : ℕ) (s : GroupState)
    → find id s.members ≡ none
    → (join_state id session_timeout_ms now s).generation_id ≡ (s.generation_id + 1) % 2 ^ 64
unfolding join_state admit_member
generation-join_state id session_timeout_ms now s unknown =
    generation-reassign_idle _ id _
    ∙ generation-update_member id _ (admit_member id s)
    ∙ rw (unknown, admit_member) (generation-bump_generation _)

-- A commit of another generation is refused, by either of two errors.
pub commit_state-stale :
    (member_id : Bytes) (generation_id partition now : ℕ) (s : GroupState)
    → generation_id ≢ (expire_state now s).generation_id
    → (text : String) × ((commit_state member_id generation_id partition now s).1
        ≡ refused stale_member text)
unfolding commit_state
commit_state-stale member_id generation_id partition now s different =
    elim (Option-cases (find member_id (expire_state now s).members)) [
      | inl unknown ↦ ("group member is stale", rw (unknown, commit_state))
      | inr (m, known) ↦ elim (Bool-cases (generation_id == (expire_state now s).generation_id)) [
        | inl current ↦ absurd (different ((==_iff _ _).0 current))
        | inr old ↦ ("group generation is stale for commit", rw (known, old, commit_state))
      ]
    ]

next_generation-stale :
    (member_id : Bytes) (generation_id partition now : ℕ) (s : GroupState)
    → s.generation_id ≡ (generation_id + 1) % 2 ^ 64
    → generation_id < 2 ^ 64
    → (text : String) × ((commit_state member_id generation_id partition now s).1
        ≡ refused stale_member text)
next_generation-stale member_id generation_id partition now s next small =
    commit_state-stale member_id generation_id partition now s
      (λ e. ground (arith, e, next, generation-expire_state now s))

-- When a member that was not there joins a group with a generation below 2^64, a commit of the
-- generation before it, by any member and at any time, is refused as stale, also if members expire then.
pub join_state-fences :
    (id member_id : Bytes) (session_timeout_ms now partition later : ℕ) (s : GroupState)
    → find id s.members ≡ none
    → s.generation_id < 2 ^ 64
    → (text : String) × ((commit_state member_id s.generation_id partition later
          (join_state id session_timeout_ms now s)).1
        ≡ refused stale_member text)
join_state-fences id member_id session_timeout_ms now partition later s unknown small =
    next_generation-stale member_id s.generation_id partition later _
      (generation-join_state id session_timeout_ms now s unknown) small

-- When `leave_state` has replied, for a generation below 2^64, a commit of the generation that it was
-- called with, by any member and at any time, is refused as stale, also if members expire then.
pub leave_state-fences :
    (id member_id : Bytes) (generation_id now partition later : ℕ) (s : GroupState)
    (r : GroupResult)
    → generation_id < 2 ^ 64
    → (leave_state id generation_id now s).1 ≡ replied r
    → (text : String) × ((commit_state member_id generation_id partition later
          (leave_state id generation_id now s).0).1
        ≡ refused stale_member text)
unfolding leave_state
leave_state-fences id member_id generation_id now partition later s r small e =
    elim (Option-cases (find id (expire_state now s).members)) [
      | inl unknown ↦ cc (rw (unknown, leave_state) at e)
      | inr (m, known) ↦ elim (Bool-cases (generation_id == (expire_state now s).generation_id)) [
        | inl current ↦
            rw (known, current, leave_state)
              (next_generation-stale member_id generation_id partition later _
                (generation-bump_generation _
                  ∙ ap (λ n. (n + 1) % 2 ^ 64) (sym ((==_iff _ _).0 current)))
                small)
        | inr old ↦ cc (rw (known, old, leave_state) at e)
      ]
    ]
