-- ===== src/Group/Expiry.antt =====
-- The expiry that opens every call of src/broker/group_coordinator.cpp.
use bolt_stream.Base.{
  ℕ, ◌+◌, ◌*◌, ◌/◌, ◌%◌, ◌^◌, ◌<◌, ◌≤◌, ◌≡◌, ◌⊎◌, ◌∙◌, refl, subst, ◌||◌, Option, none, some, [],
  ◌∷◌, arith, leb, ◌==◌, length, is_empty, Bool-cases, inl, inr, Bytes,
}
use bolt_stream.OrderedMap.{find}
use bolt_stream.OrderedMap.Laws.{Above, Above-mono, IsSorted, IsSorted-tail, find-Above}
use bolt_stream.OrderedMap.Order.{bytes_eq, bytes_key, bytes_IsOrdered}
use bolt_stream.Group.{
  MemberState, Members, GroupState, is_expired, expired_ids, live_members, deal, clear_assignments,
  recompute_assignment, bump_generation, expire_state,
}
use bolt_stream.Group.Queries.{is_active, count_active}

Above-live_members :
    (low : Bytes) (now : ℕ) (ms : Members)
    → Above bytes_IsOrdered low ms
    → Above bytes_IsOrdered low (live_members now ms)
unfolding live_members
Above-live_members low now [] h = tt
Above-live_members low now ((id, m) ∷ ms) h = ground (
  arith,
  h,
  Above-live_members id now ms h.1,
  Above-live_members low now ms (Above-mono bytes_IsOrdered low id ms h.0 h.1),
)

-- A member by its id keeps its heartbeat and timeout, or there is none.
abbrev SameTimes : Option MemberState → Option MemberState → Type 0
SameTimes none n = n ≡ none
SameTimes (some m) n =
    (m' : MemberState) × (n ≡ some m')
    × (m'.last_heartbeat ≡ m.last_heartbeat)
    × (m'.session_timeout_ms ≡ m.session_timeout_ms)

SameTimes-trans : (a b c : Option MemberState) → SameTimes a b → SameTimes b c → SameTimes a c
SameTimes-trans none b c h g = subst (λ b. SameTimes b c) h g
SameTimes-trans (some m) b c (m', e, beat, timeout) g =
    let (m'', f, beat', timeout') = subst (λ b. SameTimes b c) e g in
    (m'', f, beat' ∙ beat, timeout' ∙ timeout)

SameTimes-refl : (o : Option MemberState) → SameTimes o o
SameTimes-refl none = refl
SameTimes-refl (some m) = (m, refl, refl, refl)

find-clear_assignments :
    (id : Bytes) (ms : Members) → SameTimes (find id ms) (find id (clear_assignments ms))
unfolding clear_assignments find
find-clear_assignments id [] = refl
find-clear_assignments id ((j, m) ∷ ms) = elim (Bool-cases (bytes_eq j id)) [
  | inl same ↦ rw same (record m { assignment = [] }, refl, refl, refl)
  | inr other ↦ rw other (find-clear_assignments id ms)
]

find-deal :
    (id : Bytes) (ms : Members) (base remainder next index : ℕ)
    → SameTimes (find id ms) (find id (deal base remainder next index ms))
unfolding deal find
find-deal id [] base remainder next index = refl
find-deal id ((j, m) ∷ ms) base remainder next index = elim (Bool-cases (bytes_eq j id)) [
  | inl same ↦ rw same (_, refl, refl, refl)
  | inr other ↦ rw other (find-deal id ms base remainder _ (index + 1))
]

find-recompute_assignment :
    (id : Bytes) (s : GroupState)
    → SameTimes (find id s.members) (find id (recompute_assignment s).members)
unfolding recompute_assignment
find-recompute_assignment id s = elim (Bool-cases (is_empty s.members || s.partition_count == 0)) [
  | inl none_dealt ↦ rw none_dealt (find-clear_assignments id s.members)
  | inr some_dealt ↦ rw some_dealt (
      SameTimes-trans _ _ _ (find-clear_assignments id s.members)
        (find-deal id (clear_assignments s.members) _ _ 0 0))
]

find-expire_state :
    (now : ℕ) (id : Bytes) (s : GroupState)
    → SameTimes (find id (live_members now s.members)) (find id (expire_state now s).members)
unfolding expire_state bump_generation
find-expire_state now id s = elim (Bool-cases (is_empty (expired_ids now s.members))) [
  | inl nobody ↦ rw nobody (SameTimes-refl (find id (live_members now s.members)))
  | inr somebody ↦ rw somebody (
      find-recompute_assignment id (record s {
        members = live_members now s.members;
        generation_id = (s.generation_id + 1) % 2 ^ 64;
      }))
]

-- A member is found with its heartbeat and timeout while the timeout lasts, and not from its end on.
abbrev pub IsKept : ℕ → MemberState → Option MemberState → Type 0
IsKept now m found =
    ((now < m.last_heartbeat + m.session_timeout_ms * 1_000_000) × SameTimes (some m) found)
    ⊎ ((m.last_heartbeat + m.session_timeout_ms * 1_000_000 ≤ now) × (found ≡ none))

find-live_members :
    (now : ℕ) (id : Bytes) (m : MemberState) (ms : Members)
    → IsSorted bytes_IsOrdered ms
    → find id ms ≡ some m
    → IsKept now m (find id (live_members now ms))
unfolding live_members find is_expired
find-live_members now id m [] sorted e = cc e
find-live_members now id m ((j, x) ∷ ms) sorted e =
    let until : ℕ = x.last_heartbeat + x.session_timeout_ms * 1_000_000 in
    elim (Bool-cases (bytes_eq j id)) [
      | inr other ↦
          let rest =
            find-live_members now id m ms (IsSorted-tail bytes_IsOrdered j x ms sorted)
              (rw other at e) in
          elim (Bool-cases (leb until now)) [
            | inl gone ↦ rw gone rest
            | inr stays ↦ rw (stays, other) rest
          ]
      | inl same ↦
          let here : x ≡ m = cc (rw same at e) in
          let key : j ≡ id = (bytes_IsOrdered.eq_iff j id).0 same in
          rw⁻¹ here (elim (Bool-cases (leb until now)) [
            | inl gone ↦
                let above = subst (λ k. Above bytes_IsOrdered k ms) key sorted in
                inr (
                  ground (arith, gone),
                  rw gone (
                      find-Above bytes_IsOrdered id (live_members now ms)
                        (Above-live_members id now ms above)),
                )
            | inr stays ↦ inl (ground (arith, stays), rw (stays, same) (x, refl, refl, refl))
          ])
    ]

-- After the expiry that opens a call, a member that was in the group is found with its heartbeat and its
-- timeout if fewer nanoseconds have passed since the heartbeat than its timeout has, a millisecond being
-- 1,000,000 of them, and is not found from then on. The members are in the order of their ids.
pub expire_state-live :
    (now : ℕ) (id : Bytes) (m : MemberState) (s : GroupState)
    → IsSorted bytes_IsOrdered s.members
    → find id s.members ≡ some m
    → IsKept now m (find id (expire_state now s).members)
expire_state-live now id m s sorted e =
    let dealt = find-expire_state now id s in
    elim (find-live_members now id m s.members sorted e) [
      | inl (young, kept) ↦ inl (
        young,
        SameTimes-trans (some m) (find id (live_members now s.members))
            (find id (expire_state now s).members) kept dealt,
      )
      | inr (old, gone) ↦
          inr (old, subst (λ o. SameTimes o (find id (expire_state now s).members)) gone dealt)
    ]

length-live_members : (now : ℕ) (ms : Members) → length (live_members now ms) ≡ count_active now ms
unfolding live_members count_active is_expired is_active
length-live_members now [] = refl
length-live_members now ((id, m) ∷ ms) = ground (arith, length-live_members now ms)

length-clear_assignments : (ms : Members) → length (clear_assignments ms) ≡ length ms
unfolding clear_assignments
length-clear_assignments [] = refl
length-clear_assignments ((id, m) ∷ ms) = omega (arith, length-clear_assignments ms)

length-deal :
    (ms : Members) (base remainder next index : ℕ)
    → length (deal base remainder next index ms) ≡ length ms
unfolding deal
length-deal [] base remainder next index = refl
length-deal ((id, m) ∷ ms) base remainder next index =
    omega (arith, length-deal ms base remainder _ (index + 1))

length-recompute_assignment :
    (s : GroupState) → length (recompute_assignment s).members ≡ length s.members
unfolding recompute_assignment
length-recompute_assignment s = ground (
  arith,
  length-clear_assignments s.members,
  length-deal (clear_assignments s.members) (s.partition_count / length s.members)
      (s.partition_count % length s.members) 0 0,
)

-- The count of active members in a snapshot, which removes nobody, is the number of members that the
-- expiry of a call at the same time would keep.
pub count_active-expire_state :
    (now : ℕ) (s : GroupState) → count_active now s.members ≡ length (expire_state now s).members
unfolding expire_state bump_generation
count_active-expire_state now s = ground (
  arith,
  length-live_members now s.members,
  length-recompute_assignment (record s {
    members = live_members now s.members;
    generation_id = (s.generation_id + 1) % 2 ^ 64;
  }),
)
