-- ===== src/Group/Fencing.antt =====
-- Which commits `validate_commit` of src/broker/group_coordinator.cpp accepts.
use bolt_stream.Base.{
  ℕ, ◌≤◌, ◌≡◌, sym, subst, ◌∙◌, true, some, List, [], ◌∷◌, arith, ◌==◌, ==_iff, Bool-cases,
  Option-cases, inl, inr, Bytes,
}
use bolt_stream.OrderedMap.{find}
use bolt_stream.OrderedMap.Order.{bytes_eq, bytes_key, bytes_IsOrdered}
use bolt_stream.Group.{
  GroupKey, group_key_order, MemberState, Members, GroupState, Coordinator, GroupResult, replied,
  expire_state, owns_partition,
}
use bolt_stream.Group.Assignment.{owners, owners-count_up}
use bolt_stream.Group.Calls.{commit_state, on_group, validate_commit}
use bolt_stream.Group.Coverage.{expire_state-IsCovered}
use bolt_stream.Group.Steps.{found-nonempty}
use bolt_stream.Group.Runs.{Call, CallsFit, run_calls, new_coordinator, run_calls-IsCovered}

-- The member and what `validate_commit` has checked of it.
pub record MayCommit (member_id : Bytes) (generation_id partition : ℕ) (kept : GroupState)
    : Type 0 where
  pub member : MemberState
  pub known : find member_id kept.members ≡ some member
  pub current : generation_id ≡ kept.generation_id
  pub owner : owns_partition member partition ≡ true

commit_state-MayCommit :
    (member_id : Bytes) (generation_id partition now : ℕ) (s : GroupState) (r : GroupResult)
    → (commit_state member_id generation_id partition now s).1 ≡ replied r
    → MayCommit member_id generation_id partition (expire_state now s)
unfolding commit_state
commit_state-MayCommit member_id generation_id partition now s r e =
    elim (Option-cases (find member_id (expire_state now s).members)) [
      | inl unknown ↦ cc (rw (unknown, commit_state) at e)
      | inr (m, known) ↦ elim (Bool-cases (generation_id == (expire_state now s).generation_id)) [
        | inl current ↦ elim (Bool-cases (owns_partition m partition)) [
          | inl owner ↦ record {
            member = m;
            known = known;
            current = (==_iff _ _).0 current;
            owner = owner;
          }
          | inr other ↦ cc (rw (known, current, other, commit_state) at e)
        ]
        | inr old ↦ cc (rw (known, old, commit_state) at e)
      ]
    ]

-- Two owners of a partition are counted twice.
owner-counted :
    (id : Bytes) (m : MemberState) (partition : ℕ) (ms : Members)
    → find id ms ≡ some m
    → owns_partition m partition ≡ true
    → 1 ≤ owners partition ms
unfolding find owners
owner-counted id m partition [] e o = cc
owner-counted id m partition ((j, x) ∷ ms) e o = elim (Bool-cases (bytes_eq j id)) [
  | inl same ↦ let here : x ≡ m = cc (rw same at e) in rw (here, o) (omega arith)
  | inr other ↦
      let deeper = owner-counted id m partition ms (rw other at e) o in omega (arith, deeper)
]

pub owner_unique :
    (a b : Bytes) (m n : MemberState) (partition : ℕ) (ms : Members)
    → owners partition ms ≤ 1
    → find a ms ≡ some m
    → find b ms ≡ some n
    → owns_partition m partition ≡ true
    → owns_partition n partition ≡ true
    → a ≡ b
unfolding find owners
owner_unique a b m n partition [] h e f o p = cc
owner_unique a b m n partition ((j, x) ∷ ms) h e f o p = elim (Bool-cases (bytes_eq j a)) [
  | inl first ↦ elim (Bool-cases (bytes_eq j b)) [
    | inl also ↦ sym ((bytes_IsOrdered.eq_iff j a).0 first) ∙ (bytes_IsOrdered.eq_iff j b).0 also
    | inr other ↦
        let here : x ≡ m = cc (rw first at e) in
        let deeper = owner-counted b n partition ms (rw other at f) p in
        absurd (ground (arith, rw (here, o) at h, deeper))
  ]
  | inr later ↦ elim (Bool-cases (bytes_eq j b)) [
    | inl also ↦
        let here : x ≡ n = cc (rw also at f) in
        let deeper = owner-counted a m partition ms (rw later at e) o in
        absurd (ground (arith, rw (here, p) at h, deeper))
    | inr other ↦
        owner_unique a b m n partition ms (omega arith) (rw later at e) (rw other at f) o p
  ]
]

-- An accepted commit is one of a known group.
validate_commit-MayCommit :
    (c : Coordinator) (group topic member_id : Bytes) (generation_id partition now : ℕ)
    (r : GroupResult)
    → (validate_commit c group topic member_id generation_id partition now).1 ≡ replied r
    → (s : GroupState) × (find (record { group = group; topic = topic }) c.groups ≡ some s)
      × MayCommit member_id generation_id partition (expire_state now s)
unfolding validate_commit on_group
validate_commit-MayCommit c group topic member_id generation_id partition now r e =
    let key : GroupKey = record { group = group; topic = topic } in
    elim (Option-cases (find key c.groups)) [
      | inl unknown ↦ cc (rw (unknown, validate_commit, on_group) at e)
      | inr (s, there) ↦ (
        s,
        there,
        commit_state-MayCommit member_id generation_id partition now s r
            (rw (there, validate_commit, on_group) at e),
      )
    ]

-- After any run of calls on a new coordinator in which each `join` names the partition count of its
-- topic, one below 2^16: if commits of two members to the same partition of a topic are both accepted
-- at the same time in the same state, the members are the same.
pub validate_commit-one_owner :
    (partitions : Bytes → ℕ) (calls : List Call) (group topic a b : Bytes)
    (generation generation' partition now : ℕ) (r r' : GroupResult)
    → CallsFit partitions calls
    → (validate_commit (run_calls new_coordinator calls) group topic a generation partition now).1
      ≡ replied r
    → (validate_commit (run_calls new_coordinator calls) group topic b generation' partition now).1
      ≡ replied r'
    → a ≡ b
validate_commit-one_owner partitions calls group topic a b generation generation' partition now r r'
      f e e' =
    let (s, there, first) =
      validate_commit-MayCommit _ group topic a generation partition now r e in
    let (t, there', second) =
      validate_commit-MayCommit _ group topic b generation' partition now r' e' in
    let same : t ≡ s = cc (there, there') in
    let covered =
      expire_state-IsCovered (partitions topic) now s
        (run_calls-IsCovered partitions calls _ s f there) in
    let counted =
      owners-count_up partition (partitions topic) (expire_state now s).members
        (covered.covered (found-nonempty a first.member _ first.known)) in
    owner_unique a b first.member second.member partition (expire_state now s).members
      (ground (arith, counted)) first.known
      (subst (λ x. find b (expire_state now x).members ≡ some second.member) same second.known)
      first.owner second.owner
