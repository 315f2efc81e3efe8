-- ===== src/Group/Steps.antt =====
-- The invariant of one group under the calls of `Group.Calls`.
use bolt_stream.Base.{
  ℕ, ◌≡◌, ◌≢◌, refl, sym, ap, ◌∙◌, Bool, ◌&&◌, not, some, [], ◌∷◌, ◌++◌, ◌==◌, is_empty, Bool-cases,
  Option-cases, inl, inr, Bytes,
}
use bolt_stream.OrderedMap.{find, insert}
use bolt_stream.OrderedMap.Order.{bytes_key, bytes_IsOrdered}
use bolt_stream.OrderedMap.Laws.{IsSorted-insert, IsSorted-erase, insert_there}
use bolt_stream.Group.{MemberState, Members, GroupState, expire_state, owns_partition}
use bolt_stream.Group.Assignment.{assigned, assigned-append}
use bolt_stream.Group.Calls.{
  update_member, admit_member, reassign_idle, join_state, keep_member, keep_alive, leave_state,
  commit_state, fresh_member,
}
use bolt_stream.Group.Coverage.{
  SortedMembers, IsCovered, recompute_assignment-IsCovered, bump_generation-IsCovered,
  expire_state-IsCovered,
}

-- A write to a member that leaves its partitions leaves the assignments of the group.
assigned-insert :
    (id : Bytes) (m m' : MemberState) (ms : Members)
    → SortedMembers ms
    → find id ms ≡ some m
    → m'.assignment ≡ m.assignment
    → assigned (insert id m' ms) ≡ assigned ms
unfolding assigned
assigned-insert id m m' ms s e same =
    let (before, after, split, written) = insert_there bytes_IsOrdered id m' ms s e in
    ap assigned written
    ∙ assigned-append before ((id, m') ∷ after)
    ∙ ap (λ l. assigned before ++ (l ++ assigned after)) same
    ∙ sym (assigned-append before ((id, m) ∷ after))
    ∙ ap assigned (sym split)

pub found-nonempty : (id : Bytes) (m : MemberState) (ms : Members) → find id ms ≡ some m → ms ≢ []
unfolding find
found-nonempty id m [] e n = cc
found-nonempty id m (x ∷ ms) e n = cc

pub update_member-IsCovered :
    (partition_count : ℕ) (id : Bytes) (f : MemberState → MemberState) (s : GroupState)
    → ((m : MemberState) → (f m).assignment ≡ m.assignment)
    → IsCovered partition_count s
    → IsCovered partition_count (update_member id f s)
unfolding update_member
update_member-IsCovered partition_count id f s same h = elim (Option-cases (find id s.members)) [
  | inl unknown ↦ rw (unknown, update_member) h
  | inr (m, known) ↦
      rw (known, update_member)
        record {
          counted = h.counted;
          small = h.small;
          sorted = IsSorted-insert bytes_IsOrdered id (f m) s.members h.sorted;
          covered = λ ne.
              assigned-insert id m (f m) s.members h.sorted known (same m)
              ∙ h.covered (found-nonempty id m s.members known);
        }
]

admit_member-IsCovered :
    (partition_count : ℕ) (id : Bytes) (s : GroupState)
    → IsCovered partition_count s
    → IsCovered partition_count (admit_member id s)
unfolding admit_member
admit_member-IsCovered partition_count id s h = elim (Option-cases (find id s.members)) [
  | inl unknown ↦
      rw (unknown, admit_member)
        (bump_generation-IsCovered partition_count _ h.counted h.small
          (IsSorted-insert bytes_IsOrdered id (fresh_member id) s.members h.sorted))
  | inr (m, known) ↦ rw (known, admit_member) h
]

reassign_idle-IsCovered :
    (partition_count : ℕ) (inserted : Bool) (id : Bytes) (s : GroupState)
    → IsCovered partition_count s
    → IsCovered partition_count (reassign_idle inserted id s)
unfolding reassign_idle
reassign_idle-IsCovered partition_count inserted id s h = elim (Option-cases (find id s.members)) [
  | inl unknown ↦ rw (unknown, reassign_idle) h
  | inr (m, known) ↦ elim (Bool-cases (not inserted && is_empty m.assignment)) [
    | inl idle ↦
        rw (known, idle, reassign_idle)
          (recompute_assignment-IsCovered partition_count s h.counted h.small h.sorted)
    | inr busy ↦ rw (known, busy, reassign_idle) h
  ]
]

pub join_state-IsCovered :
    (partition_count : ℕ) (id : Bytes) (session_timeout_ms now : ℕ) (s : GroupState)
    → IsCovered partition_count s
    → IsCovered partition_count (join_state id session_timeout_ms now s)
unfolding join_state
join_state-IsCovered partition_count id session_timeout_ms now s h =
    reassign_idle-IsCovered partition_count _ id _ (
      update_member-IsCovered partition_count id _ _ (λ m. refl)
        (admit_member-IsCovered partition_count id s h))

pub keep_alive-IsCovered :
    (partition_count : ℕ) (member_id : Bytes) (generation_id now : ℕ) (s : GroupState)
    → IsCovered partition_count s
    → IsCovered partition_count (keep_alive member_id generation_id now s).0
unfolding keep_alive keep_member
keep_alive-IsCovered partition_count member_id generation_id now s h =
    let kept = expire_state-IsCovered partition_count now s h in
    elim (Option-cases (find member_id (expire_state now s).members)) [
      | inl unknown ↦ rw (unknown, keep_alive) kept
      | inr (m, known) ↦ elim (Bool-cases (generation_id == (expire_state now s).generation_id)) [
        | inl current ↦
            rw (known, current, keep_alive)
              (update_member-IsCovered partition_count member_id _ _ (λ m. refl) kept)
        | inr old ↦ rw (known, old, keep_alive) kept
      ]
    ]

pub leave_state-IsCovered :
    (partition_count : ℕ) (member_id : Bytes) (generation_id now : ℕ) (s : GroupState)
    → IsCovered partition_count s
    → IsCovered partition_count (leave_state member_id generation_id now s).0
unfolding leave_state
leave_state-IsCovered partition_count member_id generation_id now s h =
    let kept = expire_state-IsCovered partition_count now s h in
    elim (Option-cases (find member_id (expire_state now s).members)) [
      | inl unknown ↦ rw (unknown, leave_state) kept
      | inr (m, known) ↦ elim (Bool-cases (generation_id == (expire_state now s).generation_id)) [
        | inl current ↦
            rw (known, current, leave_state)
              (bump_generation-IsCovered partition_count _ kept.counted kept.small
                (IsSorted-erase bytes_IsOrdered member_id _ kept.sorted))
        | inr old ↦ rw (known, old, leave_state) kept
      ]
    ]

pub commit_state-IsCovered :
    (partition_count : ℕ) (member_id : Bytes) (generation_id partition now : ℕ) (s : GroupState)
    → IsCovered partition_count s
    → IsCovered partition_count (commit_state member_id generation_id partition now s).0
unfolding commit_state keep_member
commit_state-IsCovered partition_count member_id generation_id partition now s h =
    let kept = expire_state-IsCovered partition_count now s h in
    elim (Option-cases (find member_id (expire_state now s).members)) [
      | inl unknown ↦ rw (unknown, commit_state) kept
      | inr (m, known) ↦ elim (Bool-cases (generation_id == (expire_state now s).generation_id)) [
        | inl current ↦ elim (Bool-cases (owns_partition m partition)) [
          | inl owner ↦
              rw (known, current, owner, commit_state)
                (update_member-IsCovered partition_count member_id _ _ (λ m. refl) kept)
          | inr other ↦ rw (known, current, other, commit_state) kept
        ]
        | inr old ↦ rw (known, old, commit_state) kept
      ]
    ]
