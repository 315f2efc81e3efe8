-- ===== src/OrderedMap/Laws.antt =====
-- Lookups after a write or a removal, and the order of the entries, for any strict total order.
use bolt_stream.Base.{
  ◌≡◌, ◌∙◌, refl, ap, subst, ◌++◌, true, false, none, some, List, [], ◌∷◌, arith, inl, inr,
  if◌then◌else◌, Bool-cases,
}
use bolt_stream.OrderedMap.{Key, find, insert, erase}
use bolt_stream.OrderedMap.Order.{IsOrdered}

module _ {ℓ κ} {K : Type ℓ} ⦃k : Key K⦄ {V : Type κ} (o : IsOrdered k) where
  pub find-insert :
      (key other : K) (v : V) (m : List (K × V))
      → find other (insert key v m) ≡ (if k.eq key other then some v else find other m)
  unfolding find insert
  find-insert key other v [] = refl
  find-insert key other v ((j, w) ∷ m) =
      ground
        (arith, o.eq_iff j key, o.eq_iff j other, o.eq_iff key other, find-insert key other v m)

  -- The keys rise strictly, from above a given one.
  abbrev pub Above : K → List (K × V) → Type ℓ
  Above low [] = Unit {ℓ}
  Above low ((key, v) ∷ m) = (k.lt low key ≡ true) × Above key m

  abbrev pub IsSorted : List (K × V) → Type ℓ
  IsSorted [] = Unit {ℓ}
  IsSorted ((key, v) ∷ m) = Above key m

  pub Above-mono :
      (low key : K) (m : List (K × V)) → k.lt low key ≡ true → Above key m → Above low m
  Above-mono low key [] h s = tt
  Above-mono low key ((j, w) ∷ m) h s = (o.lt_trans low key j h s.0, s.1)

  -- Below the first key there is nothing.
  pub find-Above : (key : K) (m : List (K × V)) → Above key m → find key m ≡ none
  unfolding find
  find-Above key [] s = refl
  find-Above key ((j, w) ∷ m) s =
      let rest = find-Above key m (Above-mono key j m s.0 s.1) in
      elim (Bool-cases (k.eq j key)) [
        | inl same ↦
            let e : j ≡ key = (o.eq_iff j key).0 same in
            let below : k.lt key key ≡ true = subst (λ x. k.lt key x ≡ true) e s.0 in
            cc (below, o.lt_irrefl key)
        | inr other ↦ rw other rest
      ]

  pub Above-insert :
      (low key : K) (v : V) (m : List (K × V))
      → k.lt low key ≡ true
      → Above low m
      → Above low (insert key v m)
  unfolding insert
  Above-insert low key v [] h s = (h, tt)
  Above-insert low key v ((j, w) ∷ m) h s = elim (Bool-cases (k.eq j key)) [
    | inl same ↦ rw same (h, subst (λ x. Above x m) ((o.eq_iff j key).0 same) (s.1))
    | inr other ↦ elim (Bool-cases (k.lt key j)) [
      | inl less ↦ rw (other, less) (h, (less, s.1))
      | inr more ↦
          rw (other, more) (s.0, Above-insert j key v m (o.lt_total j key other more) (s.1))
    ]
  ]

  pub IsSorted-insert :
      (key : K) (v : V) (m : List (K × V)) → IsSorted m → IsSorted (insert key v m)
  unfolding insert
  IsSorted-insert key v [] s = tt
  IsSorted-insert key v ((j, w) ∷ m) s = elim (Bool-cases (k.eq j key)) [
    | inl same ↦ rw same (subst (λ x. Above x m) ((o.eq_iff j key).0 same) s)
    | inr other ↦ elim (Bool-cases (k.lt key j)) [
      | inl less ↦ rw (other, less) (less, s)
      | inr more ↦ rw (other, more) (Above-insert j key v m (o.lt_total j key other more) s)
    ]
  ]

  pub Above-erase : (low key : K) (m : List (K × V)) → Above low m → Above low (erase key m)
  unfolding erase
  Above-erase low key [] s = tt
  Above-erase low key ((j, w) ∷ m) s = elim (Bool-cases (k.eq j key)) [
    | inl same ↦ rw same (Above-mono low j m s.0 s.1)
    | inr other ↦ rw other (s.0, Above-erase j key m s.1)
  ]

  pub IsSorted-tail : (key : K) (v : V) (m : List (K × V)) → Above key m → IsSorted m
  IsSorted-tail key v [] s = tt
  IsSorted-tail key v ((j, w) ∷ m) s = s.1

  pub IsSorted-erase : (key : K) (m : List (K × V)) → IsSorted m → IsSorted (erase key m)
  unfolding erase
  IsSorted-erase key [] s = tt
  IsSorted-erase key ((j, w) ∷ m) s = elim (Bool-cases (k.eq j key)) [
    | inl same ↦ rw same (IsSorted-tail j w m s)
    | inr other ↦ rw other (Above-erase j key m s)
  ]

  pub find-erase :
      (key other : K) (m : List (K × V))
      → IsSorted m
      → find other (erase key m) ≡ (if k.eq key other then none else find other m)
  unfolding find erase
  find-erase key other [] s = ground arith
  find-erase key other ((j, w) ∷ m) s = elim (Bool-cases (k.eq j key)) [
    | inl same ↦
        let e : j ≡ key = (o.eq_iff j key).0 same in
        elim (Bool-cases (k.eq key other)) [
          | inl asked ↦
              let f : key ≡ other = (o.eq_iff key other).0 asked in
              rw (same, asked) (find-Above other m (subst (λ x. Above x m) (e ∙ f) s))
          | inr else_asked ↦ rw (same, else_asked, e, else_asked)
        ]
    | inr differs ↦ ground (
      arith,
      differs,
      o.eq_iff j key,
      o.eq_iff j other,
      o.eq_iff key other,
      find-erase key other m (IsSorted-tail j w m s),
    )
  ]

  pub find-erase_other :
      (key other : K) (m : List (K × V))
      → k.eq key other ≡ false
      → find other (erase key m) ≡ find other m
  unfolding find erase
  find-erase_other key other [] h = refl
  find-erase_other key other ((j, w) ∷ m) h = ground (
    arith,
    h,
    o.eq_iff j key,
    o.eq_iff j other,
    o.eq_iff key other,
    find-erase_other key other m h,
  )

  -- A key that is there is not passed by a smaller one.
  not_below :
      (key j : K) (m : List (K × V)) {old : V}
      → Above j m
      → find key m ≡ some old
      → k.lt key j ≡ false
  not_below key j m s e = elim (Bool-cases (k.lt key j)) [
    | inl less ↦ cc (e, find-Above key m (Above-mono key j m less s))
    | inr more ↦ more
  ]

  -- Where the key is, and what a write to it replaces.
  abbrev pub Holds : K → V → V → List (K × V) → Type (ℓ ⊔ κ)
  Holds key old v m =
      (before : List (K × V)) × (after : List (K × V)) × (m ≡ before ++ (key, old) ∷ after)
      × (insert key v m ≡ before ++ (key, v) ∷ after)

  -- A write to a key that is there replaces its entry and no other.
  pub insert_there :
      (key : K) (v : V) (m : List (K × V)) {old : V}
      → IsSorted m
      → find key m ≡ some old
      → Holds key old v m
  unfolding find insert
  insert_there key v [] s e = cc
  insert_there key v ((j, w) ∷ m) {old} s e = elim (Bool-cases (k.eq j key)) [
    | inl same ↦
        let here : j ≡ key = (o.eq_iff j key).0 same in
        let value : w ≡ old = cc (rw same at e) in ([], m, cc (here, value), rw same)
    | inr other ↦
        let deeper : find key m ≡ some old = rw other at e in
        let (before, after, split, written) = insert_there key v m (IsSorted-tail j w m s) deeper in
        (
          (j, w) ∷ before,
          after,
          ap (λ l. (j, w) ∷ l) split,
          rw (other, not_below key j m s deeper) (ap (λ l. (j, w) ∷ l) written),
        )
  ]
