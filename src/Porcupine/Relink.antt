-- ===== src/Porcupine/Relink.antt =====
-- porcupine/checker.go: unlift undoes lift, and neither touches anything but links.
use m2i8t.Prelude.{
  ℕ, ◌≡◌, ◌≢◌, inl, inr, none, some, arith, Option-cases, ok, panic, Outcome-cases, eq_nat,
  eq_string,
}
use m2i8t.Porcupine.Links.{Heap, lift, unlift}

module _ {V : Type 0} where
  pub record SameFields (h h' : Heap V) : Type 0 where
    pub value : h'.value ≡ h.value
    pub match_of : h'.match_of ≡ h.match_of
    pub id : h'.id ≡ h.id
    pub fresh : h'.fresh ≡ h.fresh

  pub lift-SameFields : (n : ℕ) (h : Heap V) {h' : Heap V} → lift n h ≡ ok h' → SameFields h h'
  unfolding lift
  lift-SameFields n h e = ground arith

  pub unlift-SameFields : (n : ℕ) (h : Heap V) {h' : Heap V} → unlift n h ≡ ok h' → SameFields h h'
  unfolding unlift
  unlift-SameFields n h e = ground arith

  -- The links of an entry and of its match, in a list in which the entry comes first. They say nothing
  -- of the nodes that are not in the list, whose links still point into it.
  pub record IsLinked (h : Heap V) (entry m p n q : ℕ) : Type 0 where
    pub matched : h.match_of entry ≡ some m
    pub prev_entry : h.prev entry ≡ some p
    pub next_entry : h.next entry ≡ some n
    pub prev_match : h.prev m ≡ some q
    pub to_entry : h.next p ≡ some entry
    pub from_entry : h.prev n ≡ some entry
    pub to_match : h.next q ≡ some m
    pub from_match : (r : ℕ) → h.next m ≡ some r → h.prev r ≡ some m
    pub other : entry ≢ m
    pub not_self : p ≢ entry
    pub before : p ≢ m
    pub before_next : p ≢ n
    pub match_not_self : q ≢ m

  unfoldable pub SameLinks : Heap V → Heap V → Type 0
  SameLinks h h' = (x : ℕ) → (h'.next x ≡ h.next x) × (h'.prev x ≡ h.prev x)

  lift_no_panic : (h : Heap V) (entry m p n q : ℕ) → IsLinked h entry m p n q → lift entry h ≢ panic
  unfolding lift
  lift_no_panic h entry m p n q l e = let a = l.from_entry in ground (arith, l)

  unlift_no_panic :
      (h : Heap V) (entry m p n q : ℕ) {h' : Heap V}
      → IsLinked h entry m p n q
      → lift entry h ≡ ok h'
      → unlift entry h' ≢ panic
  unfolding lift unlift
  unlift_no_panic h entry m p n q l e e' = let a = l.from_entry in ground (arith, l)

  next_back_last :
      (h : Heap V) (entry m p n q x : ℕ) {h' h'' : Heap V}
      → IsLinked h entry m p n q
      → (h.next m ≡ none)
      → lift entry h ≡ ok h'
      → unlift entry h' ≡ ok h''
      → h''.next x ≡ h.next x
  unfolding lift unlift
  next_back_last h entry m p n q x l last e e' =
      let a = l.from_entry in let b = l.to_entry in let c = l.to_match in ground (arith, l, last)

  next_back_more :
      (h : Heap V) (entry m p n q r x : ℕ) {h' h'' : Heap V}
      → IsLinked h entry m p n q
      → h.next m ≡ some r
      → lift entry h ≡ ok h'
      → unlift entry h' ≡ ok h''
      → h''.next x ≡ h.next x
  unfolding lift unlift
  next_back_more h entry m p n q r x l more e e' =
      let a = l.from_entry in
      let b = l.to_entry in
      let c = l.to_match in let d = l.from_match r more in ground (arith, l, more)

  prev_back_last :
      (h : Heap V) (entry m p n q x : ℕ) {h' h'' : Heap V}
      → IsLinked h entry m p n q
      → (h.next m ≡ none)
      → lift entry h ≡ ok h'
      → unlift entry h' ≡ ok h''
      → h''.prev x ≡ h.prev x
  unfolding lift unlift
  prev_back_last h entry m p n q x l last e e' =
      let c = l.to_match in let a = l.from_entry in ground (arith, l, last)

  prev_back_more :
      (h : Heap V) (entry m p n q r x : ℕ) {h' h'' : Heap V}
      → IsLinked h entry m p n q
      → h.next m ≡ some r
      → lift entry h ≡ ok h'
      → unlift entry h' ≡ ok h''
      → h''.prev x ≡ h.prev x
  unfolding lift unlift
  prev_back_more h entry m p n q r x l more e e' =
      let c = l.to_match in
      let a = l.from_entry in let d = l.from_match r more in ground (arith, l, more)

  unlift-lift-SameLinks :
      (h : Heap V) (entry m p n q : ℕ) {h' h'' : Heap V}
      → IsLinked h entry m p n q
      → lift entry h ≡ ok h'
      → unlift entry h' ≡ ok h''
      → SameLinks h h''
  unfolding SameLinks
  unlift-lift-SameLinks h entry m p n q l e e' x = elim (Option-cases (h.next m)) [
    | inl last ↦
        (next_back_last h entry m p n q x l last e e', prev_back_last h entry m p n q x l last e e')
    | inr (r, more) ↦ (
      next_back_more h entry m p n q r x l more e e',
      prev_back_more h entry m p n q r x l more e e',
    )
  ]

  -- The entry and its match stand in a well-linked list, the entry first and with a node before it.
  -- Lifting the entry does not panic, nor does unlifting it next, and then every link is as it was.
  pub unlift-lift :
      (h : Heap V) (entry m p n q : ℕ)
      → IsLinked h entry m p n q
      → (h' h'' : Heap V) × (lift entry h ≡ ok h') × (unlift entry h' ≡ ok h'') × SameLinks h h''
  unlift-lift h entry m p n q l = elim (Outcome-cases (lift entry h)) [
    | inl e ↦ absurd (lift_no_panic h entry m p n q l e)
    | inr (h', e) ↦ elim (Outcome-cases (unlift entry h')) [
      | inl e' ↦ absurd (unlift_no_panic h entry m p n q l e e')
      | inr (h'', e') ↦ (h', h'', e, e', unlift-lift-SameLinks h entry m p n q l e e')
    ]
  ]
