-- ===== src/Queue/Fifo.antt =====
-- The order in which the queue of crates/hom-brain/src/ipc/router.rs serves the jobs of one class.
use mathlib.Core.List.{append-nil, append_assoc}
use hom_local.Prelude.{
  ℕ, ◌≡◌, refl, ap, sym, inl, inr, true, List, [], ◌∷◌, ◌++◌, Option, none, some, if◌then◌else◌,
  Bool-cases,
}
use hom_local.Queue.{
  Priority, hi, md, lo, PushResult, pushed, full, WeightedQueue, items_for, set_items, push, pop,
  is_full,
}
use hom_local.Prelude.{All, All-append, All-append_right}
use hom_local.Queue.Serve.{pop-cases}
use hom_local.Queue.Run.{Op, put, take, same_class, of_class, note_put, note_take, run}

abbrev only {ℓ} : {A : Type ℓ} → Priority → A → Priority → List A
only c x p = if same_class c p then x ∷ [] else []

pub same_class→eq : (c p : Priority) → same_class c p ≡ true → c ≡ p
same_class→eq hi hi h = refl
same_class→eq md md h = refl
same_class→eq lo lo h = refl
same_class→eq _ _ h = cc

module _ {A : Type 0} where
  items_for-set_items_end :
      (c p : Priority) (x : A) (q : WeightedQueue A)
      → items_for p (set_items c (items_for c q ++ x ∷ []) q) ≡ items_for p q ++ only c x p
  items_for-set_items_end hi hi x q = refl
  items_for-set_items_end md md x q = refl
  items_for-set_items_end lo lo x q = refl
  items_for-set_items_end _ _ x q = rw append-nil

  items_for-set_items_tail :
      (c p : Priority) {x : A} {l : List A} (q : WeightedQueue A) (n : ℕ)
      → items_for c q ≡ x ∷ l
      → items_for p q ≡ only c x p ++ items_for p (set_items c l (record q { cursor = n }))
  items_for-set_items_tail hi hi q n h = h
  items_for-set_items_tail md md q n h = h
  items_for-set_items_tail lo lo q n h = h
  items_for-set_items_tail _ _ q n h = refl

module _ {A : Type 0} (class_of : A → Priority) where
  -- Every item waits in the class that its request determines.
  pub record IsTagged (q : WeightedQueue A) : Type 0 where
    pub tagged : (p : Priority) → All (λ x. class_of x ≡ p) (items_for p q)

  -- Putting a job adds it to the end of its own class, if it is accepted at all.
  pub push-items :
      (x : A) (q : WeightedQueue A) (p : Priority)
      → let (q', r) = push (class_of x) x q in
        items_for p q' ≡ items_for p q ++ of_class class_of p (note_put x r [])
  unfolding push
  push-items x q p = elim (Bool-cases (is_full q (class_of x))) [
    | inl e ↦ rw e (sym (append-nil (items_for p q)))
    | inr e ↦ rw e (items_for-set_items_end (class_of x) p x q)
  ]

  -- Taking a job takes the first of its own class.
  pub pop-items :
      (q : WeightedQueue A) (p : Priority)
      → IsTagged q
      → let (q', r) = pop q in
        items_for p q ≡ of_class class_of p (note_take r []) ++ items_for p q'
  pop-items q p t = elim (pop-cases q) [
    | inl (_, e) ↦ rw e refl
    | inr s ↦
        let h : class_of s.item ≡ s.class = (rw s.head at (t.tagged s.class)).0 in
        rw s.result (rw h (items_for-set_items_tail s.class p q _ s.head))
  ]

  of_class-note_put :
      (p : Priority) (x : A) (r : PushResult) (l : List A)
      → of_class class_of p (note_put x r l)
        ≡ of_class class_of p (note_put x r []) ++ of_class class_of p l
  of_class-note_put p x pushed l = elim (Bool-cases (same_class (class_of x) p)) [
    | inl e ↦ rw e refl
    | inr e ↦ rw e refl
  ]
  of_class-note_put p x (full f) l = refl

  pub of_class-note_take :
      (p : Priority) (r : Option A) (l : List A)
      → of_class class_of p (note_take r l)
        ≡ of_class class_of p (note_take r []) ++ of_class class_of p l
  of_class-note_take p none l = refl
  of_class-note_take p (some x) l = elim (Bool-cases (same_class (class_of x) p)) [
    | inl e ↦ rw e refl
    | inr e ↦ rw e refl
  ]

  All-only :
      (x : A) (c : Priority) (h : class_of x ≡ c) (p : Priority)
      → All (λ y. class_of y ≡ p) (only c x p)
  All-only x hi h hi = (h, tt)
  All-only x md h md = (h, tt)
  All-only x lo h lo = (h, tt)
  All-only x _ h _ = tt

  All-of_class : (l : List A) (p : Priority) → All (λ y. class_of y ≡ p) (of_class class_of p l)
  All-of_class [] p = tt
  All-of_class (x ∷ l) p = elim (Bool-cases (same_class (class_of x) p)) [
    | inl e ↦ rw e (same_class→eq _ p e, All-of_class l p)
    | inr e ↦ rw e (All-of_class l p)
  ]

  pub push-IsTagged :
      (x : A) (q : WeightedQueue A) → IsTagged q → IsTagged (push (class_of x) x q).0
  push-IsTagged x q t = record {
    tagged = λ p. rw (push-items x q p) (All-append _ _ _ (t.tagged p) (All-of_class _ p));
  }

  pub pop-IsTagged : (q : WeightedQueue A) → IsTagged q → IsTagged (pop q).0
  pop-IsTagged q t = record {
    tagged = λ p.
        All-append_right _ (of_class class_of p (note_take (pop q).1 [])) _
          (rw (pop-items q p t) at (t.tagged p));
  }

  -- Whatever the calls, in each class the jobs that waited at the start and those accepted since
  -- are, in that order, the jobs served and then those that still wait.
  pub run_fifo :
      (ops : List (Op A)) (q : WeightedQueue A) (p : Priority)
      → IsTagged q
      → let o = run class_of ops q in
        items_for p q ++ of_class class_of p o.accepted
        ≡ of_class class_of p o.served ++ items_for p o.queue
  unfolding run
  run_fifo [] q p t = append-nil (items_for p q)
  run_fifo (put x ∷ ops) q p t =
      let q' = (push (class_of x) x q).0 in
      let r = (push (class_of x) x q).1 in
      let ih = run_fifo ops q' p (push-IsTagged x q t) in
      rw (of_class-note_put p x r (run class_of ops q').accepted)
        (rw (← append_assoc) (rw (← push-items x q p) ih))
  run_fifo (take ∷ ops) q p t =
      let q' = (pop q).0 in
      let r = (pop q).1 in
      let ih = run_fifo ops q' p (pop-IsTagged q t) in
      rw (of_class-note_take p r (run class_of ops q').served) (
        rw (pop-items q p t) (
          rw (append_assoc, append_assoc) (ap (λ l. of_class class_of p (note_take r []) ++ l) ih)))
