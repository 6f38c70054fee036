-- ===== src/Queue/Capacity.antt =====
-- The bounds of the queue of crates/hom-brain/src/ipc/router.rs, and the count of its jobs.
use hom_local.Prelude.{
  ℕ, ◌+◌, ◌≤◌, ◌≡◌, inl, inr, List, [], ◌∷◌, ◌++◌, Option, none, some, arith, Bool-cases, length,
  length-append, ap,
}
use hom_local.Queue.{
  Priority, hi, md, lo, PushResult, pushed, full, WeightedQueue, items_for, set_items, push, pop,
  is_full, len_for, total_len,
}
use hom_local.Queue.Serve.{pop-cases}
use hom_local.Queue.Run.{Op, put, take, note_put, note_take, run}

module _ {A : Type 0} where
  -- No class holds more than its capacity.
  pub record IsWithinCaps (q : WeightedQueue A) : Type 0 where
    pub hi_within : length q.hi_items ≤ q.caps.hi_cap
    pub md_within : length q.md_items ≤ q.caps.md_cap
    pub lo_within : length q.lo_items ≤ q.caps.lo_cap

  pub total_len-set_items :
      (c : Priority) (l : List A) (q : WeightedQueue A)
      → total_len (set_items c l q) + len_for q c ≡ total_len q + length l
  total_len-set_items hi l q = omega arith
  total_len-set_items md l q = omega arith
  total_len-set_items lo l q = omega arith

  push_at-IsWithinCaps :
      (c : Priority) (x : A) (q : WeightedQueue A) → IsWithinCaps q → IsWithinCaps (push c x q).0
  unfolding push
  push_at-IsWithinCaps hi x q w = ground (arith, length-append q.hi_items (x ∷ []))
  push_at-IsWithinCaps md x q w = ground (arith, length-append q.md_items (x ∷ []))
  push_at-IsWithinCaps lo x q w = ground (arith, length-append q.lo_items (x ∷ []))

  tail-IsWithinCaps :
      (c : Priority) {x : A} {l : List A} (q : WeightedQueue A) (n : ℕ)
      → items_for c q ≡ x ∷ l
      → IsWithinCaps q
      → IsWithinCaps (set_items c l (record q { cursor = n }))
  tail-IsWithinCaps hi q n h w = let e = ap length h in omega (arith, w)
  tail-IsWithinCaps md q n h w = let e = ap length h in omega (arith, w)
  tail-IsWithinCaps lo q n h w = let e = ap length h in omega (arith, w)

  total_len-tail :
      (c : Priority) {x : A} {l : List A} (q : WeightedQueue A) (n : ℕ)
      → items_for c q ≡ x ∷ l
      → total_len (set_items c l (record q { cursor = n })) + 1 ≡ total_len q
  total_len-tail hi q n h = let e = ap length h in omega arith
  total_len-tail md q n h = let e = ap length h in omega arith
  total_len-tail lo q n h = let e = ap length h in omega arith

  pop-IsWithinCaps : (q : WeightedQueue A) → IsWithinCaps q → IsWithinCaps (pop q).0
  pop-IsWithinCaps q w = elim (pop-cases q) [
    | inl (_, e) ↦ rw e w
    | inr s ↦ rw s.result (tail-IsWithinCaps s.class q _ s.head w)
  ]

  total_len-push :
      (c : Priority) (x : A) (q : WeightedQueue A)
      → total_len (push c x q).0 ≡ total_len q + length (note_put x (push c x q).1 [])
  unfolding push
  total_len-push c x q = elim (Bool-cases (is_full q c)) [
    | inl e ↦ rw e (omega arith)
    | inr e ↦ rw e (
        omega (
          arith,
          total_len-set_items c (items_for c q ++ x ∷ []) q,
          length-append (items_for c q) (x ∷ []),
        ))
  ]

  pub total_len-pop :
      (q : WeightedQueue A) → total_len (pop q).0 + length (note_take (pop q).1 []) ≡ total_len q
  total_len-pop q = elim (pop-cases q) [
    | inl (_, e) ↦ rw e (omega arith)
    | inr s ↦ rw s.result (omega (arith, total_len-tail s.class q _ s.head))
  ]

  length-note_put :
      (x : A) (r : PushResult) (l : List A)
      → length (note_put x r l) ≡ length (note_put x r []) + length l
  length-note_put x pushed l = omega arith
  length-note_put x (full f) l = omega arith

  length-note_take :
      (r : Option A) (l : List A) → length (note_take r l) ≡ length (note_take r []) + length l
  length-note_take none l = omega arith
  length-note_take (some x) l = omega arith

module _ {A : Type 0} (class_of : A → Priority) where
  -- Whatever the calls, no class grows beyond its capacity.
  pub run-IsWithinCaps :
      (ops : List (Op A)) (q : WeightedQueue A)
      → IsWithinCaps q
      → IsWithinCaps (run class_of ops q).queue
  unfolding run
  run-IsWithinCaps [] q w = w
  run-IsWithinCaps (put x ∷ ops) q w =
      run-IsWithinCaps ops (push (class_of x) x q).0 (push_at-IsWithinCaps (class_of x) x q w)
  run-IsWithinCaps (take ∷ ops) q w = run-IsWithinCaps ops (pop q).0 (pop-IsWithinCaps q w)

  -- Whatever the calls, the jobs that waited at the start and those accepted since are as many as
  -- those served and those that still wait.
  pub run_conserves :
      (ops : List (Op A)) (q : WeightedQueue A)
      → let o = run class_of ops q in
        total_len q + length o.accepted ≡ length o.served + total_len o.queue
  unfolding run
  run_conserves [] q = omega arith
  run_conserves (put x ∷ ops) q =
      let q' = (push (class_of x) x q).0 in
      let r = (push (class_of x) x q).1 in
      omega (
        arith,
        run_conserves ops q',
        total_len-push (class_of x) x q,
        length-note_put x r (run class_of ops q').accepted,
      )
  run_conserves (take ∷ ops) q = omega (
    arith,
    run_conserves ops (pop q).0,
    total_len-pop q,
    length-note_take (pop q).1 (run class_of ops (pop q).0).served,
  )
