-- ===== src/Queue/Share.antt =====
-- The shares of the three classes in the queue of crates/hom-brain/src/ipc/router.rs, while each
-- has jobs enough.
use hom_local.Prelude.{
  ℕ, zero, suc, ◌+◌, ◌%◌, ◌≤◌, ◌<◌, ◌≡◌, refl, sym, ap, ◌∙◌, inl, inr, true, List, [], ◌∷◌, arith,
  Bool-cases, length, ◌==◌, if◌then◌else◌, all_below, all_below_sound, ==→eq,
}
use hom_local.Queue.{Priority, hi, md, lo, WeightedQueue, pop, len_for, schedule_at, schedule_len}
use hom_local.Queue.Serve.{Serves, pop-Serves}
use hom_local.Queue.Run.{Op, take, same_class, of_class, note_take, run}
use hom_local.Queue.Fifo.{IsTagged, pop-IsTagged}
use hom_local.Queue.Fairness.{
  length-served-take, length-kept, cursor-pop, cursor-set_items, same_class_refl,
}

-- How many of the `n` slots from `c` on are of class `p`.
abbrev slots : Priority → ℕ → ℕ → ℕ
slots p c zero = 0
slots p c (suc n) = (if same_class (schedule_at c) p then 1 else 0) + slots p ((c + 1) % 21) n

-- The share of a class in 21 calls.
abbrev pub share : Priority → ℕ
share hi = 16
share md = 4
share lo = 1

slots_table : (p : Priority) → all_below 21 (λ c. slots p c 21 == share p) ≡ true
unfolding all_below schedule_at
slots_table hi = refl
slots_table md = refl
slots_table lo = refl

slots-eq-share : (p : Priority) (c : ℕ) → c < 21 → slots p c 21 ≡ share p
slots-eq-share p c h =
    ==→eq _ _ (all_below_sound 21 (λ x. slots p x 21 == share p) c (slots_table p) h)

abbrev pub take_times : {A : Type 0} → ℕ → List (Op A)
take_times zero = []
take_times (suc n) = take ∷ take_times n

slots-here :
    (p : Priority) (c n : ℕ) → (if same_class p p then 1 else 0) + slots p c n ≡ suc (slots p c n)
slots-here p c n = rw same_class_refl (omega arith)

length-only :
    {A : Type 0} (c p : Priority) (x : A)
    → length (if same_class c p then x ∷ [] else []) ≡ (if same_class c p then 1 else 0)
length-only c p x = elim (Bool-cases (same_class c p)) [ inl e ↦ rw e refl | inr e ↦ rw e refl ]

module _ {A : Type 0} (class_of : A → Priority) where
  -- With a job in the class of the slot at the cursor, `pop` serves that class, and moves on by
  -- one slot.
  pop_at_cursor :
      (q : WeightedQueue A) (p : Priority)
      → IsTagged class_of q
      → q.cursor < 21
      → 0 < len_for q (schedule_at q.cursor)
      → (length (of_class class_of p (note_take (pop q).1 []))
          ≡ (if same_class (schedule_at q.cursor) p then 1 else 0))
        × ((pop q).0.cursor ≡ (q.cursor + 1) % 21)
  pop_at_cursor q p t c h =
      let here : (q.cursor + 0) % 21 ≡ q.cursor = omega arith in
      let s : Serves q 0 0 (pop q) =
        pop-Serves q (schedule_at q.cursor) 0 (omega arith) (ap schedule_at here) (ground arith) in
      let eq : s.slot ≡ (q.cursor + 0 + s.skipped) % 21 = s.slot_eq in
      let none_skipped : s.skipped ≤ 0 = s.within in
      let slot : s.slot ≡ q.cursor = omega arith in
      let tag : class_of s.item ≡ s.class = (rw s.head at (t.tagged s.class)).0 in
      let class : class_of s.item ≡ schedule_at q.cursor =
        tag ∙ (sym s.at_slot ∙ ap schedule_at slot) in
      (
        rw (s.result, class) (length-only (schedule_at q.cursor) p s.item),
        rw (s.result, cursor-set_items, slot) refl,
      )

  -- While every class has as many jobs as it has slots among the next `n`, it is served so often.
  served-eq-slots :
      (n : ℕ) (q : WeightedQueue A)
      → IsTagged class_of q
      → q.cursor < 21
      → ((p : Priority) → slots p q.cursor n ≤ len_for q p)
      → (p : Priority)
      → length (of_class class_of p (run class_of (take_times n) q).served) ≡ slots p q.cursor n
  unfolding run
  served-eq-slots zero q t c enough p = refl
  served-eq-slots (suc n) q t c enough p =
      let here = schedule_at q.cursor in
      let busy : 0 < len_for q here =
        omega (arith, enough here, slots-here here ((q.cursor + 1) % 21) n) in
      let moved : (pop q).0.cursor ≡ (q.cursor + 1) % 21 = (pop_at_cursor q p t c busy).1 in
      let rest : (p' : Priority) → slots p' (pop q).0.cursor n ≤ len_for (pop q).0 p' = λ p'.
        rw moved (
          omega (arith, enough p', length-kept class_of q p' t, (pop_at_cursor q p' t c busy).0)) in
      omega (
        arith,
        length-served-take class_of p (take_times n) q,
        (pop_at_cursor q p t c busy).0,
        rw moved at
            (served-eq-slots n (pop q).0 (pop-IsTagged class_of q t) (cursor-pop q c) rest p),
      )

  -- While no class runs dry, any 21 calls of `pop` in a row serve 16 jobs of the high class, 4 of
  -- the middle class and 1 of the low class, wherever the cursor stands.
  pub saturated_shares :
      (q : WeightedQueue A)
      → IsTagged class_of q
      → q.cursor < schedule_len
      → ((p : Priority) → share p ≤ len_for q p)
      → (p : Priority)
      → length (of_class class_of p (run class_of (take_times 21) q).served) ≡ share p
  saturated_shares q t c enough p =
      served-eq-slots 21 q t c (λ p'. rw (slots-eq-share p' q.cursor c) (enough p')) p
      ∙ slots-eq-share p q.cursor c
