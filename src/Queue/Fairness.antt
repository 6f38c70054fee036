-- ===== src/Queue/Fairness.antt =====
-- No class of the queue of crates/hom-brain/src/ipc/router.rs is starved: the schedule comes to
-- each class after a bounded number of calls of `pop`.
use hom_local.Prelude.{
  ℕ, zero, suc, ◌+◌, ◌*◌, ◌-◌, ◌%◌, ◌≤◌, ◌<◌, ◌≡◌, refl, sym, ◌∙◌, ◌⊎◌, inl, inr, Bool, true, false,
  ◌&&◌, List, [], ◌∷◌, Option, none, some, arith, Bool-cases, length, length-append, ◌==◌, ltb,
  if◌then◌else◌, all_below, all_below_sound,
}
use hom_local.Queue.{
  Priority, hi, md, lo, WeightedQueue, items_for, set_items, push, pop, len_for, schedule_at,
  schedule_len, is_full,
}
use hom_local.Queue.Serve.{Serves, pop-Serves, pop-cases}
use hom_local.Queue.Run.{Op, put, take, same_class, of_class, note_put, note_take, run, takes}
use hom_local.Queue.Fifo.{
  IsTagged, push-items, pop-items, push-IsTagged, pop-IsTagged, of_class-note_take, same_class→eq,
}

-- How many calls of `pop` a class may have to wait.
abbrev pub patience : Priority → ℕ
patience hi = 3
patience md = 6
patience lo = 21

patience-le : (p : Priority) → patience p ≤ 21
patience-le hi = omega arith
patience-le md = omega arith
patience-le lo = omega arith

-- The first slot of a class at or behind `c`, counted in places.
gap : Priority → ℕ → ℕ → ℕ
gap p zero c = 0
gap p (suc n) c =
    let further = gap p n (c + 1) in if same_class (schedule_at (c % 21)) p then 0 else suc further

gap_is_right : Priority → ℕ → Bool
gap_is_right p c =
    ltb (gap p 21 c) (patience p) && same_class (schedule_at ((c + gap p 21 c) % 21)) p

gap_table : (p : Priority) → all_below 21 (gap_is_right p) ≡ true
unfolding all_below gap_is_right gap schedule_at
gap_table hi = refl
gap_table md = refl
gap_table lo = refl

gap_sound :
    (p : Priority) (c : ℕ)
    → c < 21
    → (gap p 21 c < patience p) × (schedule_at ((c + gap p 21 c) % 21) ≡ p)
unfolding gap_is_right
gap_sound p c h =
    let ok : gap_is_right p c ≡ true = all_below_sound 21 (gap_is_right p) c (gap_table p) h in
    (ground arith, same_class→eq _ p (ground arith))

pub cursor-set_items :
    {A : Type 0} (c : Priority) (l : List A) (q : WeightedQueue A)
    → (set_items c l q).cursor ≡ q.cursor
cursor-set_items hi l q = refl
cursor-set_items md l q = refl
cursor-set_items lo l q = refl

pub same_class_refl : (p : Priority) → same_class p p ≡ true
same_class_refl hi = refl
same_class_refl md = refl
same_class_refl lo = refl

empty_or_not : {A : Type 0} (l : List A) → (l ≡ []) ⊎ (0 < length l)
empty_or_not [] = inl refl
empty_or_not (x ∷ l) = inr (omega arith)

le-cases : (a b : ℕ) → a ≤ b → (a < b) ⊎ (a ≡ b)
le-cases a b h = omega arith

abbrev pub IsBusy : {A : Type 0} → WeightedQueue A → Priority → Type 0
IsBusy q p = (len_for q p == 0) ≡ false

-- The slot of class `p` comes `d` places behind the cursor.
abbrev ComesAfter : {A : Type 0} → WeightedQueue A → Priority → ℕ → Type 0
ComesAfter q p d = schedule_at ((q.cursor + d) % schedule_len) ≡ p

module _ {A : Type 0} where
  cursor-push : (c : Priority) (x : A) (q : WeightedQueue A) → (push c x q).0.cursor ≡ q.cursor
  unfolding push
  cursor-push c x q = elim (Bool-cases (is_full q c)) [
    | inl e ↦ rw e refl
    | inr e ↦ rw e (cursor-set_items c _ q)
  ]

  pub cursor-pop : (q : WeightedQueue A) → q.cursor < schedule_len → (pop q).0.cursor < schedule_len
  cursor-pop q h = elim (pop-cases q) [
    | inl (_, e) ↦ rw e h
    | inr s ↦ rw (s.result, cursor-set_items) (omega arith)
  ]

  busy : (l : List A) {n : ℕ} → suc n ≤ length l → (length l == 0) ≡ false
  busy l h = ground arith

module _ {A : Type 0} (class_of : A → Priority) where
  -- What `pop` takes belongs to the class that it serves.
  served-of_class :
      {q : WeightedQueue A} {d : ℕ} {r : WeightedQueue A × Option A} (s : Serves q 0 d r)
      → IsTagged class_of q
      → 0 < length (of_class class_of s.class (note_take r.1 []))
  served-of_class s t =
      let tag : class_of s.item ≡ s.class = (rw s.head at (t.tagged s.class)).0 in
      rw (s.result, tag, same_class_refl) (omega arith)

  -- Where the slot of class `p` was not reached, it is nearer after the call.
  nearer :
      {q : WeightedQueue A} {d : ℕ} {r : WeightedQueue A × Option A} (p : Priority)
      (s : Serves q 0 d r)
      → s.skipped < d
      → ComesAfter q p d
      → (e : ℕ) × (e < d) × ComesAfter r.0 p e
  nearer {q} {d} p s lt a =
      let eq : s.slot ≡ (q.cursor + 0 + s.skipped) % 21 = s.slot_eq in
      let e = d - s.skipped - 1 in
      let there : ((s.slot + 1) % 21 + e) % 21 ≡ (q.cursor + d) % 21 = omega arith in
      (e, omega arith, rw (s.result, cursor-set_items, there) a)

  -- One call of `pop` serves class `p`, or brings its slot nearer.
  pop_progress :
      (q : WeightedQueue A) (p : Priority) (d : ℕ)
      → d < 21
      → IsTagged class_of q
      → IsBusy q p
      → ComesAfter q p d
      → (0 < length (of_class class_of p (note_take (pop q).1 [])))
        ⊎ ((items_for p q ≡ items_for p (pop q).0) × ((e : ℕ) × (e < d) × ComesAfter (pop q).0 p e))
  pop_progress q p d h t b a =
      let s : Serves q 0 d (pop q) = pop-Serves q p d h a b in
      elim (empty_or_not (of_class class_of p (note_take (pop q).1 []))) [
        | inr some_of_p ↦ inl some_of_p
        | inl none_of_p ↦
            let kept : items_for p q ≡ items_for p (pop q).0 =
              rw none_of_p at (pop-items class_of q p t) in
            elim (le-cases s.skipped d s.within) [
              | inl lt ↦ inr (kept, nearer p s lt a)
              | inr eq ↦
                  let here : s.slot ≡ (q.cursor + d) % 21 =
                    let e : s.slot ≡ (q.cursor + 0 + s.skipped) % 21 = s.slot_eq in omega arith in
                  let class_p : s.class ≡ p = sym s.at_slot ∙ (rw here a) in
                  inl (rw class_p at (served-of_class s t))
            ]
      ]

  of_class-note_take-le_one :
      (p : Priority) (r : Option A) → length (of_class class_of p (note_take r [])) ≤ 1
  of_class-note_take-le_one p none = omega arith
  of_class-note_take-le_one p (some x) = elim (Bool-cases (same_class (class_of x) p)) [
    | inl e ↦ rw e (omega arith)
    | inr e ↦ rw e (omega arith)
  ]

  pub length-served-take :
      (p : Priority) (ops : List (Op A)) (q : WeightedQueue A)
      → length (of_class class_of p (run class_of (take ∷ ops) q).served)
        ≡ length (of_class class_of p (note_take (pop q).1 []))
          + length (of_class class_of p (run class_of ops (pop q).0).served)
  unfolding run
  length-served-take p ops q =
      rw (of_class-note_take class_of p (pop q).1 (run class_of ops (pop q).0).served)
        (length-append (of_class class_of p (note_take (pop q).1 [])) _)

  pub length-kept :
      (q : WeightedQueue A) (p : Priority)
      → IsTagged class_of q
      → len_for q p ≡ length (of_class class_of p (note_take (pop q).1 [])) + len_for (pop q).0 p
  length-kept q p t =
      rw (pop-items class_of q p t)
        (length-append (of_class class_of p (note_take (pop q).1 [])) (items_for p (pop q).0))

  len_for-push-le :
      (x : A) (q : WeightedQueue A) (p : Priority)
      → len_for q p ≤ len_for (push (class_of x) x q).0 p
  len_for-push-le x q p = rw (push-items class_of x q p) (
      omega (
        arith,
        length-append (items_for p q)
            (of_class class_of p (note_put x (push (class_of x) x q).1 [])),
      ))

  served_within :
      (ops : List (Op A)) (q : WeightedQueue A) (p : Priority) (m d : ℕ)
      → d < 21
      → IsTagged class_of q
      → q.cursor < schedule_len
      → m < len_for q p
      → ComesAfter q p d
      → d + m * patience p < takes ops
      → m < length (of_class class_of p (run class_of ops q).served)
  unfolding run
  served_within [] q p m d small t c l a h = absurd (omega arith)
  served_within (put x ∷ ops) q p m d small t c l a h =
      served_within ops (push (class_of x) x q).0 p m d small (push-IsTagged class_of x q t)
        (rw cursor-push c) (omega (arith, len_for-push-le x q p)) (rw cursor-push a) h
  served_within (take ∷ ops) q p zero d small t c l a h =
      elim (pop_progress q p d small t (busy (items_for p q) l) a) [
        | inl one ↦ omega (arith, length-served-take p ops q)
        | inr (kept, (e, lt, closer)) ↦ omega (
          arith,
          length-served-take p ops q,
          served_within ops (pop q).0 p 0 e (omega arith) (pop-IsTagged class_of q t)
              (cursor-pop q c) (rw kept at l) closer (omega arith),
        )
      ]
  served_within (take ∷ ops) q p (suc m) d small t c l a h =
      elim (pop_progress q p d small t (busy (items_for p q) l) a) [
        | inl one ↦
            let c' = cursor-pop q c in
            let (lt, at) = gap_sound p (pop q).0.cursor c' in
            omega (
              arith,
              length-served-take p ops q,
              one,
              served_within ops (pop q).0 p m (gap p 21 (pop q).0.cursor)
                  (omega (arith, patience-le p)) (pop-IsTagged class_of q t) c'
                  (omega (arith, length-kept q p t, of_class-note_take-le_one p (pop q).1)) at
                  (omega arith),
            )
        | inr (kept, (e, lt, closer)) ↦ omega (
          arith,
          length-served-take p ops q,
          served_within ops (pop q).0 p (suc m) e (omega arith) (pop-IsTagged class_of q t)
              (cursor-pop q c) (rw kept at l) closer (omega arith),
        )
      ]

  -- A job with `m` others of its class before it is served within `(m + 1) * patience` calls of
  -- `pop`, whatever is put into the queue meanwhile: so many jobs of the class are then served.
  pub no_starvation :
      (ops : List (Op A)) (q : WeightedQueue A) (p : Priority) (m : ℕ)
      → IsTagged class_of q
      → q.cursor < schedule_len
      → m < len_for q p
      → suc m * patience p ≤ takes ops
      → m < length (of_class class_of p (run class_of ops q).served)
  no_starvation ops q p m t c l h =
      let (lt, at) = gap_sound p q.cursor c in
      served_within ops q p m (gap p 21 q.cursor) (omega (arith, patience-le p)) t c l at
        (omega arith)
