-- ===== src/Queue/Serve.antt =====
-- What one `pop` does (crates/hom-brain/src/ipc/router.rs): which slot of the schedule it stops
-- at, and what it takes from there.
use Prim.Native.Nat.{◌<◌, ◌-◌}
use hom_local.Prelude.{
  ℕ, zero, suc, ◌+◌, ◌%◌, ◌≤◌, ◌≡◌, refl, inl, inr, true, false, List, [], ◌∷◌, Option, none, ◌⊎◌,
  some, ◌==◌, length, arith, Bool-cases,
}
use hom_local.Queue.{
  Priority, hi, md, lo, WeightedQueue, items_for, set_items, len_for, total_len, schedule_at,
  schedule_len, scan, pop, pop_front,
}

module _ {A : Type 0} where
  -- `skipped` slots after the one at `offset`, the head of class `class` is taken, and the cursor
  -- is left behind that slot. Nothing else changes.
  pub record Serves (q : WeightedQueue A) (offset d : ℕ) (r : WeightedQueue A × Option A)
      : Type 0 where
    pub skipped : ℕ
    pub within : skipped ≤ d
    pub slot : ℕ
    pub slot_eq : slot ≡ (q.cursor + offset + skipped) % schedule_len
    pub class : Priority
    pub at_slot : schedule_at slot ≡ class
    pub item : A
    pub rest : List A
    pub head : items_for class q ≡ item ∷ rest
    pub result :
        r ≡ (set_items class rest (record q { cursor = (slot + 1) % schedule_len }), some item)

  Serves-mono :
      {q : WeightedQueue A} {offset d e : ℕ} {r : WeightedQueue A × Option A}
      → d ≤ e
      → Serves q offset d r
      → Serves q offset e r
  Serves-mono {d} h s =
      let within : s.skipped ≤ d = s.within in
      record {
        skipped = s.skipped;
        within = omega arith;
        slot = s.slot;
        slot_eq = s.slot_eq;
        class = s.class;
        at_slot = s.at_slot;
        item = s.item;
        rest = s.rest;
        head = s.head;
        result = s.result;
      }

  nonempty : (l : List A) → (length l == 0) ≡ false → (x : A) × (r : List A) × (l ≡ x ∷ r)
  nonempty [] h = cc
  nonempty (x ∷ r) h = (x, r, refl)

  scan_hit :
      (n offset d : ℕ) (q : WeightedQueue A)
      → (len_for q (schedule_at ((q.cursor + offset) % schedule_len)) == 0) ≡ false
      → Serves q offset d (scan (suc n) offset q)
  unfolding scan
  scan_hit n offset d q h =
      let (x, l, e) = nonempty _ h in
      record {
        skipped = 0;
        within = omega arith;
        slot = (q.cursor + offset) % schedule_len;
        slot_eq = omega arith;
        class = schedule_at ((q.cursor + offset) % schedule_len);
        at_slot = refl;
        item = x;
        rest = l;
        head = e;
        result = rw h (rw (e, pop_front));
      }

  scan_miss :
      (n offset d : ℕ) (q : WeightedQueue A)
      → (len_for q (schedule_at ((q.cursor + offset) % schedule_len)) == 0) ≡ true
      → Serves q (offset + 1) d (scan n (offset + 1) q)
      → Serves q offset (suc d) (scan (suc n) offset q)
  unfolding scan
  scan_miss n offset d q h s =
      let within : s.skipped ≤ d = s.within in
      let slot_eq : s.slot ≡ (q.cursor + (offset + 1) + s.skipped) % schedule_len = s.slot_eq in
      record {
        skipped = suc s.skipped;
        within = omega arith;
        slot = s.slot;
        slot_eq = omega arith;
        class = s.class;
        at_slot = s.at_slot;
        item = s.item;
        rest = s.rest;
        head = s.head;
        result = rw h s.result;
      }

  -- If class `p` has an item and its slot comes `d` places after the one at `offset`, the loop
  -- serves some class within `d` places.
  scan-Serves :
      (n offset d : ℕ) (q : WeightedQueue A)
      → d < n
      → (len_for q (schedule_at ((q.cursor + offset + d) % schedule_len)) == 0) ≡ false
      → Serves q offset d (scan n offset q)
  scan-Serves zero offset d q h e = absurd (omega arith)
  scan-Serves (suc n) offset zero q h e =
      let same : q.cursor + offset + 0 ≡ q.cursor + offset = omega arith in
      scan_hit n offset 0 q (rw (← same) e)
  scan-Serves (suc n) offset (suc d) q h e =
      elim (Bool-cases (len_for q (schedule_at ((q.cursor + offset) % schedule_len)) == 0)) [
        | inl empty ↦
            let same : q.cursor + offset + suc d ≡ q.cursor + (offset + 1) + d = omega arith in
            scan_miss n offset d q empty
              (scan-Serves n (offset + 1) d q (omega arith) (rw same at e))
        | inr found ↦ scan_hit n offset (suc d) q found
      ]

  -- `pop` serves some class, at most `d` slots after the cursor, if the class of that slot has an
  -- item.
  pub pop-Serves :
      (q : WeightedQueue A) (p : Priority) (d : ℕ)
      → d < schedule_len
      → schedule_at ((q.cursor + d) % schedule_len) ≡ p
      → (len_for q p == 0) ≡ false
      → Serves q 0 d (pop q)
  unfolding pop
  pop-Serves q p d h at e =
      let same : q.cursor + 0 + d ≡ q.cursor + d = omega arith in
      let busy : (total_len q == 0) ≡ false = ground (arith) in
      rw busy (scan-Serves schedule_len 0 d q h (rw same (rw at e)))

-- A slot of each class, and how far behind the cursor it comes.
abbrev some_slot : Priority → ℕ
some_slot hi = 0
some_slot md = 4
some_slot lo = 20

abbrev ahead : ℕ → ℕ → ℕ
ahead slot c = (slot + 21 - c % 21) % 21

ahead-slot : (slot c : ℕ) → slot < 21 → (c + ahead slot c) % 21 ≡ slot
ahead-slot slot c h = omega arith

schedule_at-some_slot : (p : Priority) → schedule_at (some_slot p) ≡ p
unfolding schedule_at
schedule_at-some_slot hi = refl
schedule_at-some_slot md = refl
schedule_at-some_slot lo = refl

some_slot-lt : (p : Priority) → some_slot p < 21
some_slot-lt hi = omega arith
some_slot-lt md = omega arith
some_slot-lt lo = omega arith

module _ {A : Type 0} where
  busy_class :
      (q : WeightedQueue A)
      → (total_len q == 0) ≡ false
      → (p : Priority) × ((len_for q p == 0) ≡ false)
  busy_class q h = elim (Bool-cases (len_for q hi == 0)) [
    | inr e ↦ (hi, e)
    | inl e ↦ elim (Bool-cases (len_for q md == 0)) [ inr f ↦ (md, f) | inl f ↦ (lo, ground arith) ]
  ]

  -- `pop` takes nothing from an empty queue, and serves some class of any other.
  pub pop-cases :
      (q : WeightedQueue A)
      → (((total_len q == 0) ≡ true) × (pop q ≡ (q, none))) ⊎ Serves q 0 20 (pop q)
  unfolding pop
  pop-cases q = elim (Bool-cases (total_len q == 0)) [
    | inl e ↦ inl (e, rw e)
    | inr e ↦
        let (p, busy) = busy_class q e in
        let at : schedule_at ((q.cursor + ahead (some_slot p) q.cursor) % 21) ≡ p =
          rw (ahead-slot (some_slot p) q.cursor (some_slot-lt p)) (schedule_at-some_slot p) in
        inr (
          Serves-mono (omega arith)
            (pop-Serves q p (ahead (some_slot p) q.cursor) (omega arith) at busy))
  ]
