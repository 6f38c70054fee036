-- ===== src/Ledger/Chain.antt =====
-- The loop of `verify_ledger_sequence` (crates/hom-brain/src/db/storage.rs): which rows it accepts,
-- and how a run over a list goes on over what follows the list.
use hom_local.Ledger.{
  LedgerOps, LedgerEventRow, MutationRecord, LedgerSequenceVerification, LedgerRowStatus,
  SelfModified, valid, self_modified_preserved, invalid, Invalid, opt_eq, or_else, last_row,
  hash_of, ledger_row_status, verify_rows,
}
use hom_local.Prelude.{
  ℕ, String, true, List, [], ◌∷◌, ◌++◌, Option, none, some, str_eq, eq_iff, ◌≡◌, refl, sym, ◌∙◌, ap,
  ◌⊎◌, inl, inr, Result, ok, err, Option-cases,
}

pub str_eq_refl : (s : String) → str_eq s s ≡ true
str_eq_refl s = (eq_iff s s).1 refl

pub opt_eq_refl : (o : Option String) → opt_eq o o ≡ true
unfolding opt_eq
opt_eq_refl none = refl
opt_eq_refl (some s) = str_eq_refl s

pub opt_eq_sound : (a b : Option String) → opt_eq a b ≡ true → a ≡ b
unfolding opt_eq
opt_eq_sound none none h = refl
opt_eq_sound none (some b) h = cc
opt_eq_sound (some a) none h = cc
opt_eq_sound (some a) (some b) h = ap (λ x. some x) ((eq_iff a b).0 h)

pub last_or :
    (l : List LedgerEventRow) (row : LedgerEventRow) (p : Option String)
    → or_else (hash_of (last_row l)) (some row.event_hash)
      ≡ or_else (hash_of (or_else (last_row l) (some row))) p
last_or l row p = elim (Option-cases (last_row l)) [ inl e ↦ rw e refl | inr (x, e) ↦ rw e refl ]

pub Status-cases :
    (r : Result String LedgerRowStatus)
    → ((e : String) × (r ≡ err e))
      ⊎ ((r ≡ ok valid)
          ⊎ (((d : SelfModified) × (r ≡ ok (self_modified_preserved d)))
              ⊎ ((i : Invalid) × (r ≡ ok (invalid i)))))
Status-cases (err e) = inl (e, refl)
Status-cases (ok valid) = inr (inl refl)
Status-cases (ok (self_modified_preserved d)) = inr (inr (inl (d, refl)))
Status-cases (ok (invalid i)) = inr (inr (inr (i, refl)))

module _ (ops : LedgerOps) (mutations : List MutationRecord) where
  abbrev run :
      List LedgerEventRow
      → Option String
      → LedgerSequenceVerification
      → Result String LedgerSequenceVerification
  run rows p v = verify_rows ops rows p mutations v

  pub verify_rows-append :
      (rows more : List LedgerEventRow) (p : Option String) (v w : LedgerSequenceVerification)
      → run rows p v ≡ ok w
      → w.first_invalid ≡ none
      → run (rows ++ more) p v ≡ run more (or_else (hash_of (last_row rows)) p) w
  unfolding verify_rows last_row
  verify_rows-append [] more p v w h f = let e : v ≡ w = cc in rw e refl
  verify_rows-append (row ∷ rows) more p v w h f =
      elim (Status-cases (ledger_row_status ops row p mutations)) [
        | inl (e, q) ↦ cc (rw q at h)
        | inr (inl q) ↦
            rw q (verify_rows-append rows more (some row.event_hash) _ w (rw q at h) f)
            ∙ ap (λ x. run more x w) (last_or rows row p)
        | inr (inr (inl (d, q))) ↦
            rw q (verify_rows-append rows more (some row.event_hash) _ w (rw q at h) f)
            ∙ ap (λ x. run more x w) (last_or rows row p)
        | inr (inr (inr (i, q))) ↦
            let stopped : w ≡ record v { first_invalid = some i } = cc (rw q at h) in cc
      ]

  pub verify_rows-total :
      (n : ℕ) (rows : List LedgerEventRow) (p : Option String) (v w : LedgerSequenceVerification)
      → run rows p v ≡ ok w
      → run rows p (record v { total_events = n }) ≡ ok (record w { total_events = n })
  unfolding verify_rows
  verify_rows-total n [] p v w h = let e : v ≡ w = cc in rw e refl
  verify_rows-total n (row ∷ rows) p v w h =
      elim (Status-cases (ledger_row_status ops row p mutations)) [
        | inl (e, q) ↦ cc (rw q at h)
        | inr (inl q) ↦ rw q (verify_rows-total n rows (some row.event_hash) _ w (rw q at h))
        | inr (inr (inl (d, q))) ↦
            rw q (verify_rows-total n rows (some row.event_hash) _ w (rw q at h))
        | inr (inr (inr (i, q))) ↦
            let stopped : record v { first_invalid = some i } ≡ w = cc (rw q at h) in
            rw (q, sym stopped) refl
      ]
