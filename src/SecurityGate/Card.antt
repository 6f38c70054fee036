-- ===== src/SecurityGate/Card.antt =====
-- The search for payment cards of crates/hom-brain/src/services/security_gate.rs.
use hom_local.Prelude.{
  ℕ, ◌-◌, Bool, true, false, not, ◌||◌, List, [], ◌∷◌, ◌++◌, ◌≡◌, refl, inl, inr, sym, Bool-cases,
  none, some, if◌then◌else◌, append_assoc, append_nil, ap, ◌∙◌,
}
use hom_local.Codes.{is_digit, begin_piece, split_at, any_piece}
use hom_local.SecurityGate.{is_card, is_card_separator, card_step, scan_card, contains_luhn_card}

-- The code points that end a run: those that are neither digits nor separators.
abbrev pub ends_run : ℕ → Bool
ends_run c = not (is_digit c || is_card_separator c)

-- The digits of a run, its separators left out
abbrev pub run_digits : List ℕ → List ℕ
run_digits [] = []
run_digits (c ∷ run) = let rest = run_digits run in if is_digit c then (c - b'0') ∷ rest else rest

abbrev pub is_card_run : List ℕ → Bool
is_card_run run = is_card (run_digits run)

-- What the runs of a text show when digits are held in front of the first one.
runs_after : List ℕ → List (List ℕ) → Bool
runs_after digits [] = is_card digits
runs_after digits (run ∷ runs) = is_card (digits ++ run_digits run) || any_piece is_card_run runs

or_false : (a : Bool) → (a || false) ≡ a
or_false true = refl
or_false false = refl

runs_after-none : (runs : List (List ℕ)) → runs_after [] runs ≡ any_piece is_card_run runs
unfolding runs_after is_card
runs_after-none [] = refl
runs_after-none (run ∷ runs) = refl

runs_after-digit :
    (c : ℕ) (digits : List ℕ) (runs : List (List ℕ))
    → is_digit c ≡ true
    → runs_after (digits ++ ((c - b'0') ∷ [])) runs ≡ runs_after digits (begin_piece c runs)
unfolding runs_after
runs_after-digit c digits [] e = rw e (sym (or_false (is_card (digits ++ ((c - b'0') ∷ [])))))
runs_after-digit c digits (run ∷ runs) e = rw e (
    ap (λ held. is_card held || any_piece is_card_run runs)
      (append_assoc digits ((c - b'0') ∷ []) (run_digits run)))

runs_after-separator :
    (c : ℕ) (digits : List ℕ) (runs : List (List ℕ))
    → is_digit c ≡ false
    → runs_after digits runs ≡ runs_after digits (begin_piece c runs)
unfolding runs_after
runs_after-separator c digits [] e = rw e (rw (append_nil digits, or_false (is_card digits)) refl)
runs_after-separator c digits (run ∷ runs) e = rw e refl

scan_card-some :
    (c : ℕ) (digits next s : List ℕ)
    → card_step digits c ≡ some next
    → scan_card digits (c ∷ s) ≡ scan_card next s
unfolding scan_card
scan_card-some c digits next s e = rw (scan_card, e) refl

scan_card-none :
    (c : ℕ) (digits s : List ℕ) → card_step digits c ≡ none → scan_card digits (c ∷ s) ≡ true
unfolding scan_card
scan_card-none c digits s e = rw (scan_card, e) refl

scan_card-digit :
    (c : ℕ) (digits s : List ℕ)
    → is_digit c ≡ true
    → scan_card digits (c ∷ s) ≡ scan_card (digits ++ ((c - b'0') ∷ [])) s
unfolding card_step
scan_card-digit c digits s e = scan_card-some c digits _ s (rw e refl)

scan_card-stop :
    (c : ℕ) (digits s : List ℕ)
    → is_digit c ≡ false
    → is_card_separator c ≡ false
    → scan_card digits (c ∷ s) ≡ (is_card digits || scan_card [] s)
unfolding card_step
scan_card-stop c digits s not_digit not_separator = elim (Bool-cases (is_card digits)) [
  | inl card ↦ rw card (scan_card-none c digits s (rw (not_digit, not_separator, card) refl))
  | inr not_card ↦
      rw not_card (scan_card-some c digits [] s (rw (not_digit, not_separator, not_card) refl))
]

scan_card-end :
    (digits : List ℕ) → scan_card digits (0 ∷ []) ≡ runs_after digits (split_at ends_run [])
unfolding scan_card runs_after split_at
scan_card-end digits =
    scan_card-stop 0 digits [] refl refl
    ∙ ap (λ held. is_card held || false) (sym (append_nil digits))

card_step-separator :
    (c : ℕ) (digits : List ℕ)
    → is_digit c ≡ false
    → is_card_separator c ≡ true
    → card_step digits c ≡ some digits
unfolding card_step is_card
card_step-separator c [] not_digit separator = rw (not_digit, separator) refl
card_step-separator c (d ∷ digits) not_digit separator = rw (not_digit, separator) refl

split_at-stop :
    (c : ℕ) (s : List ℕ) → ends_run c ≡ true → split_at ends_run (c ∷ s) ≡ [] ∷ split_at ends_run s
unfolding split_at
split_at-stop c s e = rw e refl

split_at-inside :
    (c : ℕ) (s : List ℕ)
    → ends_run c ≡ false
    → split_at ends_run (c ∷ s) ≡ begin_piece c (split_at ends_run s)
unfolding split_at
split_at-inside c s e = rw e refl

runs_after-stop :
    (digits : List ℕ) (runs : List (List ℕ))
    → runs_after digits ([] ∷ runs) ≡ (is_card digits || runs_after [] runs)
unfolding runs_after
runs_after-stop digits runs = rw (append_nil digits, runs_after-none runs) refl

-- The scan of the rest of a text, with digits held
scan_card-runs :
    (digits s : List ℕ) → scan_card digits (s ++ (0 ∷ [])) ≡ runs_after digits (split_at ends_run s)
scan_card-runs digits [] = scan_card-end digits
scan_card-runs digits (c ∷ s) = elim (Bool-cases (is_digit c)) [
  | inl digit ↦
      rw (split_at-inside c s (rw digit refl), scan_card-digit c digits (s ++ (0 ∷ [])) digit)
        (scan_card-runs (digits ++ ((c - b'0') ∷ [])) s
          ∙ runs_after-digit c digits (split_at ends_run s) digit)
  | inr other ↦ elim (Bool-cases (is_card_separator c)) [
    | inl separator ↦
        rw
          (
            split_at-inside c s (rw (other, separator) refl),
            scan_card-some c digits digits (s ++ (0 ∷ []))
                (card_step-separator c digits other separator),
          )
          (scan_card-runs digits s ∙ runs_after-separator c digits (split_at ends_run s) other)
    | inr stop ↦
        rw
          (
            split_at-stop c s (rw (other, stop) refl),
            scan_card-stop c digits (s ++ (0 ∷ [])) other stop,
            runs_after-stop digits (split_at ends_run s),
          )
          (ap (λ later. is_card digits || later) (scan_card-runs [] s))
  ]
]

-- A text is reported to show a card exactly when one of its runs does: a run lies between code
-- points other than digits, spaces, dashes and dots, and shows a card when its digits, taken
-- together, are 13 to 19 in number and pass the check.
pub contains_luhn_card-runs :
    (text : List ℕ) → contains_luhn_card text ≡ any_piece is_card_run (split_at ends_run text)
unfolding contains_luhn_card
contains_luhn_card-runs text = scan_card-runs [] text ∙ runs_after-none (split_at ends_run text)
