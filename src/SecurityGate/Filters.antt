-- ===== src/SecurityGate/Filters.antt =====
-- What the filters of crates/hom-brain/src/services/security_gate.rs take away from what a scan
-- finds, and the security policy with the scan in its place.
use hom_local.Prelude.{
  ℕ, String, Bool, true, false, not, ◌&&◌, ◌||◌, List, [], ◌∷◌, ◌≡◌, refl, sym, ap, inl, inr,
  Bool-cases, ◌∙◌, and_false, str_eq, eq_iff, if◌then◌else◌,
}
use hom_local.Codes.{ascii_lower}
use hom_local.SecurityGate.{
  SecretMatch, keep_matches, secret_matches, memory_secret_matches,
  generated_artifact_secret_matches, is_bibliographic_memory_type, has_citation_cue,
  has_payment_cue, is_bibliographic_false_positive,
}

-- Whether a pattern is among what was found.
abbrev pub reports : String → List SecretMatch → Bool
reports name [] = false
reports name (m ∷ ms) = str_eq m.pattern name || reports name ms

reports-keep :
    (name : String) (test : String → Bool) (ms : List SecretMatch)
    → reports name (keep_matches (λ m. test m.pattern) ms) ≡ (reports name ms && test name)
reports-keep name test [] = refl
reports-keep name test (m ∷ ms) =
    let others = reports-keep name test ms in
    elim (Bool-cases (test m.pattern)) [
      | inl kept ↦ elim (Bool-cases (str_eq m.pattern name)) [
        | inl same ↦ rw (kept, same) (sym (rw (sym ((eq_iff m.pattern name).0 same)) kept))
        | inr other ↦ rw (kept, other) others
      ]
      | inr dropped ↦ elim (Bool-cases (str_eq m.pattern name)) [
        | inl same ↦
            let off = rw ((eq_iff m.pattern name).0 same) at dropped in
            rw (dropped, same, off) (others ∙ rw off (and_false (reports name ms)))
        | inr other ↦ rw (dropped, other) others
      ]
    ]

and_true : (a : Bool) → (a && true) ≡ a
and_true true = refl
and_true false = refl

not_if : (a b : Bool) → not (if not a then false else b) ≡ not (a && b)
not_if true b = refl
not_if false b = refl

module _ (to_lowercase : List ℕ → List ℕ) where
  -- What a bibliographic memory may show of the pattern of a payment card.
  abbrev pub is_exempt : String → List ℕ → List ℕ → Bool
  is_exempt name value memory_type =
      is_bibliographic_memory_type memory_type
      && (str_eq name "credit_card"
          && (has_citation_cue (ascii_lower value) && not (has_payment_cue (ascii_lower value))))

  reports-memory :
      (name : String) (value memory_type : List ℕ)
      → reports name (memory_secret_matches to_lowercase value memory_type) ≡ (
          reports name (secret_matches to_lowercase value)
          && not (is_exempt name value memory_type))
  unfolding memory_secret_matches is_bibliographic_false_positive
  reports-memory name value memory_type =
      let found = secret_matches to_lowercase value in
      let cited =
        has_citation_cue (ascii_lower value) && not (has_payment_cue (ascii_lower value)) in
      elim (Bool-cases (is_bibliographic_memory_type memory_type)) [
        | inl bibliographic ↦ rw bibliographic (
            reports-keep name (λ n. not (if not (str_eq n "credit_card") then false else cited))
              found
            ∙ ap (λ b. reports name found && b) (not_if (str_eq name "credit_card") cited))
        | inr other ↦ rw other (sym (and_true (reports name found)))
      ]

  -- Saving a memory reports the same patterns as the scan, except a payment card in a memory of a
  -- bibliographic type whose text has a citation cue and no payment cue. A generated artifact is
  -- reported to have the same patterns as the scan, except payment cards and social security numbers.
  pub filtered_reports :
      (name : String) (value memory_type : List ℕ)
      → (reports name (memory_secret_matches to_lowercase value memory_type) ≡ (
          reports name (secret_matches to_lowercase value)
          && not (is_exempt name value memory_type)))
        × (reports name (generated_artifact_secret_matches to_lowercase value) ≡ (
            reports name (secret_matches to_lowercase value)
            && not (str_eq name "credit_card" || str_eq name "ssn")))
  unfolding generated_artifact_secret_matches
  filtered_reports name value memory_type = (
    reports-memory name value memory_type,
    reports-keep name (λ n. not (str_eq n "credit_card" || str_eq n "ssn"))
        (secret_matches to_lowercase value),
  )
