-- ===== src/Permissions/Gone.antt =====
-- Checking a grant of the system itself after it is revoked
-- (crates/hom-brain/src/services/permissions.rs, `revoke_system_grant`).
use mathlib.Core.Path.{subst}
use hom_local.Prelude.{
  String, Bool, true, false, ◌&&◌, List, [], ◌∷◌, ◌≡◌, refl, sym, ok, err, inl, inr, Bool-cases,
  Option, none, some, All, All-imp, eq_iff, str_eq, and_split, and_both,
}
use hom_local.Prelude.Int.{ℤ}
use hom_local.Json.{object, field, end, string}
use hom_local.Permissions.{
  GrantOps, GrantRow, permission_error, is_blank, normalize_grant_kind, string_field,
  system_grantee, option_or,
}
use hom_local.Permissions.Grants.{
  GrantKey, GrantFilter, has_key, is_active, latest, passes, is_none_or_some, grant_filter,
  require_active_grant,
}
use hom_local.Permissions.Handlers.{Params, Store}
use hom_local.Permissions.System.{revoke_system_grant}
use hom_local.Permissions.Revoked.{IsGone, revoke_grants-IsGone}
use hom_local.Permissions.Check.{passes_check}

module _ (ops : GrantOps) where
  none-latest :
      (test : GrantRow → Bool) (rows : List GrantRow)
      → All (λ r. test r ≡ false) rows
      → latest test rows ≡ none
  unfolding latest
  none-latest test [] held = refl
  none-latest test (r ∷ rows) held = rw (held.0, none-latest test rows held.1) refl

  abbrev pub system_key : String → String → String → GrantKey
  system_key kind subject capability = record {
    grant_kind = kind;
    subject_id = subject;
    grantee_id = system_grantee;
    capability_id = some capability;
  }

  abbrev pub system_filter : String → String → String → GrantFilter
  system_filter kind subject capability = record {
    id = none;
    grant_kind = some kind;
    subject_id = some subject;
    grantee_id = some system_grantee;
    capability_id = some capability;
  }

  system_grantee-not_blank : is_blank system_grantee ≡ false
  unfolding is_blank
  system_grantee-not_blank = refl

  unfoldable pub system_params : String → String → String → Params ops
  system_params kind subject capability = object (
      field "grant_kind" (string kind) (
        field "subject_id" (string subject) (
          field "grantee_id" (string system_grantee)
            (field "capability_id" (string capability) end))))

  pub grant_filter-system :
      (kind subject capability : String)
      → normalize_grant_kind kind ≡ ok kind
      → is_blank kind ≡ false
      → is_blank subject ≡ false
      → is_blank capability ≡ false
      → grant_filter (system_params kind subject capability)
        ≡ ok (system_filter kind subject capability)
  unfolding grant_filter string_field system_params
  grant_filter-system kind subject capability normal no_kind no_subject no_capability =
      rw (no_kind, no_subject, no_capability, system_grantee-not_blank, normal) refl

  same_text : (s t : String) → str_eq s t ≡ true → str_eq t s ≡ true
  same_text s t h = (eq_iff t s).1 (sym ((eq_iff s t).0 h))

  is_blank-empty : is_blank "" ≡ true
  unfolding is_blank
  is_blank-empty = refl

  same_capability :
      (held : Option String) (capability : String)
      → is_blank capability ≡ false
      → str_eq (option_or "" held) capability ≡ true
      → is_none_or_some (some capability) held ≡ true
  same_capability (some c) capability no_capability h = same_text c capability h
  same_capability none capability no_capability h = cc (
    is_blank-empty,
    subst (λ c. is_blank c ≡ false) (sym ((eq_iff "" capability).0 h)) no_capability,
  )

  has_key-passes :
      (kind subject capability : String) (r : GrantRow)
      → is_blank capability ≡ false
      → has_key (system_key kind subject capability) r ≡ true
      → passes (system_filter kind subject capability) r ≡ true
  unfolding has_key passes
  has_key-passes kind subject capability r no_capability h =
      let (kinds, rest) = and_split (str_eq r.grant_kind kind) _ h in
      let (subjects, more) = and_split (str_eq r.subject_id subject) _ rest in
      let (grantees, held) = and_split (str_eq r.grantee_id system_grantee) _ more in
      and_both (same_text r.grant_kind kind kinds) (
        and_both (same_text r.subject_id subject subjects) (
          and_both (same_text r.grantee_id system_grantee grantees)
            (same_capability r.capability_id capability no_capability held)))

  gone_fails :
      (now : ℤ) (kind subject capability : String) (r : GrantRow)
      → is_blank capability ≡ false
      → (is_active r && passes (system_filter kind subject capability) r) ≡ false
      → passes_check ops now (system_key kind subject capability) r ≡ false
  unfolding passes_check
  gone_fails now kind subject capability r no_capability gone =
      elim (Bool-cases (has_key (system_key kind subject capability) r)) [
        | inr other ↦ rw other refl
        | inl has ↦ elim (Bool-cases (is_active r)) [
          | inr idle ↦ rw (idle, has) refl
          | inl live ↦
              cc (rw (live, has_key-passes kind subject capability r no_capability has) at gone)
        ]
      ]

  -- After a grant of the system itself is revoked, no check of it passes at any time, until one is
  -- created again: the kind is one of the program's own names, and none of its parts is blank.
  pub revoked_cannot_check :
      (now later : ℤ) (kind subject capability reason message : String) (s : Store ops)
      (done : List GrantRow × Store ops)
      → normalize_grant_kind kind ≡ ok kind
      → is_blank kind ≡ false
      → is_blank subject ≡ false
      → is_blank capability ≡ false
      → revoke_system_grant ops now kind subject capability reason s ≡ ok done
      → require_active_grant later (system_key kind subject capability) message done.1.grants
        ≡ err (permission_error message)
  unfolding require_active_grant revoke_system_grant passes_check system_params
  revoked_cannot_check now later kind subject capability reason message s done normal no_kind
        no_subject no_capability h =
      let gone =
        revoke_grants-IsGone ops now (system_params kind subject capability) reason
          "permissions.revoke_root" s done (system_filter kind subject capability)
          (grant_filter-system kind subject capability normal no_kind no_subject no_capability) h in
      rw
        (none-latest (passes_check ops later (system_key kind subject capability)) done.1.grants (
          All-imp (IsGone ops (system_filter kind subject capability)) _ done.1.grants
            (λ r held. gone_fails later kind subject capability r no_capability held) gone))
        refl
