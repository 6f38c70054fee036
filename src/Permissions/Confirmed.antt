-- ===== src/Permissions/Confirmed.antt =====
-- No grant is broadened without a confirmation (crates/hom-brain/src/services/permissions.rs,
-- `grants_create`).
use hom_local.Prelude.{String, Bool, true, false, ◌≡◌, ok, err, inl, inr, Bool-cases, Result-cases}
use hom_local.Prelude.Int.{ℤ}
use hom_local.Codes.{any_piece}
use hom_local.Json.{canonical_json}
use hom_local.Permissions.{GrantOps, GrantRow, confirmation_present, grant_input, is_blank}
use hom_local.Permissions.Grants.{key_of}
use hom_local.Permissions.Handlers.{
  Input, Store, Params, is_current, grant_is_broadening, grants_create,
}

module _ (ops : GrantOps) where
  -- Whether the grant that is asked for is there already: active, not expired, with the same key
  -- and the same scope.
  unfoldable pub is_there : ℤ → Input ops → Store ops → Bool
  is_there now grant s = elim (canonical_json ops.serde grant.scope) [
    | err e ↦ false
    | ok scope_json ↦ any_piece (is_current ops now (key_of grant) scope_json) s.grants
  ]

  -- A request without a confirmation that creates or refreshes a grant asks for a grant that is there
  -- already.
  pub unconfirmed_is_there :
      (now : ℤ) (id : String) (params : Params ops) (s : Store ops) (done : GrantRow × Store ops)
      → confirmation_present params ≡ false
      → grants_create ops now id params s ≡ ok done
      → (grant : Input ops) × ((grant_input ops params ≡ ok grant) × (is_there now grant s ≡ true))
  unfolding grants_create grant_is_broadening is_there
  unconfirmed_is_there now id params s done unconfirmed h =
      elim (Result-cases (grant_input ops params)) [
        | inr e ↦ cc (rw e.1 at h)
        | inl g ↦ elim (Bool-cases (is_blank g.0.reason)) [
          | inl blank ↦ cc (rw (g.1, blank) at h)
          | inr reason ↦ elim (Result-cases (canonical_json ops.serde g.0.scope)) [
            | inr e ↦ cc (rw (g.1, reason, e.1) at h)
            | inl scope ↦
                elim (Bool-cases (any_piece (is_current ops now (key_of g.0) scope.0) s.grants)) [
                  | inl there ↦ (g.0, (g.1, rw (is_there, scope.1) there))
                  | inr missing ↦ cc (rw (g.1, reason, scope.1, missing, unconfirmed) at h)
                ]
          ]
        ]
      ]
