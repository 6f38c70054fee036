-- ===== src/Permissions/Roots.antt =====
-- What revoking a root leaves of it (crates/hom-brain/src/services/permissions.rs, `revoke_root`).
use mathlib.Core.Path.{subst}
use hom_local.Prelude.{
  String, false, List, [], ◌∷◌, ◌≡◌, ◌≢◌, ◌⊎◌, refl, ap, ok, err, inl, inr, Result-cases,
  Option-cases, some, str_eq, any_of, ok-injective,
}
use hom_local.Prelude.Int.{ℤ}
use hom_local.Json.{array}
use hom_local.Permissions.{
  RpcError, rpc_err, invalid_params, GrantRow, is_blank, string_field, permission_error,
  normalize_grant_kind,
}
use hom_local.Permissions.Grants.{require_active_grant}
use hom_local.Permissions.Handlers.{Store, Params}
use hom_local.Permissions.System.{revoke_system_grant, revoke_system_grant_if_present}
use hom_local.Permissions.Gone.{
  system_key, system_filter, system_params, grant_filter-system, revoked_cannot_check,
}
use hom_local.Permissions.Stored.{
  read_setting-put, not_without, load_state-roots, string_field-not_blank,
}
use hom_local.Permissions.Failures.{not_found, revoke_grants-error}
use hom_local.Permissions.Settings.{PermissionState, load_state, read_string_array}
use hom_local.Permissions.Sync.{revoke_if_present}
use hom_local.Permissions.Profile.{
  PermissionOps, State, Answer, put_setting, texts_value, without, persist_settings, left_roots,
  revoke_root,
}

abbrev pub path_keys : List String
path_keys = "path" ∷ "root" ∷ []

kind-normal : normalize_grant_kind "filesystem" ≡ ok "filesystem"
unfolding normalize_grant_kind
kind-normal = refl

kind-filled : is_blank "filesystem" ≡ false
unfolding is_blank
kind-filled = refl

capability-filled : is_blank "filesystem:root" ≡ false
unfolding is_blank
capability-filled = refl

module _ (ops : PermissionOps) where
  -- A list of texts that is written as JSON is read back.
  abbrev pub ReadsBack : List String → Type 0
  ReadsBack texts = ops.settings.parse_strings (ops.to_text (array (texts_value texts))) ≡ ok texts

  read_after_put :
      (roots : List String) (settings : List (String × String)) (st : PermissionState)
      → ReadsBack roots
      → load_state ops.settings
          (put_setting "permissions.local_roots" (ops.to_text (array (texts_value roots))) settings)
        ≡ ok st
      → roots ≡ st.local_roots
  unfolding read_string_array
  read_after_put roots settings st back loaded =
      let text = ops.to_text (array (texts_value roots)) in
      let read =
        load_state-roots ops.settings (put_setting "permissions.local_roots" text settings) st
          loaded in
      ok-injective (
        rw (read_string_array, read_setting-put "permissions.local_roots" text settings, back) at
          read)

  system_grant-error :
      (now : ℤ) (path : String) (s : State ops) (e : RpcError)
      → is_blank path ≡ false
      → revoke_system_grant ops.grants now "filesystem" path "filesystem:root" "local root revoked"
          s.store
        ≡ err e
      → str_eq e.message not_found ≡ false
  unfolding revoke_system_grant system_params
  system_grant-error now path s e filled =
      revoke_grants-error ops.grants now
        (system_params ops.grants "filesystem" path "filesystem:root") "local root revoked"
        "permissions.revoke_root" s.store
        (system_filter ops.grants "filesystem" path "filesystem:root") e
        (grant_filter-system ops.grants "filesystem" path "filesystem:root" kind-normal kind-filled
          filled capability-filled)

  -- A handler that returns has revoked the grant
  revoke_root-revoked :
      (now : ℤ) (params : Params ops.grants) (s t : State ops) (st : PermissionState)
      (path : String) (roots : List String)
      → is_blank path ≡ false
      → left_roots ops params s ≡ ok (path, roots)
      → revoke_root ops now params s ≡ (t, ok st)
      → (done : List GrantRow × Store ops.grants) × (revoke_system_grant ops.grants now "filesystem"
            path "filesystem:root" "local root revoked" s.store
          ≡ ok done)
  unfolding revoke_root revoke_if_present revoke_system_grant_if_present
  revoke_root-revoked now params s t st path roots filled left h =
      elim (Result-cases (
        revoke_system_grant ops.grants now "filesystem" path "filesystem:root" "local root revoked"
          s.store)) [
            | inl revoked ↦ revoked
            | inr (e, failed) ↦
                let end =
                  ap (λ (a : Answer ops). a.1)
                    (rw
                      (
                        revoke_root,
                        left,
                        revoke_if_present,
                        revoke_system_grant_if_present,
                        failed,
                        system_grant-error now path s e filled failed,
                      )
                      at h) in
                cc end
          ]

  revoke_root-fails :
      (now : ℤ) (params : Params ops.grants) (s t : State ops) (st : PermissionState) (e : RpcError)
      → left_roots ops params s ≡ err e
      → revoke_root ops now params s ≢ (t, ok st)
  unfolding revoke_root
  revoke_root-fails now params s t st e failed h =
      let end = ap (λ (a : Answer ops). a.1) (rw (revoke_root, failed) at h) in cc end

  -- What is left when the handler returns: the path, the roots without it, and the revocation that
  -- was made
  revoke_root-steps :
      (now : ℤ) (params : Params ops.grants) (s t : State ops) (st : PermissionState)
      (path : String) (roots : List String) (done : _)
      → left_roots ops params s ≡ ok (path, roots)
      → revoke_system_grant ops.grants now "filesystem" path "filesystem:root" "local root revoked"
          s.store
        ≡ ok done
      → revoke_root ops now params s ≡ (t, ok st)
      → (done.1 ≡ t.store)
        × (load_state ops.settings (
              put_setting "permissions.local_roots"
                (ops.to_text (array (texts_value roots)))
                s.settings)
            ≡ ok st)
  unfolding revoke_root persist_settings revoke_if_present revoke_system_grant_if_present
  revoke_root-steps now params s t st path roots done left revoked h =
      let end =
        rw (revoke_root, left, revoke_if_present, revoke_system_grant_if_present, revoked) at h in
      (ap (λ (a : Answer ops). a.0.store) end, ap (λ (a : Answer ops). a.1) end)

  left_roots-cases :
      (params : Params ops.grants) (s : State ops)
      → ((e : RpcError) × (left_roots ops params s ≡ err e))
        ⊎ ((path : String) × ((string_field params path_keys ≡ some path)
              × ((roots : List String) × ((left_roots ops params s ≡ ok (path, roots))
                    × (any_of path roots ≡ false)))))
  unfolding left_roots
  left_roots-cases params s = elim (Option-cases (string_field params path_keys)) [
    | inl missing ↦ inl (rpc_err invalid_params "root_path_required", rw missing refl)
    | inr (path, given) ↦ elim (Result-cases (load_state ops.settings s.settings)) [
      | inr (e, failed) ↦ inl (e, rw (given, failed) refl)
      | inl (current, loaded) ↦ inr (
        path,
        (
          given,
          (
            without path current.local_roots,
            (rw (given, loaded) refl, not_without path current.local_roots),
          ),
        ),
      )
    ]
  ]

  -- When the handler answers with a state, the root of its request is not among that state's roots,
  -- and no check of the system's grant of it passes at any time until one is created again. The
  -- list of the roots that are left is written as a text that serde_json reads back.
  pub revoke_root_revokes :
      (now later : ℤ) (params : Params ops.grants) (message : String) (s t : State ops)
      (st : PermissionState)
      → ((path : String) (roots : List String)
          → left_roots ops params s ≡ ok (path, roots)
          → ReadsBack roots)
      → revoke_root ops now params s ≡ (t, ok st)
      → (path : String) × ((string_field params path_keys ≡ some path)
          × ((any_of path st.local_roots ≡ false)
              × (require_active_grant later
                    (system_key ops.grants "filesystem" path "filesystem:root")
                    message
                    t.store.grants
                  ≡ err (permission_error message))))
  revoke_root_revokes now later params message s t st back h = elim (left_roots-cases params s) [
    | inl (e, failed) ↦ absurd (revoke_root-fails now params s t st e failed h)
    | inr (path, (given, (roots, (left, gone)))) ↦
        let filled = string_field-not_blank params path_keys path given in
        let (done, revoked) = revoke_root-revoked now params s t st path roots filled left h in
        let (store, loaded) = revoke_root-steps now params s t st path roots done left revoked h in
        (
          path,
          (
            given,
            (
              subst (λ r. any_of path r ≡ false)
                  (read_after_put roots s.settings st (back path roots left) loaded) gone,
              subst
                  (λ (u : Store ops.grants).
                    require_active_grant later
                      (system_key ops.grants "filesystem" path "filesystem:root") message u.grants
                    ≡ err (permission_error message))
                  store
                  (revoked_cannot_check ops.grants now later "filesystem" path "filesystem:root"
                    "local root revoked" message s.store done kind-normal kind-filled filled
                    capability-filled revoked),
            ),
          ),
        )
  ]
