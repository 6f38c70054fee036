-- ===== src/Permissions/Stored.antt =====
-- Settings that are stored and read (crates/hom-brain/src/services/permissions.rs): what
-- `load_state` reads of the local roots, and what a parameter of a request is.
use hom_local.Prelude.{
  String, false, List, [], ◌∷◌, ◌≡◌, refl, sym, ap, ◌∙◌, ok, inl, inr, Bool-cases, Result-cases,
  Option-cases, Option, some, str_eq, eq_iff, any_of, ok-injective,
}
use hom_local.Json.{Value}
use hom_local.Permissions.{is_blank, string_field, chain, first, option_or}
use hom_local.Json.Access.{as_str}
use hom_local.Permissions.Settings.{
  SettingOps, PermissionState, load_state, read_setting, read_string_array, load_switches,
  read_string, validate_profile,
}
use hom_local.Permissions.Profile.{put_setting, without}

pub read_setting-put :
    (key text : String) (settings : List (String × String))
    → read_setting (put_setting key text settings) key ≡ some text
unfolding read_setting
read_setting-put key text [] = rw ((eq_iff key key).1 refl) refl
read_setting-put key text ((k, v) ∷ settings) = elim (Bool-cases (str_eq k key)) [
  | inl same ↦ rw same (rw same refl)
  | inr other ↦ rw other (rw other (read_setting-put key text settings))
]

different : (s t : String) → str_eq t s ≡ false → str_eq s t ≡ false
different s t h = elim (Bool-cases (str_eq s t)) [
  | inl same ↦ cc (h, (eq_iff t s).1 (sym ((eq_iff s t).0 same)))
  | inr other ↦ other
]

some-injective : {s t : String} → Path (Option String) (some s) (some t) → s ≡ t
some-injective h = cc

pub not_without : (path : String) (roots : List String) → any_of path (without path roots) ≡ false
not_without path [] = refl
not_without path (root ∷ roots) = elim (Bool-cases (str_eq root path)) [
  | inl same ↦ rw same (not_without path roots)
  | inr other ↦ rw other (rw (different path root other) (not_without path roots))
]

pub load_state-roots :
    (ops : SettingOps) (settings : List (String × String)) (st : PermissionState)
    → load_state ops settings ≡ ok st
    → read_string_array ops settings "permissions.local_roots" ≡ ok st.local_roots
unfolding load_state
load_state-roots ops settings st h =
    elim (Result-cases (
      validate_profile (option_or "restricted" (read_string ops settings "permissions.profile")))) [
        | inr (e, failed) ↦ cc (rw failed at h)
        | inl (valid_value, valid) ↦ elim (Result-cases (load_switches ops settings)) [
          | inr (e, failed) ↦ cc (rw (valid, failed) at h)
          | inl (switches_value, switches) ↦
              elim (Result-cases (read_string_array ops settings "permissions.local_roots")) [
                | inr (e, failed) ↦ cc (rw (valid, switches, failed) at h)
                | inl (roots_value, roots) ↦
                    elim (Result-cases
                      (read_string_array ops settings "permissions.google_drive_grants")) [
                        | inr (e, failed) ↦ cc (rw (valid, switches, roots, failed) at h)
                        | inl (drives_value, drives) ↦
                            elim (Result-cases (
                              read_string_array ops settings
                                "permissions.local_filesystem_grants")) [
                                  | inr (e, failed) ↦
                                      cc (rw (valid, switches, roots, drives, failed) at h)
                                  | inl (files_value, files) ↦
                                      roots
                                      ∙ ap ok (
                                          ap (λ (t : PermissionState). t.local_roots)
                                            (ok-injective
                                              (rw (valid, switches, roots, drives, files) at h)))
                                ]
                      ]
              ]
        ]
      ]

pub string_field-not_blank :
    {N : Type 0} (params : Value N) (keys : List String) (s : String)
    → string_field params keys ≡ some s
    → is_blank s ≡ false
unfolding string_field
string_field-not_blank params keys s h = elim (Option-cases (chain (first params keys) as_str)) [
  | inl missing ↦ cc (rw missing at h)
  | inr (t, found) ↦ elim (Bool-cases (is_blank t)) [
    | inl blank ↦ cc (rw (found, blank) at h)
    | inr filled ↦
        let same : t ≡ s = some-injective (rw (found, filled) at h) in rw (sym same) filled
  ]
]
