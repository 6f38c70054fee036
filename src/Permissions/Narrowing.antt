-- ===== src/Permissions/Narrowing.antt =====
-- What settings pass without a confirmation (crates/hom-brain/src/services/permissions.rs,
-- `validate_permission_settings`).
use hom_local.Prelude.{
  String, Bool, true, false, List, [], ◌∷◌, ◌++◌, ◌≡◌, refl, ok, inl, inr, Bool-cases, Result-cases,
  some, All, All-append_right, any_of, str_eq, ok-injective, eq_iff,
}
use hom_local.Prelude.Int.{ltb_ℤ}
use hom_local.Json.{Value}
use hom_local.Json.Access.{as_str, as_bool}
use hom_local.Permissions.{is_blank}
use hom_local.Codes.{any_piece}
use hom_local.Permissions.Settings.{
  PermissionState, profile_rank, validate_profile, string_array_value, bool_value,
  validate_absolute_paths, has_new,
}
use hom_local.Permissions.Gate.{
  setting_broadens, collect_broadening, validate_permission_settings, none_of, switch_broadens,
  paths_broaden, profile_broadens, drives_broaden,
}

pub data Setting : Type 0 where
  profile : Setting
  network : Setting
  filesystem : Setting
  browser : Setting
  automation : Setting
  shell : Setting
  provider_key : Setting
  roots : Setting
  drives : Setting
  files : Setting

abbrev pub setting_key : Setting → String
setting_key profile = "permissions.profile"
setting_key network = "permissions.network_enabled"
setting_key filesystem = "permissions.filesystem_enabled"
setting_key browser = "permissions.browser_enabled"
setting_key automation = "permissions.automation_enabled"
setting_key shell = "permissions.shell_access"
setting_key provider_key = "permissions.provider_key_access"
setting_key roots = "permissions.local_roots"
setting_key drives = "permissions.google_drive_grants"
setting_key files = "permissions.local_filesystem_grants"

module _ {N : Type 0} where
  -- A switch that is turned on was on.
  abbrev WasOn : Value N → Bool → Type 0
  WasOn value current = as_bool value ≡ some true → current ≡ true

  -- Every text that is listed was there.
  abbrev WasListed : String → Value N → List String → Type 0
  WasListed key value current =
      (texts : List String) (t : String)
      → string_array_value value key ≡ ok texts
      → any_of t texts ≡ true
      → any_of t current ≡ true

  -- A setting that gives nothing that the state did not have.
  unfoldable pub Narrows : PermissionState → Setting → Value N → Type 0
  Narrows current profile value =
      (p : String)
      → as_str value ≡ some p
      → ltb_ℤ (profile_rank current.profile) (profile_rank p) ≡ false
  Narrows current network value = WasOn value current.network_enabled
  Narrows current filesystem value = WasOn value current.filesystem_enabled
  Narrows current browser value = WasOn value current.browser_enabled
  Narrows current automation value = WasOn value current.automation_enabled
  Narrows current shell value = WasOn value current.shell_access
  Narrows current provider_key value = WasOn value current.provider_key_access
  Narrows current roots value = WasListed "permissions.local_roots" value current.local_roots
  Narrows current drives value =
      WasListed "permissions.google_drive_grants" value current.google_drive_grants
  Narrows current files value =
      WasListed "permissions.local_filesystem_grants" value current.local_filesystem_grants

none_of-append : (keys : List String) (key : String) → none_of (keys ++ (key ∷ [])) ≡ false
none_of-append [] key = refl
none_of-append (k ∷ keys) key = refl

listed_before :
    (texts current : List String) (t : String)
    → has_new texts current ≡ false
    → any_of t texts ≡ true
    → any_of t current ≡ true
listed_before [] current t old there = cc
listed_before (u ∷ texts) current t old there = elim (Bool-cases (str_eq t u)) [
  | inl same ↦ elim (Bool-cases (any_of u current)) [
    | inl listed ↦ rw ((eq_iff t u).0 same) listed
    | inr new ↦ cc (rw new at old)
  ]
  | inr other ↦ elim (Bool-cases (any_of u current)) [
    | inl listed ↦ listed_before texts current t (rw listed at old) (rw other at there)
    | inr new ↦ cc (rw new at old)
  ]
]

module _ (is_absolute : String → Bool) {N : Type 0} where
  broadens_nothing :
      (current : PermissionState) (settings : List (String × Value N))
      (broadening last : List String)
      → collect_broadening is_absolute current settings broadening ≡ ok last
      → none_of last ≡ true
      → (none_of broadening ≡ true)
        × All (λ s. setting_broadens is_absolute current s.0 s.1 ≡ ok false) settings
  unfolding collect_broadening
  broadens_nothing current [] broadening last h nothing = (rw (ok-injective h) nothing, tt)
  broadens_nothing current (s ∷ settings) broadening last h nothing =
      elim (Result-cases (setting_broadens is_absolute current s.0 s.1)) [
        | inr (e, failed) ↦ cc (rw failed at h)
        | inl (true, broad) ↦
            let (kept, others) =
              broadens_nothing current settings (broadening ++ (s.0 ∷ [])) last (rw broad at h)
                nothing in
            cc (none_of-append broadening s.0)
        | inl (false, narrow) ↦
            let (kept, others) =
              broadens_nothing current settings broadening last (rw narrow at h) nothing in
            (kept, (narrow, others))
      ]

  switch_narrows :
      (key : String) (value : Value N) (current : Bool)
      → switch_broadens is_absolute key value current ≡ ok false
      → as_bool value ≡ some true
      → current ≡ true
  unfolding bool_value
  switch_narrows key value current h on = elim (Bool-cases current) [
    | inl was_on ↦ was_on
    | inr off ↦ cc (rw (on, off) at h)
  ]

  paths_narrow :
      (key : String) (value : Value N) (current texts : List String) (t : String)
      → paths_broaden is_absolute key value current ≡ ok false
      → string_array_value value key ≡ ok texts
      → any_of t texts ≡ true
      → any_of t current ≡ true
  paths_narrow key value current texts t h read there =
      elim (Result-cases (validate_absolute_paths is_absolute key texts)) [
        | inr (e, failed) ↦ cc (rw (read, failed) at h)
        | inl (u, absolute) ↦
            listed_before texts current t (ok-injective (rw (read, absolute) at h)) there
      ]

  drives_narrow :
      (key : String) (value : Value N) (current : PermissionState) (texts : List String)
      (t : String)
      → drives_broaden is_absolute key value current ≡ ok false
      → string_array_value value key ≡ ok texts
      → any_of t texts ≡ true
      → any_of t current.google_drive_grants ≡ true
  drives_narrow key value current texts t h read there =
      elim (Bool-cases (any_piece is_blank texts)) [
        | inl blank ↦ cc (rw (read, blank) at h)
        | inr none_blank ↦
            listed_before texts current.google_drive_grants t
              (ok-injective (rw (read, none_blank) at h)) there
      ]

  profile_narrows :
      (value : Value N) (current : PermissionState) (p : String)
      → profile_broadens is_absolute value current ≡ ok false
      → as_str value ≡ some p
      → ltb_ℤ (profile_rank current.profile) (profile_rank p) ≡ false
  profile_narrows value current p h read = elim (Result-cases (validate_profile p)) [
    | inr (e, failed) ↦ cc (rw (read, failed) at h)
    | inl (u, valid) ↦ ok-injective (rw (read, valid) at h)
  ]

  narrow_setting :
      (current : PermissionState) (x : Setting) (value : Value N)
      → setting_broadens is_absolute current (setting_key x) value ≡ ok false
      → Narrows current x value
  unfolding setting_broadens Narrows
  narrow_setting current profile value h = λ p. profile_narrows value current p h
  narrow_setting current network value h =
      switch_narrows "permissions.network_enabled" value current.network_enabled h
  narrow_setting current filesystem value h =
      switch_narrows "permissions.filesystem_enabled" value current.filesystem_enabled h
  narrow_setting current browser value h =
      switch_narrows "permissions.browser_enabled" value current.browser_enabled h
  narrow_setting current automation value h =
      switch_narrows "permissions.automation_enabled" value current.automation_enabled h
  narrow_setting current shell value h =
      switch_narrows "permissions.shell_access" value current.shell_access h
  narrow_setting current provider_key value h =
      switch_narrows "permissions.provider_key_access" value current.provider_key_access h
  narrow_setting current roots value h =
      λ texts t. paths_narrow "permissions.local_roots" value current.local_roots texts t h
  narrow_setting current drives value h =
      λ texts t. drives_narrow "permissions.google_drive_grants" value current texts t h
  narrow_setting current files value h = λ texts t.
      paths_narrow "permissions.local_filesystem_grants" value current.local_filesystem_grants texts
        t h

  collected_narrow :
      (current : PermissionState) (settings : List (String × Value N)) (u : Unit {0})
      → validate_permission_settings is_absolute current settings false ≡ ok u
      → All (λ s. setting_broadens is_absolute current s.0 s.1 ≡ ok false) settings
  unfolding validate_permission_settings
  collected_narrow current settings u h =
      elim (Result-cases (collect_broadening is_absolute current settings [])) [
        | inr (e, failed) ↦ cc (rw failed at h)
        | inl (last, collected) ↦ elim (Bool-cases (none_of last)) [
          | inr some_broad ↦ cc (rw (collected, some_broad) at h)
          | inl nothing ↦ (broadens_nothing current settings [] last collected nothing).1
        ]
      ]

  -- Settings that pass without a confirmation narrow the state, each of them: a profile is of no higher
  -- rank, a switch that is turned on was on, and every root or grant that is listed was there.
  pub unconfirmed-Narrows :
      (current : PermissionState) (front back : List (String × Value N)) (x : Setting)
      (value : Value N) (u : Unit {0})
      → validate_permission_settings is_absolute current
          (front ++ ((setting_key x, value) ∷ back))
          false
        ≡ ok u
      → Narrows current x value
  unconfirmed-Narrows current front back x value u h =
      narrow_setting current x value
        (All-append_right (λ s. setting_broadens is_absolute current s.0 s.1 ≡ ok false) front
          ((setting_key x, value) ∷ back)
          (collected_narrow current (front ++ ((setting_key x, value) ∷ back)) u h)).0
