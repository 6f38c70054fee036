-- ===== src/Permissions/Grants.antt =====
-- The table of grants and its handlers (crates/hom-brain/src/services/permissions.rs). A failed
-- transaction leaves the store as it is: an error carries no store. Where SQL leaves the order of
-- rows of the same second open, the model takes the table's order.
use hom_local.Prelude.{
  String, Bool, true, false, not, ◌&&◌, ◌||◌, List, [], ◌∷◌, ◌++◌, Option, none, some, str_eq,
  codes, Result, ok, ◌>>=◌, if◌then◌else◌,
}
use hom_local.Prelude.Int.{ℤ, ltb_ℤ}
use hom_local.Codes.{starts_with, any_piece}
use hom_local.Json.{Value}
use hom_local.Permissions.{
  RpcError, rpc_err, internal_error, permission_error, GrantRow, GrantInput, string_field,
  normalize_grant_kind, option_or, ok_or, system_grantee,
}

pub record GrantStore (L : Type 0) : Type 0 where
  pub grants : List GrantRow
  pub ledger : L

-- What a grant is looked up by; a missing capability counts as the empty one (`COALESCE`).
pub record GrantKey : Type 0 where
  pub grant_kind : String
  pub subject_id : String
  pub grantee_id : String
  pub capability_id : Option String

abbrev pub key_of : {N : Type 0} → GrantInput N → GrantKey
key_of grant = record {
  grant_kind = grant.grant_kind;
  subject_id = grant.subject_id;
  grantee_id = grant.grantee_id;
  capability_id = grant.capability_id;
}

unfoldable pub has_key : GrantKey → GrantRow → Bool
has_key key row =
    str_eq row.grant_kind key.grant_kind
    && (str_eq row.subject_id key.subject_id
        && (str_eq row.grantee_id key.grantee_id
            && str_eq (option_or "" row.capability_id) (option_or "" key.capability_id)))

abbrev pub is_active : GrantRow → Bool
is_active row = str_eq row.state "active"

-- `expires_at_s IS NULL OR expires_at_s > now`
unfoldable pub is_unexpired : ℤ → GrantRow → Bool
is_unexpired now row = elim row.expires_at_s [ none ↦ true | some expiry ↦ ltb_ℤ now expiry ]

-- `ORDER BY created_at_s DESC LIMIT 1` over the rows that pass a test
abbrev pub newer : GrantRow → Option GrantRow → Option GrantRow
newer r none = some r
newer r (some s) = if ltb_ℤ r.created_at_s s.created_at_s then some s else some r

unfoldable pub latest : (GrantRow → Bool) → List GrantRow → Option GrantRow
latest test [] = none
latest test (r ∷ rows) = let rest = latest test rows in if test r then newer r rest else rest

-- `UPDATE … WHERE …`
abbrev pub update : (GrantRow → GrantRow) → List GrantRow → List GrantRow
update change [] = []
update change (r ∷ rows) = change r ∷ update change rows

abbrev pub has_id : String → List GrantRow → Bool
has_id id rows = any_piece (λ r. str_eq r.id id) rows

abbrev pub row_by_id : String → List GrantRow → Option GrantRow
row_by_id id [] = none
row_by_id id (r ∷ rows) = let rest = row_by_id id rows in if str_eq r.id id then some r else rest

unfoldable pub grant_row_by_id_tx : String → List GrantRow → Result RpcError GrantRow
grant_row_by_id_tx id rows = ok_or (rpc_err internal_error "grant_row_lookup") (row_by_id id rows)

unfoldable pub supersede : ℤ → GrantKey → String → GrantRow → GrantRow
unfolding has_key
supersede now key scope_json row =
    if has_key key row && (is_active row && not (str_eq row.scope_json scope_json))
    then record row { state = "superseded"; updated_at_s = now }
    else row

-- What the row that is written gives an existing row of its id (`ON CONFLICT(id) DO UPDATE`)
unfoldable pub refresh : GrantRow → GrantRow → GrantRow
refresh written row =
    if str_eq row.id written.id
    then record row {
      scope_json = written.scope_json;
      state = "active";
      issuer = written.issuer;
      reason = written.reason;
      expires_at_s = written.expires_at_s;
      revoked_at_s = none;
      ledger_event_id = written.ledger_event_id;
      updated_at_s = written.updated_at_s;
    }
    else row

unfoldable pub upsert : GrantRow → List GrantRow → List GrantRow
unfolding refresh
upsert written rows =
    if has_id written.id rows then update (refresh written) rows else rows ++ (written ∷ [])

-- `ORDER BY created_at_s DESC`, of the rows that pass a test
abbrev pub insert_newest : GrantRow → List GrantRow → List GrantRow
insert_newest r [] = r ∷ []
insert_newest r (s ∷ rows) =
    let rest = insert_newest r rows in
    if ltb_ℤ r.created_at_s s.created_at_s then s ∷ rest else r ∷ s ∷ rows

abbrev pub newest_first : (GrantRow → Bool) → List GrantRow → List GrantRow
newest_first test [] = []
newest_first test (r ∷ rows) =
    let rest = newest_first test rows in if test r then insert_newest r rest else rest

-- The filters of a revocation: each that is given must hold.
pub record GrantFilter : Type 0 where
  pub id : Option String
  pub grant_kind : Option String
  pub subject_id : Option String
  pub grantee_id : Option String
  pub capability_id : Option String

abbrev is_none_or : Option String → String → Bool
is_none_or none value = true
is_none_or (some wanted) value = str_eq wanted value

abbrev pub is_none_or_some : Option String → Option String → Bool
is_none_or_some none value = true
is_none_or_some (some wanted) none = false
is_none_or_some (some wanted) (some value) = str_eq wanted value

unfoldable pub passes : GrantFilter → GrantRow → Bool
passes filter row =
    is_none_or filter.id row.id
    && (is_none_or filter.grant_kind row.grant_kind
        && (is_none_or filter.subject_id row.subject_id
            && (is_none_or filter.grantee_id row.grantee_id
                && is_none_or_some filter.capability_id row.capability_id)))

abbrev pub ids_of : List GrantRow → List String
ids_of [] = []
ids_of (r ∷ rows) = r.id ∷ ids_of rows

unfoldable pub active_grant_ids_tx : GrantFilter → List GrantRow → List String
unfolding passes
active_grant_ids_tx filter rows = ids_of (newest_first (λ r. is_active r && passes filter r) rows)

unfoldable pub set_revoked : ℤ → String → Option String → String → GrantRow → GrantRow
set_revoked now reason event id row =
    if str_eq row.id id
    then record row {
      state = "revoked";
      revoked_at_s = some now;
      reason = some reason;
      ledger_event_id = event;
      updated_at_s = now;
    }
    else row

-- A kind that is given is normalized (`transpose`).
abbrev optional_kind : Option String → Result RpcError (Option String)
optional_kind none = ok none
optional_kind (some kind) = do normalized ← normalize_grant_kind kind; ok (some normalized)

unfoldable pub grant_filter : {N : Type 0} → Value N → Result RpcError GrantFilter
unfolding string_field normalize_grant_kind
grant_filter params = do
  kind ← optional_kind (string_field params ("grant_kind" ∷ "grantKind" ∷ "kind" ∷ []))
  ok (record {
    id = string_field params ("id" ∷ "grant_id" ∷ "grantId" ∷ []);
    grant_kind = kind;
    subject_id = string_field params ("subject_id" ∷ "subjectId" ∷ "subject" ∷ []);
    grantee_id = string_field params ("grantee_id" ∷ "granteeId" ∷ "grantee" ∷ []);
    capability_id = string_field params ("capability_id" ∷ "capabilityId" ∷ "capability" ∷ []);
  })

-- `root.is_prefix` of the path, as texts
abbrev covers : String → GrantRow → Bool
covers path row = starts_with (codes path) (codes row.subject_id)

unfoldable pub has_filesystem_grant : ℤ → String → List GrantRow → Bool
unfolding is_unexpired
has_filesystem_grant now path rows =
    any_piece
      (λ r.
        (str_eq r.grant_kind "filesystem" && (is_active r && is_unexpired now r)) && covers path r)
      rows

unfoldable pub grant_history_exists : String → String → String → List GrantRow → Bool
unfolding has_key
grant_history_exists kind subject capability rows =
    any_piece
      (has_key (record {
        grant_kind = kind;
        subject_id = subject;
        grantee_id = system_grantee;
        capability_id = some capability;
      }))
      rows

unfoldable pub require_active_grant :
    ℤ → GrantKey → String → List GrantRow → Result RpcError GrantRow
unfolding has_key is_unexpired latest permission_error
require_active_grant now key message rows =
    ok_or (permission_error message)
      (latest (λ r. has_key key r && (is_active r && is_unexpired now r)) rows)

-- `list_grant_rows`, less the order of the list
abbrev pub listed : String → List GrantRow → List GrantRow
listed state [] = []
listed state (r ∷ rows) =
    let rest = listed state rows in
    if str_eq state "all" || str_eq r.state state then r ∷ rest else rest
