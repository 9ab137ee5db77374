-- ===== src/Grant.antt =====
-- src/api/services/grantForward.ts: the forward grant.
pub mod Laws
pub mod Rising
use octo_docs_backend.Base.{
  ℕ, Bool, true, false, Option, none, some, Text, if◌then◌else◌, Result, ok, err,
}
use octo_docs_backend.Permission.Role.{
  Role, ResolvedRole, no_role, role, admin, role_from_number, role_at_least,
}
use octo_docs_backend.Permission.Resolve.{resolve_role}
use octo_docs_backend.Db.{Tables}
use octo_docs_backend.Db.Meta.{bump_epoch}
use octo_docs_backend.Db.Member.{upsert_grant_max}

-- `GrantForwardResult`, with the tables and the epoch that is published on a change.
pub record Granted : Type 0 where
  pub tables : Tables
  pub final_role : Role
  pub changed : Bool
  pub epoch : Option ℕ

-- `Error('invalid forward role …')`.
pub data GrantError : Type 0 where
  invalid_forward_role : GrantError

-- `roleAtLeast(current, granted) ? (current as Role) : granted`.
unfoldable pub final_of : ResolvedRole → Role → Role
unfolding role_at_least
final_of no_role granted = granted
final_of (role current) granted =
    if role_at_least (role current) (role granted) then current else granted

-- The writes for a user who is neither owner nor admin. `unchanged` is what the driver reports as
-- affected rows for a row that keeps its values.
unfoldable pub grant_below_admin :
    ℕ → Tables → Text → Text → ℕ → Text → ResolvedRole → Role → Granted
unfolding final_of
grant_below_admin unchanged db doc_id uid role_num granted_by current granted =
    let (members, changed) =
      upsert_grant_max unchanged doc_id uid role_num granted_by db.doc_member in
    let (metas, epoch) = bump_epoch db.doc_meta doc_id in
    record {
      tables =
          if changed
          then record db { doc_member = members; doc_meta = metas }
          else record db { doc_member = members };
      final_role = final_of current granted;
      changed = changed;
      epoch = if changed then some epoch else none;
    }

-- `current === 'admin'`.
abbrev pub is_admin : ResolvedRole → Bool
is_admin (role admin) = true
is_admin _ = false

-- The grant of a role that may be forwarded.
unfoldable pub grant_role : ℕ → Tables → Text → Text → ℕ → Text → Role → Granted
unfolding grant_below_admin
grant_role unchanged db doc_id uid role_num granted_by granted =
    let current = resolve_role db uid doc_id in
    if is_admin current
    then record { tables = db; final_role = admin; changed = false; epoch = none }
    else grant_below_admin unchanged db doc_id uid role_num granted_by current granted

-- `grantForwardAccess`.
unfoldable pub grant_forward_access :
    ℕ → Tables → Text → Text → ℕ → Text → Result GrantError Granted
unfolding grant_role
grant_forward_access unchanged db doc_id uid role_num granted_by =
    elim (role_from_number role_num) [
      | none ↦ err invalid_forward_role
      | some granted ↦
          if is_admin (role granted)
          then err invalid_forward_role
          else ok (grant_role unchanged db doc_id uid role_num granted_by granted)
    ]
