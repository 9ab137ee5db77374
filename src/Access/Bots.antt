-- ===== src/Access/Bots.antt =====
-- src/api/services/grantRequestWithBots.ts: the grants for an approved request and its bots. What
-- the database does to one call of `grantForwardAccess` is an argument.
pub mod Attempts
pub mod Loop
pub mod Laws
use octo_docs_backend.Base.{
  ℕ, Bool, true, false, Option, none, some, List, [], ◌∷◌, ◌++◌, Text, text_eq, Result, ok, err,
  if◌then◌else◌,
}
use octo_docs_backend.Permission.Role.{Role}
use octo_docs_backend.Db.{Tables}
use octo_docs_backend.Grant.{grant_forward_access}

-- Where a call fails: nowhere, before the member row is written, or between that and the epoch.
pub data Fault : Type 0 where
  no_fault at_grant at_bump : Fault

-- The tables after a call of `grantForwardAccess`, and its final role; `none` where it throws.
unfoldable pub attempt : Fault → ℕ → Tables → Text → Text → ℕ → Text → Tables × Option Role
unfolding grant_forward_access
attempt at_grant unchanged db doc_id uid role_num granted_by = (db, none)
attempt no_fault unchanged db doc_id uid role_num granted_by =
    elim (grant_forward_access unchanged db doc_id uid role_num granted_by) [
      | err e ↦ (db, none)
      | ok g ↦ (g.tables, some g.final_role)
    ]
attempt at_bump unchanged db doc_id uid role_num granted_by =
    elim (grant_forward_access unchanged db doc_id uid role_num granted_by) [
      | err e ↦ (db, none)
      | ok g ↦
          if g.changed
          then (record g.tables { doc_meta = db.doc_meta }, none)
          else (g.tables, some g.final_role)
    ]

-- The variables of the loop over the bots.
pub record Progress : Type 0 where
  pub tables : Tables
  pub bots_succeeded : List Text
  pub bots_failed : List Text

-- `GrantWithBotsResult`, with the tables.
pub record GrantWithBots : Type 0 where
  pub requester_role : Role
  pub bots_succeeded : List Text
  pub bots_failed : List Text

module _ (faults : Text → Fault) (unchanged : ℕ) (doc_id uid : Text) (role_num : ℕ)
    (granted_by : Text) where
  -- The push after a try, by whether it threw.
  unfoldable pub note_bot : Progress → Text → Tables → Option Role → Progress
  note_bot p bot_uid db none = record p {
    tables = db;
    bots_failed = p.bots_failed ++ (bot_uid ∷ []);
  }
  note_bot p bot_uid db (some r) = record p {
    tables = db;
    bots_succeeded = p.bots_succeeded ++ (bot_uid ∷ []);
  }

  -- One round of the loop.
  unfoldable pub grant_bot : Progress → Text → Progress
  unfolding note_bot attempt text_eq
  grant_bot p bot_uid =
      let tried = attempt (faults bot_uid) unchanged p.tables doc_id bot_uid role_num granted_by in
      if text_eq bot_uid uid then p else note_bot p bot_uid tried.0 tried.1

  -- The loop.
  unfoldable pub grant_bots : Progress → List Text → Progress
  unfolding grant_bot
  grant_bots p [] = p
  grant_bots p (bot_uid ∷ bot_uids) = grant_bots (grant_bot p bot_uid) bot_uids

  -- `grantRequestWithBots`: the tables, and the result; `none` where the requester's grant throws.
  unfoldable pub grant_request_with_bots : Tables → List Text → Tables × Option GrantWithBots
  unfolding attempt grant_bots
  grant_request_with_bots db bot_uids =
      let requester = attempt (faults uid) unchanged db doc_id uid role_num granted_by in
      elim requester.1 [
        | none ↦ (requester.0, none)
        | some r ↦
            let p =
              grant_bots (record { tables = requester.0; bots_succeeded = []; bots_failed = [] })
                bot_uids in
            (
              p.tables,
              some (record {
                requester_role = r;
                bots_succeeded = p.bots_succeeded;
                bots_failed = p.bots_failed;
              }),
            )
      ]
