-- ===== src/Access/Routes.antt =====
-- src/api/routes/accessRequests.ts: the four handlers. A request's body is its parsed fields, the
-- bots that the caller owns in the document's space are the identity service's answer, and the cards
-- that are sent afterwards, best effort, are left out.
pub mod Submission
pub mod Decision
pub mod Laws
pub mod Once
pub mod Granted
use octo_docs_backend.Base.{
  ℕ, Bool, true, false, not, ◌&&◌, Option, none, some, List, [], ◌∷◌, map, Text, text_eq, codes,
  take, ◌==◌, Result, ok, err, if◌then◌else◌,
}
use octo_docs_backend.Permission.Role.{
  Role, ResolvedRole, reader, commenter, writer, admin, role, role_from_number, role_to_number,
  role_at_least, is_access_request_role, role_name,
}
use octo_docs_backend.Permission.Resolve.{
  Caller, Guarded, status, passed, resolve_role, require_doc_role,
}
use octo_docs_backend.BotUids.{Value, has, parse_request_bot_uids}
use octo_docs_backend.Collab.Token.{role_of_name}
use octo_docs_backend.Db.{Tables}
use octo_docs_backend.Db.Meta.{DocMeta, get_by_doc_id}
use octo_docs_backend.Db.Request.{
  RequestRow, ReadRow, request_status_pending, request_status_approved, request_status_denied,
  submit, decide, list_by_status, get_by_request_id,
}
use octo_docs_backend.Access.Bots.{Fault, GrantWithBots, grant_request_with_bots}

-- The tables that the handlers read and write.
pub record State : Type 0 where
  pub tables : Tables
  pub requests : List RequestRow

-- A field of the body: missing, a text, or something else.
pub data Supplied : Type 0 where
  absent other : Supplied
  named : Text → Supplied

-- The responses; `failed` is a handler that throws.
pub data Answer : Type 0 where
  refused : ℕ → Answer
  failed denied : Answer
  already_granted : ResolvedRole → Answer
  created : Text → Answer
  granted : Role → Option (List Text × List Text) → Answer
  items : List (Text × Text × Role × Text × List Text) → Answer

-- `isAccessRequestRole`, which narrows a text to a role.
unfoldable pub access_role : Text → Option Role
unfolding is_access_request_role role_of_name
access_role v = if is_access_request_role v then role_of_name v else none

-- `isAccessRequestRole` of a role.
abbrev pub below_admin : Option Role → Option Role
below_admin (some reader) = some reader
below_admin (some commenter) = some commenter
below_admin (some writer) = some writer
below_admin _ = none

-- The local `roleName`; `none` where it throws.
unfoldable pub stored_role : ℕ → Option Role
unfolding role_from_number
stored_role n = below_admin (role_from_number n)

-- `typeof reasonRaw === 'string' ? reasonRaw.slice(0, 512) : ''`.
abbrev pub reason_of : Supplied → Text
reason_of (named t) = take 512 t
reason_of _ = []

-- The requested role, `reader` where there is none.
unfoldable pub requested_role : Supplied → Option Role
unfolding access_role
requested_role absent = some reader
requested_role (named v) = access_role v
requested_role other = none

-- `requestedBotUids.every((b) => owned.has(b))`.
unfoldable pub all_owned : List Text → List Text → Bool
unfolding has
all_owned owned [] = true
all_owned owned (b ∷ bots) = has owned b && all_owned owned bots

abbrev pub is_nil : List Text → Bool
is_nil [] = true
is_nil (x ∷ xs) = false

-- The caller that the handlers pass to the guard, which has no token.
abbrev pub caller_of : Bool → Caller
caller_of is_bot = record { is_bot = is_bot; token = none }
