-- ===== src/Collab/Socket.antt =====
-- src/collab/server.ts: the epoch watermark of a node and the recheck of each write on a socket.
pub mod Revocation
use octo_docs_backend.Base.{
  ℕ, Bool, true, false, not, ◌||◌, Option, none, some, List, [], ◌∷◌, Text, text_eq, ltb, leb,
  if◌then◌else◌,
}
use octo_docs_backend.Permission.Role.{ResolvedRole, no_role, role, writer, role_at_least}

-- `epochWatermark`, by document name.
abbrev pub Watermarks : Type 0
Watermarks = List (Text × ℕ)

unfoldable pub watermark_of : Watermarks → Text → Option ℕ
watermark_of [] name = none
watermark_of ((n, e) ∷ marks) name = if text_eq n name then some e else watermark_of marks name

-- `epochWatermark.set`.
unfoldable pub put : Watermarks → Text → ℕ → Watermarks
put [] name e = (name, e) ∷ []
put ((n, d) ∷ marks) name e = if text_eq n name then (n, e) ∷ marks else (n, d) ∷ put marks name e

-- `map.get(key) ?? other`.
abbrev pub or_else : Option ℕ → ℕ → ℕ
or_else none d = d
or_else (some e) d = e

-- `setEpochWatermark`.
unfoldable pub set_epoch_watermark : Watermarks → Text → ℕ → Watermarks
unfolding put watermark_of
set_epoch_watermark marks name epoch =
    if ltb (or_else (watermark_of marks name) 0) epoch then put marks name epoch else marks

-- The part of a connection that the hooks read and write.
pub record Connection : Type 0 where
  pub document_name : Text
  pub permission_epoch : ℕ
  pub read_only : Bool

-- The connection after a message, and whether the message is let through.
pub record Verdict : Type 0 where
  pub connection : Connection
  pub allowed : Bool

-- `role === 'none' || !roleAtLeast(role, 'writer')`.
unfoldable pub cannot_write : ResolvedRole → Bool
unfolding role_at_least
cannot_write no_role = true
cannot_write (role r) = not (role_at_least (role r) (role writer))

-- `beforeHandleMessage` of a client connection; `found` is what the recheck finds if it is asked.
unfoldable pub before_handle_message : Watermarks → Connection → ResolvedRole → Verdict
unfolding watermark_of cannot_write
before_handle_message marks c found =
    let watermark = or_else (watermark_of marks c.document_name) c.permission_epoch in
    if leb watermark c.permission_epoch
    then record { connection = c; allowed = true }
    else if cannot_write found
    then record { connection = record c { read_only = true }; allowed = false }
    else record { connection = record c { permission_epoch = watermark }; allowed = true }

-- What happens to a node, as one connection sees it.
pub data Event : Type 0 where
  advance : Text → ℕ → Event  -- an invalidation, with the epoch read for it
  message : ResolvedRole → Event  -- a message, with the role at that time

-- The watermarks, the connection, and whether each message was let through.
unfoldable pub run : Watermarks → Connection → List Event → List Bool
unfolding set_epoch_watermark before_handle_message
run marks c [] = []
run marks c (advance name epoch ∷ events) = run (set_epoch_watermark marks name epoch) c events
run marks c (message found ∷ events) =
    let v = before_handle_message marks c found in v.allowed ∷ run marks v.connection events
