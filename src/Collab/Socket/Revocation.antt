-- ===== src/Collab/Socket/Revocation.antt =====
-- Watermarks and write rechecks of src/collab/server.ts over the life of a connection.
use octo_docs_backend.Base.{
  ℕ, ◌<◌, ◌≤◌, ◌≡◌, ◌↔◌, ◌⊎◌, true, false, some, List, [], ◌∷◌, Text, text_eq, text_eq_iff, All,
  if◌then◌else◌, arith,
}
use octo_docs_backend.Permission.Role.{ResolvedRole}
use octo_docs_backend.Collab.Socket.{
  Watermarks, watermark_of, put, or_else, set_epoch_watermark, Connection, cannot_write,
  before_handle_message, Event, advance, message, run,
}

watermark_of-put :
    (marks : Watermarks) (name : Text) (e : ℕ) (other : Text)
    → watermark_of (put marks name e) other
      ≡ (if text_eq name other then some e else watermark_of marks other)
unfolding watermark_of put
watermark_of-put [] name e other = ground arith
watermark_of-put ((n, d) ∷ marks) name e other = ground (
  arith,
  watermark_of-put marks name e other,
  text_eq_iff n name,
  text_eq_iff n other,
  text_eq_iff name other,
)

-- A watermark never falls, and after it is set for a name it is at least the epoch set.
pub set_epoch_watermark-ge :
    (marks : Watermarks) (name : Text) (e : ℕ) (other : Text)
    → (or_else (watermark_of marks other) 0
        ≤ or_else (watermark_of (set_epoch_watermark marks name e) other) 0)
      × (e ≤ or_else (watermark_of (set_epoch_watermark marks name e) name) 0)
unfolding set_epoch_watermark
set_epoch_watermark-ge marks name e other = ground (
  arith,
  watermark_of-put marks name e other,
  watermark_of-put marks name e name,
  text_eq_iff name other,
  text_eq_iff name name,
)

-- A message is let through exactly when the connection is not behind the watermark of its document
-- or the recheck finds a role that may write; one that is stopped leaves the connection read-only,
-- and one that is let through leaves it not behind.
pub before_handle_message-allowed_iff :
    (marks : Watermarks) (c : Connection) (found : ResolvedRole)
    → let v = before_handle_message marks c found in
      let mark = or_else (watermark_of marks c.document_name) c.permission_epoch in
      ((v.allowed ≡ true) ↔ ((mark ≤ c.permission_epoch) ⊎ (cannot_write found ≡ false)))
      × (((v.allowed ≡ false) × (v.connection.read_only ≡ true))
          ⊎ ((v.allowed ≡ true) × (mark ≤ v.connection.permission_epoch)))
unfolding before_handle_message
before_handle_message-allowed_iff marks c found =
    ((λ h. ground arith, λ h. ground arith), ground arith)

-- Every message of the events finds a role that may not write.
abbrev pub AreBarred : List Event → Type 0
AreBarred [] = Unit
AreBarred (advance name e ∷ events) = AreBarred events
AreBarred (message found ∷ events) = (cannot_write found ≡ true) × AreBarred events

abbrev IsBehind : Watermarks → Connection → Type 0
IsBehind marks c = c.permission_epoch < or_else (watermark_of marks c.document_name) 0

stopped :
    (marks : Watermarks) (c : Connection) (found : ResolvedRole)
    → IsBehind marks c
    → cannot_write found ≡ true
    → ((before_handle_message marks c found).allowed ≡ false)
      × IsBehind marks (before_handle_message marks c found).connection
unfolding before_handle_message
stopped marks c found behind h = ground arith

behind-run :
    (marks : Watermarks) (c : Connection) (events : List Event)
    → IsBehind marks c
    → AreBarred events
    → All (λ b. b ≡ false) (run marks c events)
unfolding run
behind-run marks c [] behind h = tt
behind-run marks c (advance name e ∷ events) behind h =
    behind-run (set_epoch_watermark marks name e) c events
      (omega (arith, set_epoch_watermark-ge marks name e c.document_name)) h
behind-run marks c (message found ∷ events) behind (barred, h) =
    let (refused, still) = stopped marks c found behind barred in
    (refused, behind-run marks (before_handle_message marks c found).connection events still h)

-- Once an epoch above the connection's is set for its document, no message of the connection is let
-- through as long as every recheck finds a role that may not write, whatever other epochs come in.
pub revoked-run :
    (marks : Watermarks) (c : Connection) (e : ℕ) (events : List Event)
    → c.permission_epoch < e
    → AreBarred events
    → All (λ b. b ≡ false) (run marks c (advance c.document_name e ∷ events))
unfolding run
revoked-run marks c e events newer h =
    behind-run (set_epoch_watermark marks c.document_name e) c events
      (omega (arith, set_epoch_watermark-ge marks c.document_name e c.document_name)) h
