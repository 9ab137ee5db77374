-- ===== src/Access/Routes/Laws.antt =====
-- Decisions of src/api/routes/accessRequests.ts.
use octo_docs_backend.Base.{
  ℕ, ◌≡◌, ◌≢◌, refl, Bool, true, false, ◌⊎◌, inl, inr, Option, none, some, [], Text, Result-cases,
  Bool-cases, arith,
}
use octo_docs_backend.Permission.Role.{Role, admin}
use octo_docs_backend.Permission.Resolve.{Guarded, status, passed, require_doc_role}
use octo_docs_backend.BotUids.{Value}
use octo_docs_backend.Db.Request.{
  ReadRow, request_status_pending, request_status_approved, request_status_denied, decide, any_open,
  get_by_request_id,
}
use octo_docs_backend.Access.Bots.{Fault}
use octo_docs_backend.Access.Routes.{State, Supplied, Answer, denied, granted, caller_of}
use octo_docs_backend.Access.Routes.Decision.{
  approved_role, approve_role, approve_found, approve, deny_found, deny,
}

-- The responses that report a decision.
abbrev pub is_settled : Answer → Bool
is_settled (granted r bots) = true
is_settled denied = true
is_settled _ = false

-- What a handler of decisions makes of a request: nothing, or the move of a pending one.
pub data IsDecision (s : State) (doc_id request_id : Text) (a : State × Answer) : Type 0 where
  unmoved : a.0 ≡ s → is_settled a.1 ≡ false → IsDecision s doc_id request_id a
  moved :
      (n : ℕ) (by : Text)
      → n ≢ request_status_pending
      → any_open doc_id request_id s.requests ≡ true
      → a.0.requests ≡ (decide doc_id request_id n by [] s.requests).0
      → IsDecision s doc_id request_id a

Guarded-cases : (g : Guarded) → ((n : ℕ) × (g ≡ status n)) ⊎ ((m : _) × (r : _) × (g ≡ passed m r))
Guarded-cases (status n) = inl (n, refl)
Guarded-cases (passed m r) = inr (m, r, refl)

module _ (json_parse : Text → Option Value) (is_space_member : Text → Text → Text → Bool)
    (unchanged : ℕ) (s : State) (uid : Text) where
  approve_role-IsDecision :
      (faults : Text → Fault) (meta_id doc_id request_id : Text) (request : ReadRow) (r : Role)
      → IsDecision s doc_id request_id (
          approve_role json_parse is_space_member unchanged faults s uid meta_id doc_id request_id
            request r)
  unfolding approve_role
  approve_role-IsDecision faults meta_id doc_id request_id request r =
      elim (Bool-cases ((decide doc_id request_id request_status_approved uid [] s.requests).1)) [
        | inl e ↦
            rw (e, approve_role)
              (moved request_status_approved uid (λ q. omega (arith, q)) (unfold decide in e) refl)
        | inr e ↦ rw (e, approve_role) (unmoved refl refl)
      ]

  approve_found-IsDecision :
      (faults : Text → Fault) (meta_id doc_id request_id : Text) (supplied : Supplied)
      (found : Option ReadRow)
      → IsDecision s doc_id request_id (
          approve_found json_parse is_space_member unchanged faults s uid meta_id doc_id request_id
            supplied found)
  unfolding approve_found
  approve_found-IsDecision faults meta_id doc_id request_id supplied none = unmoved refl refl
  approve_found-IsDecision faults meta_id doc_id request_id supplied (some request) =
      elim (Result-cases (approved_role json_parse supplied request)) [
        | inl (n, e) ↦ rw (e, approve_found) (unmoved refl refl)
        | inr (none, e) ↦ rw (e, approve_found) (unmoved refl refl)
        | inr (some r, e) ↦
            rw (e, approve_found)
              (approve_role-IsDecision faults meta_id doc_id request_id request r)
      ]

  pub approve-IsDecision :
      (faults : Text → Fault) (is_bot : Bool) (doc_id space_id request_id : Text)
      (supplied : Supplied)
      → IsDecision s doc_id request_id (
          approve json_parse is_space_member unchanged faults s uid is_bot doc_id space_id
            request_id supplied)
  unfolding approve
  approve-IsDecision faults is_bot doc_id space_id request_id supplied =
      elim (Guarded-cases
        (require_doc_role is_space_member s.tables uid doc_id space_id admin (caller_of is_bot))) [
          | inl (n, e) ↦ rw (e, approve) (unmoved refl refl)
          | inr (m, r, e) ↦
              rw (e, approve)
                (approve_found-IsDecision faults m.doc_id doc_id request_id supplied
                  (get_by_request_id json_parse doc_id request_id s.requests))
        ]

  deny_found-IsDecision :
      (doc_id request_id : Text) (found : Option ReadRow)
      → IsDecision s doc_id request_id
          (deny_found json_parse is_space_member unchanged s uid doc_id request_id found)
  unfolding deny_found
  deny_found-IsDecision doc_id request_id none = unmoved refl refl
  deny_found-IsDecision doc_id request_id (some request) =
      elim (Bool-cases ((decide doc_id request_id request_status_denied uid [] s.requests).1)) [
        | inl e ↦
            rw (e, deny_found)
              (moved request_status_denied uid (λ q. omega (arith, q)) (unfold decide in e) refl)
        | inr e ↦ rw (e, deny_found) (unmoved refl refl)
      ]

  pub deny-IsDecision :
      (is_bot : Bool) (doc_id space_id request_id : Text)
      → IsDecision s doc_id request_id
          (deny json_parse is_space_member unchanged s uid is_bot doc_id space_id request_id)
  unfolding deny
  deny-IsDecision is_bot doc_id space_id request_id =
      elim (Guarded-cases
        (require_doc_role is_space_member s.tables uid doc_id space_id admin (caller_of is_bot))) [
          | inl (n, e) ↦ rw (e, deny) (unmoved refl refl)
          | inr (m, r, e) ↦
              rw (e, deny)
                (deny_found-IsDecision doc_id request_id
                  (get_by_request_id json_parse doc_id request_id s.requests))
        ]
