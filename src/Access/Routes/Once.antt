-- ===== src/Access/Routes/Once.antt =====
-- Runs of the handlers of src/api/routes/accessRequests.ts.
use mathlib.Core.Path.{subst}
use octo_docs_backend.Base.{
  ℕ, ◌+◌, ◌≤◌, ◌≡◌, ◌≢◌, refl, sym, Bool, true, false, not, ◌&&◌, inl, inr, Option, List, [], ◌∷◌,
  Text, text_eq, text_eq_iff, Result-cases, Option-cases, Bool-cases, if◌then◌else◌, arith, ◌==◌,
}
use octo_docs_backend.Permission.Role.{Role, role, role_at_least, role_to_number}
use octo_docs_backend.Permission.Resolve.{resolve_role}
use octo_docs_backend.BotUids.{Value, parse_request_bot_uids}
use octo_docs_backend.Db.Meta.{get_by_doc_id}
use octo_docs_backend.Db.Request.{submit}
use octo_docs_backend.Db.Request.Laws.{IsClosed, decide-IsClosed, decide-keeps, submit-keeps}
use octo_docs_backend.Access.Bots.{Fault}
use octo_docs_backend.Access.Routes.{
  State, Supplied, Answer, requested_role, all_owned, is_nil, reason_of,
}
use octo_docs_backend.Access.Routes.Submission.{
  submit_checked, submit_body, submit_request, submit_write,
}
use octo_docs_backend.Access.Routes.Decision.{approve, deny}
use octo_docs_backend.Access.Routes.Laws.{
  is_settled, IsDecision, unmoved, moved, approve-IsDecision, deny-IsDecision,
}

-- A request to one of the three handlers that write, with what the services answer to it.
pub data Call : Type 0 where
  submission : List Text → Text → Text → Text → Supplied → Supplied → Value → Text → Call
  approval : (Text → Fault) → Text → Bool → Text → Text → Text → Supplied → Call
  denial : Text → Bool → Text → Text → Text → Call

-- Whether the call decides the request.
unfoldable pub decides : Text → Text → Call → Bool
unfolding text_eq
decides d id (submission owned uid doc_id space_id supplied reason bots candidate_id) = false
decides d id (approval faults uid is_bot doc_id space_id request_id supplied) =
    text_eq doc_id d && text_eq request_id id
decides d id (denial uid is_bot doc_id space_id request_id) =
    text_eq doc_id d && text_eq request_id id

-- No submission draws the id.
abbrev pub Avoids : Text → List Call → Type 0
Avoids id [] = Unit
Avoids id (submission owned uid doc_id space_id supplied reason bots candidate_id ∷ calls) =
    (candidate_id ≢ id) × Avoids id calls
Avoids id (approval faults uid is_bot doc_id space_id request_id supplied ∷ calls) = Avoids id calls
Avoids id (denial uid is_bot doc_id space_id request_id ∷ calls) = Avoids id calls

module _ (json_parse : Text → Option Value) (is_space_member : Text → Text → Text → Bool)
    (unchanged : ℕ) where
  unfoldable pub handle : State → Call → State × Answer
  unfolding submit_request approve deny
  handle s (submission owned uid doc_id space_id supplied reason bots candidate_id) =
      submit_request json_parse owned s uid doc_id space_id supplied reason bots candidate_id
  handle s (approval faults uid is_bot doc_id space_id request_id supplied) =
      approve json_parse is_space_member unchanged faults s uid is_bot doc_id space_id request_id
        supplied
  handle s (denial uid is_bot doc_id space_id request_id) =
      deny json_parse is_space_member unchanged s uid is_bot doc_id space_id request_id

  -- How many calls report a decision of the request.
  unfoldable pub decisions : Text → Text → State → List Call → ℕ
  unfolding handle decides
  decisions d id s [] = 0
  decisions d id s (c ∷ calls) =
      let a = handle s c in
      (if decides d id c && is_settled a.1 then 1 else 0) + decisions d id a.0 calls

  -- What a submission does to the requests.
  data IsSubmission (s : State) (candidate : Text) (a : State × Answer) : Type 0 where
    kept : a.0 ≡ s → is_settled a.1 ≡ false → IsSubmission s candidate a
    wrote :
        (d u : Text) (n : ℕ) (reason : Text) (bots : List Text)
        → a.0.requests ≡ (submit json_parse d u n reason bots candidate s.requests).0
        → is_settled a.1 ≡ false
        → IsSubmission s candidate a

  submit_checked-IsSubmission :
      (owned : List Text) (s : State) (uid doc_id : Text) (r : Role) (reason : Text)
      (bots : List Text) (candidate : Text)
      → IsSubmission s candidate
          (submit_checked json_parse owned s uid doc_id r reason bots candidate)
  unfolding submit_checked
  submit_checked-IsSubmission owned s uid doc_id r reason bots candidate =
      elim (Bool-cases (is_nil bots && role_at_least (resolve_role s.tables uid doc_id) (role r))) [
        | inl e ↦ rw (e, submit_checked) (kept refl refl)
        | inr e ↦ elim (Bool-cases (all_owned owned bots)) [
          | inl o ↦
              rw (e, o, submit_checked)
                (unfold submit_write in wrote doc_id uid (role_to_number r) reason bots refl refl)
          | inr o ↦ rw (e, o, submit_checked) (kept refl refl)
        ]
      ]

  submit_body-IsSubmission :
      (owned : List Text) (s : State) (uid doc_id : Text) (supplied reason : Supplied)
      (bot_uids : Value) (candidate : Text)
      → IsSubmission s candidate
          (submit_body json_parse owned s uid doc_id supplied reason bot_uids candidate)
  unfolding submit_body
  submit_body-IsSubmission owned s uid doc_id supplied reason bot_uids candidate =
      elim (Option-cases (requested_role supplied)) [
        | inl e ↦ rw (e, submit_body) (kept refl refl)
        | inr (r, e) ↦ elim (Result-cases (parse_request_bot_uids bot_uids)) [
          | inl (x, f) ↦ rw (e, f, submit_body) (kept refl refl)
          | inr (bots, f) ↦
              rw (e, f, submit_body)
                (submit_checked-IsSubmission owned s uid doc_id r (reason_of reason) bots candidate)
        ]
      ]

  submit_request-IsSubmission :
      (owned : List Text) (s : State) (uid doc_id space_id : Text) (supplied reason : Supplied)
      (bot_uids : Value) (candidate : Text)
      → IsSubmission s candidate
          (submit_request json_parse owned s uid doc_id space_id supplied reason bot_uids candidate)
  unfolding submit_request
  submit_request-IsSubmission owned s uid doc_id space_id supplied reason bot_uids candidate =
      elim (Option-cases (get_by_doc_id s.tables.doc_meta doc_id)) [
        | inl e ↦ rw (e, submit_request) (kept refl refl)
        | inr (m, e) ↦ elim (Bool-cases (m.status == 0)) [
          | inl p ↦ rw (e, p, submit_request) (kept refl refl)
          | inr p ↦ elim (Bool-cases (not (text_eq m.space_id space_id))) [
            | inl q ↦ rw (e, p, q, submit_request) (kept refl refl)
            | inr q ↦ elim (Bool-cases (m.status == 2)) [
              | inl o ↦ rw (e, p, q, o, submit_request) (kept refl refl)
              | inr o ↦
                  rw (e, p, q, o, submit_request)
                    (submit_body-IsSubmission owned s uid doc_id supplied reason bot_uids candidate)
            ]
          ]
        ]
      ]

  -- A closed request stays closed, and an open one is closed by the call that decides it.
  kept-IsClosed :
      (d id doc_id request_id : Text) (s : State) (a : State × Answer)
      → IsDecision s doc_id request_id a
      → IsClosed d id s.requests
      → IsClosed d id a.0.requests
  kept-IsClosed d id doc_id request_id s a (unmoved e _) h =
      subst (λ x. IsClosed d id x.requests) (sym e) h
  kept-IsClosed d id doc_id request_id s a (moved n by o _ e) h =
      subst (IsClosed d id) (sym e) (decide-keeps doc_id request_id d id n by [] s.requests o h)

  now-IsClosed :
      (d id : Text) (s : State) (a : State × Answer)
      → IsDecision s d id a
      → is_settled a.1 ≡ true
      → IsClosed d id a.0.requests
  now-IsClosed d id s a (unmoved _ f) h = cc
  now-IsClosed d id s a (moved n by o _ e) h =
      subst (IsClosed d id) (sym e) (decide-IsClosed d id n by [] s.requests o)

  not_settled :
      (d id : Text) (s : State) (a : State × Answer)
      → IsDecision s d id a
      → IsClosed d id s.requests
      → is_settled a.1 ≡ false
  not_settled d id s a (unmoved _ f) h = f
  not_settled d id s a (moved n by o w e) h = cc

  submission-keeps :
      (d id candidate : Text) (s : State) (a : State × Answer)
      → IsSubmission s candidate a
      → candidate ≢ id
      → IsClosed d id s.requests
      → IsClosed d id a.0.requests
  submission-keeps d id candidate s a (kept e _) n h =
      subst (λ x. IsClosed d id x.requests) (sym e) h
  submission-keeps d id candidate s a (wrote e u k reason bots q _) n h =
      subst (IsClosed d id) (sym q)
        (submit-keeps json_parse e u k reason bots candidate d id s.requests n h)

  -- What a call does to a request that no submission draws the id of.
  record IsStep (d id : Text) (s : State) (a : State × Answer) (about : Bool) : Type 0 where
    stays : IsClosed d id s.requests → IsClosed d id a.0.requests
    silent : IsClosed d id s.requests → (about && is_settled a.1) ≡ false
    closes : (about && is_settled a.1) ≡ true → IsClosed d id a.0.requests

  decision-IsStep :
      (d id doc_id request_id : Text) (s : State) (a : State × Answer)
      → IsDecision s doc_id request_id a
      → IsStep d id s a (text_eq doc_id d && text_eq request_id id)
  decision-IsStep d id doc_id request_id s a h =
      elim (Bool-cases (text_eq doc_id d && text_eq request_id id)) [
        | inr e ↦ rw (e) (record {
          stays = kept-IsClosed d id doc_id request_id s a h;
          silent = λ _. refl;
          closes = λ q. cc;
        })
        | inl e ↦
            let p : doc_id ≡ d = ground (arith, e, text_eq_iff doc_id d) in
            let q : request_id ≡ id = ground (arith, e, text_eq_iff request_id id) in
            let k = subst (λ x. IsDecision s x id a) p (subst (λ x. IsDecision s doc_id x a) q h) in
            rw (e) (record {
              stays = kept-IsClosed d id doc_id request_id s a h;
              silent = not_settled d id s a k;
              closes = now-IsClosed d id s a k;
            })
      ]

  handle-IsStep :
      (d id : Text) (s : State) (c : Call) (calls : List Call)
      → Avoids id (c ∷ calls)
      → IsStep d id s (handle s c) (decides d id c) × Avoids id calls
  unfolding handle decides
  handle-IsStep d id s (submission owned uid doc_id space_id supplied reason bots candidate_id)
        calls (n, h) =
      let k =
        submit_request-IsSubmission owned s uid doc_id space_id supplied reason bots candidate_id in
      (
        record {
          stays = submission-keeps d id candidate_id s _ k n;
          silent = λ _. refl;
          closes = λ q. cc;
        },
        h,
      )
  handle-IsStep d id s (approval faults uid is_bot doc_id space_id request_id supplied) calls h = (
    decision-IsStep d id doc_id request_id s _ (
        approve-IsDecision json_parse is_space_member unchanged s uid faults is_bot doc_id space_id
          request_id supplied),
    h,
  )
  handle-IsStep d id s (denial uid is_bot doc_id space_id request_id) calls h = (
    decision-IsStep d id doc_id request_id s _ (
        deny-IsDecision json_parse is_space_member unchanged s uid is_bot doc_id space_id
          request_id),
    h,
  )

  closed-decisions :
      (d id : Text) (s : State) (calls : List Call)
      → Avoids id calls
      → IsClosed d id s.requests
      → decisions d id s calls ≡ 0
  unfolding decisions
  closed-decisions d id s [] h k = refl
  closed-decisions d id s (c ∷ calls) h k =
      let (w, rest) = handle-IsStep d id s c calls h in
      rw (w.silent k) (omega (arith, closed-decisions d id (handle s c).0 calls rest (w.stays k)))

  -- In any run of submissions, approvals and denials, at most one response reports a decision of a
  -- given request id, as long as no submission of the run draws that id as its new one.
  pub decided_once :
      (d id : Text) (s : State) (calls : List Call) → Avoids id calls → decisions d id s calls ≤ 1
  unfolding decisions
  decided_once d id s [] h = omega arith
  decided_once d id s (c ∷ calls) h =
      let (w, rest) = handle-IsStep d id s c calls h in
      elim (Bool-cases (decides d id c && is_settled (handle s c).1)) [
        | inl e ↦
            let z = closed-decisions d id (handle s c).0 calls rest (w.closes e) in
            rw (e, decisions) (omega (arith, z))
        | inr e ↦ rw (e, decisions) (omega (arith, decided_once d id (handle s c).0 calls rest))
      ]
