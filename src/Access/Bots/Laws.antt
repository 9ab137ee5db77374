-- ===== src/Access/Bots/Laws.antt =====
-- Who holds which role after the grants of src/api/services/grantRequestWithBots.ts.
use mathlib.Core.Path.{subst}
use mathlib.Core.Option.{some-injective}
use octo_docs_backend.Base.{
  ℕ, ◌≤◌, ◌≡◌, sym, ap, ◌∙◌, inl, inr, some, List, [], Text, Option-cases, All,
}
use octo_docs_backend.Permission.Role.{Role, role_rank}
use octo_docs_backend.Permission.Resolve.{resolve_role}
use octo_docs_backend.Db.{Tables}
use octo_docs_backend.Db.Meta.{DocMeta, get_by_doc_id}
use octo_docs_backend.Grant.Rising.{Rises, Rises-trans, resolve_role-Rises}
use octo_docs_backend.Access.Bots.{
  Fault, attempt, Progress, GrantWithBots, grant_bots, grant_request_with_bots,
}
use octo_docs_backend.Access.Bots.Attempts.{attempt-Rises}
use octo_docs_backend.Access.Bots.Loop.{
  IsDealt, IsRaised, later-IsRaised, tried-IsRaised, grant_bots-IsEnd, grant_bots-Rises,
}

module _ (faults : Text → Fault) (unchanged : ℕ) (d uid : Text) (n : ℕ) (by : Text) where
  abbrev start : Tables → Progress
  start db = record { tables = db; bots_succeeded = []; bots_failed = [] }

  abbrev report : Role → Progress → GrantWithBots
  report r p = record {
    requester_role = r;
    bots_succeeded = p.bots_succeeded;
    bots_failed = p.bots_failed;
  }

  -- On a stored document, when the requester's own grant goes through, the requester and every bot
  -- reported as granted resolve afterwards to at least the granted role, whatever failed on the
  -- way, and the two lists of the report deal out, in order, all carried bots but the requester.
  pub grant_request_reports :
      (db : Tables) (bots : List Text) (m : DocMeta) (out : GrantWithBots)
      → get_by_doc_id db.doc_meta d ≡ some m
      → (grant_request_with_bots faults unchanged d uid n by db bots).1 ≡ some out
      → let after = (grant_request_with_bots faults unchanged d uid n by db bots).0 in
        IsRaised d n after uid
        × All (IsRaised d n after) out.bots_succeeded
        × IsDealt uid bots out.bots_succeeded out.bots_failed
  unfolding grant_request_with_bots
  grant_request_reports db bots m out s h =
      elim (Option-cases ((attempt (faults uid) unchanged db d uid n by).1)) [
        | inl f ↦ cc (rw (f, grant_request_with_bots) at h)
        | inr (r, f) ↦
            let first = (attempt (faults uid) unchanged db d uid n by).0 in
            let (m', s', _) = (attempt-Rises unchanged d n by (faults uid) db uid).owners d m s in
            let e = grant_bots-IsEnd faults unchanged d uid n by (start first) bots m' s' in
            let end = grant_bots faults unchanged d uid n by (start first) bots in
            let found : some (report r end) ≡ some out = rw (f, grant_request_with_bots) at h in
            let same : report r end ≡ out = some-injective (report r end) out found in
            let dealt : IsDealt uid bots end.bots_succeeded end.bots_failed =
              subst (λ (x : List Text × List Text). IsDealt uid bots x.0 x.1)
                (λ i. (sym e.more_succeeded i, sym e.more_failed i)) e.dealt in
            rw (f, grant_request_with_bots)
              (
                later-IsRaised faults unchanged d uid n by first end.tables uid e.rises
                    (tried-IsRaised faults unchanged d uid n by db uid m r s f),
                subst (All (IsRaised d n end.tables))
                    (sym e.more_succeeded ∙ ap (λ o. o.bots_succeeded) same) e.raised,
                subst (λ o. IsDealt uid bots o.bots_succeeded o.bots_failed) same dealt,
              )
      ]

  grant_request-Rises :
      (db : Tables) (bots : List Text)
      → Rises db (grant_request_with_bots faults unchanged d uid n by db bots).0
  unfolding grant_request_with_bots
  grant_request-Rises db bots =
      let first = attempt (faults uid) unchanged db d uid n by in
      let up = attempt-Rises unchanged d n by (faults uid) db uid in
      elim (Option-cases (first.1)) [
        | inl f ↦ rw (f, grant_request_with_bots) up
        | inr (r, f) ↦
            rw (f, grant_request_with_bots)
              (Rises-trans db first.0
                (grant_bots faults unchanged d uid n by (start first.0) bots).tables up
                (grant_bots-Rises faults unchanged d uid n by (start first.0) bots))
      ]

  -- Whatever the database does to the calls, nobody resolves to a lower role on any document after
  -- the grants of an approved request.
  pub grant_request-never_lowers :
      (db : Tables) (bots : List Text) (doc_id user : Text)
      → role_rank (resolve_role db user doc_id)
        ≤ role_rank (
            resolve_role
              (grant_request_with_bots faults unchanged d uid n by db bots).0
              user
              doc_id)
  grant_request-never_lowers db bots doc_id user =
      resolve_role-Rises db (grant_request_with_bots faults unchanged d uid n by db bots).0 user
        doc_id (grant_request-Rises db bots)
