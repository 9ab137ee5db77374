-- ===== src/Collab/Handshake/Laws.antt =====
-- The handshake of src/collab/authenticate.ts for stale, fresh and newly issued tokens.
use mathlib.Core.Option.{some-injective}
use mathlib.Core.Path.{subst}
use octo_docs_backend.Base.{
  ℕ, ◌<◌, ◌≤◌, ◌≡◌, refl, sym, ap, ◌∙◌, ◌≢◌, ◌↔◌, inl, inr, Bool, true, false, Option, some, Text,
  text_eq_iff, Option-cases, Result-cases, ok, err, arith,
}
use octo_docs_backend.Permission.Role.{Role, ResolvedRole, no_role, role, writer, role_at_least}
use octo_docs_backend.Permission.Name.{ParsedName, parse_document_name}
use octo_docs_backend.Permission.Resolve.{
  consistent_row, resolve_role, resolve_doc_meta_by_name, recheck_current_role,
}
use octo_docs_backend.Permission.Share.{effective_role}
use octo_docs_backend.Db.{Tables}
use octo_docs_backend.Db.Meta.{
  DocMeta, get_by_doc_id, get_by_document_name, get_epoch_by_document_name,
}
use octo_docs_backend.Collab.Token.{Claims, normal, sign_payload, verify_payload, verify-sign}
use octo_docs_backend.Collab.Issue.{IdentityService, Issued, issued, issue_collab_token}
use octo_docs_backend.Collab.Issue.Laws.{issue-IsGrounded}
use octo_docs_backend.Collab.Handshake.{
  unauthorized, forbidden, Admitted, member_claim, admit, is_read_only, authenticate_epoch,
  authenticate,
}

-- A role is admitted read-only exactly when it is below writer.
is_read_only_iff :
    (r : Role) → (is_read_only r ≡ true) ↔ (role_at_least (role r) (role writer) ≡ false)
unfolding role_at_least
is_read_only_iff r = (λ h. ground arith, λ h. ground arith)

module _ (current_epoch : Text → Option ℕ)
    (recheck : Text → Text → Bool → Option ResolvedRole) where
  -- A token of an older epoch is never admitted: it is refused for good exactly when the recheck
  -- finds no role, and may be refreshed otherwise.
  pub authenticate-stale :
      (claims : Claims) (name : Text) (n : ℕ)
      → claims.document_name ≡ name
      → current_epoch name ≡ some n
      → claims.permission_epoch < n
      → let r = recheck name claims.uid (member_claim claims.space_member) in
        let a = authenticate current_epoch recheck (some claims) name in
        ((a ≡ err forbidden) ↔ (r ≡ some no_role)) × ((a ≡ err unauthorized) ↔ (r ≢ some no_role))
  unfolding authenticate
  authenticate-stale claims name n named e older =
      let r = recheck name claims.uid (member_claim claims.space_member) in
      ground (arith, text_eq_iff claims.document_name name)

  -- A token that is not older than the current epoch, for the name of the connection, is admitted
  -- if the name is well formed.
  authenticate-fresh :
      (claims : Claims) (name : Text) (n : ℕ) (parsed : ParsedName)
      → claims.document_name ≡ name
      → current_epoch name ≡ some n
      → n ≤ claims.permission_epoch
      → parse_document_name name ≡ ok parsed
      → authenticate current_epoch recheck (some claims) name ≡ ok (admit claims parsed)
  unfolding authenticate authenticate_epoch
  authenticate-fresh claims name n parsed named e fresh p =
      ground (arith, text_eq_iff claims.document_name name)

consistent_row-same :
    (parsed : ParsedName) (m meta : DocMeta) → consistent_row parsed m ≡ some meta → m ≡ meta
unfolding consistent_row
consistent_row-same parsed m meta h = ground arith

pub resolved_row :
    (db : Tables) (name : Text) (meta : DocMeta)
    → resolve_doc_meta_by_name db name ≡ some meta
    → get_by_document_name db.doc_meta name ≡ some meta
unfolding resolve_doc_meta_by_name
resolved_row db name meta h = elim (Result-cases (parse_document_name name)) [
  | inl (e, p) ↦ cc (rw (p, resolve_doc_meta_by_name) at h)
  | inr (parsed, p) ↦ elim (Option-cases (get_by_document_name db.doc_meta name)) [
    | inl g ↦ cc (rw (p, g, resolve_doc_meta_by_name) at h)
    | inr (m, g) ↦
        g ∙ ap some (consistent_row-same parsed m meta (rw (p, g, resolve_doc_meta_by_name) at h))
  ]
]

stored_epoch :
    (db : Tables) (name : Text) (meta : DocMeta)
    → resolve_doc_meta_by_name db name ≡ some meta
    → get_epoch_by_document_name db.doc_meta name ≡ some meta.permission_epoch
unfolding get_epoch_by_document_name
stored_epoch db name meta h = rw (resolved_row db name meta h, get_epoch_by_document_name)

-- The recheck on a row that is found by its name and stored under its id.
recheck_of_row :
    (db : Tables) (name : Text) (meta : DocMeta)
    → resolve_doc_meta_by_name db name ≡ some meta
    → get_by_doc_id db.doc_meta meta.doc_id ≡ some meta
    → (uid : Text) (member : Bool)
    → recheck_current_role db name uid member
      ≡ effective_role (resolve_role db uid meta.doc_id) member meta.share_scope meta.share_role
unfolding recheck_current_role resolve_role
recheck_of_row db name meta h k uid member =
    rw (h, recheck_current_role) (rw (k, resolve_role) refl)

module _ (service : IdentityService) (db : Tables) (octo_token name : Text) (viewer : Option Text)
    (i : Issued) (given : issue_collab_token service db octo_token name viewer ≡ issued i) where
  -- A freshly issued token, signed and verified, is admitted by the handshake while the epoch in
  -- the database is the one of issuance, with its own user and role, read-only exactly when the
  -- role is below writer.
  pub authenticate-issued :
      (recheck : Text → Text → Bool → Option ResolvedRole)
      → (a : Admitted) × (authenticate
            (get_epoch_by_document_name db.doc_meta)
            recheck
            (verify_payload (sign_payload i.claims))
            name
          ≡ ok a)
        × (a.context.uid ≡ i.claims.uid)
        × (a.context.role ≡ i.claims.role)
        × ((a.read_only ≡ true) ↔ (role_at_least (role i.claims.role) (role writer) ≡ false))
  authenticate-issued recheck =
      let g = issue-IsGrounded service db octo_token name viewer i given in
      (
        admit (normal i.claims) g.parsed,
        rw (verify-sign i.claims) (
            authenticate-fresh (get_epoch_by_document_name db.doc_meta) recheck (normal i.claims)
              name g.meta.permission_epoch g.parsed g.named (stored_epoch db name g.meta g.resolved)
              (omega (arith, g.epoch)) g.well_formed),
        unfold admit in refl,
        unfold admit in refl,
        unfold admit in is_read_only_iff i.claims.role,
      )

  -- The role in a token is the one that the recheck of a write finds for the same database, from
  -- the membership that the token carries, if the row of the name is stored under its id.
  pub recheck-issued :
      (meta : DocMeta)
      → get_by_document_name db.doc_meta name ≡ some meta
      → get_by_doc_id db.doc_meta meta.doc_id ≡ some meta
      → recheck_current_role db name i.claims.uid (member_claim i.claims.space_member)
        ≡ role i.claims.role
  recheck-issued meta by_name by_id =
      let g = issue-IsGrounded service db octo_token name viewer i given in
      let same : g.meta ≡ meta =
        some-injective g.meta meta (sym (resolved_row db name g.meta g.resolved) ∙ by_name) in
      let by_id' : get_by_doc_id db.doc_meta g.meta.doc_id ≡ some g.meta =
        subst (λ m. get_by_doc_id db.doc_meta m.doc_id ≡ some m) (sym same) by_id in
      recheck_of_row db name g.meta g.resolved by_id' i.claims.uid
        (member_claim i.claims.space_member)
      ∙ ap
          (λ u.
            effective_role (resolve_role db u g.meta.doc_id) (member_claim i.claims.space_member)
              g.meta.share_scope g.meta.share_role)
          g.user
      ∙ ap
          (λ b.
            effective_role (resolve_role db g.identity.uid g.meta.doc_id) b g.meta.share_scope
              g.meta.share_role)
          g.member
      ∙ g.effective
