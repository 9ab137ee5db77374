-- ===== src/Collab/Issue/Laws.antt =====
-- The tokens that src/auth/issueCollabToken.ts issues.
use octo_docs_backend.Base.{
  ◌≡◌, inl, inr, Bool, true, false, Option, some, Text, text_eq, Option-cases, Result-cases, ok,
  arith,
}
use octo_docs_backend.Permission.Role.{ResolvedRole, no_role, role}
use octo_docs_backend.Permission.Share.{effective_role}
use octo_docs_backend.Permission.Name.{
  ParsedName, document, whiteboard, html, ppt, html_doc_type, html_ppt_doc_type,
  parse_document_name, is_doc_type_consistent_with_name,
}
use octo_docs_backend.Permission.Resolve.{resolve_role, resolve_doc_meta_by_name}
use octo_docs_backend.Db.{Tables}
use octo_docs_backend.Db.Meta.{DocMeta}
use octo_docs_backend.Collab.Issue.{
  Identity, IdentityService, Issued, issued, member_of_shared, issue_role, issue_meta,
  issue_identity, issue_collab_token,
}
use octo_docs_backend.Collab.Handshake.{member_claim}

-- The kinds of name that the Yjs collaboration serves.
abbrev pub IsCollab : ParsedName → Type 0
IsCollab (document space folder id) = Unit
IsCollab (whiteboard space folder id) = Unit
IsCollab (html space folder id) = ⊥
IsCollab (ppt space folder id) = ⊥

module _ (service : IdentityService) where
  -- Why a token was issued.
  pub record IsGrounded (db : Tables) (octo_token name : Text) (i : Issued) : Type 0 where
    pub identity : Identity
    pub parsed : ParsedName
    pub meta : DocMeta
    pub verified : service.verify_token octo_token ≡ some identity
    pub well_formed : parse_document_name name ≡ ok parsed
    pub collab : IsCollab parsed
    pub resolved : resolve_doc_meta_by_name db name ≡ some meta
    pub user : i.claims.uid ≡ identity.uid
    pub named : i.claims.document_name ≡ name
    pub epoch : i.claims.permission_epoch ≡ meta.permission_epoch
    pub member :
        member_claim i.claims.space_member ≡ member_of_shared service identity.uid meta octo_token
    pub effective :
        effective_role
          (resolve_role db identity.uid meta.doc_id)
          (member_of_shared service identity.uid meta octo_token)
          meta.share_scope
          meta.share_role
        ≡ role i.claims.role

  type-IsCollab :
      (parsed : ParsedName) (t : Text)
      → is_doc_type_consistent_with_name parsed t ≡ true
      → text_eq t html_doc_type ≡ false
      → text_eq t html_ppt_doc_type ≡ false
      → IsCollab parsed
  unfolding is_doc_type_consistent_with_name
  type-IsCollab (document s f d) t h k l = tt
  type-IsCollab (whiteboard s f d) t h k l = tt
  type-IsCollab (html s f d) t h k l = cc
  type-IsCollab (ppt s f d) t h k l = cc

  issue_role-issued :
      (identity : Identity) (octo_token name : Text) (viewer : Option Text) (meta : DocMeta)
      (m : Bool) (r : ResolvedRole) (i : Issued)
      → issue_role service identity octo_token name viewer meta m r ≡ issued i
      → (i.claims.uid ≡ identity.uid)
        × (i.claims.document_name ≡ name)
        × (i.claims.permission_epoch ≡ meta.permission_epoch)
        × (member_claim i.claims.space_member ≡ m)
        × (r ≡ role i.claims.role)
  unfolding issue_role
  issue_role-issued identity octo_token name viewer meta m no_role i h = cc
  issue_role-issued identity octo_token name viewer meta m (role r) i h =
      (ground arith, ground arith, ground arith, ground arith, ground arith)

  issue_meta-issued :
      (db : Tables) (identity : Identity) (octo_token name : Text) (viewer : Option Text)
      (parsed : ParsedName) (meta : DocMeta) (i : Issued)
      → issue_meta service db identity octo_token name viewer parsed meta ≡ issued i
      → (is_doc_type_consistent_with_name parsed meta.doc_type ≡ true)
        × (text_eq meta.doc_type html_doc_type ≡ false)
        × (text_eq meta.doc_type html_ppt_doc_type ≡ false)
        × (issue_role service identity octo_token name viewer meta
              (member_of_shared service identity.uid meta octo_token)
              (effective_role
                (resolve_role db identity.uid meta.doc_id)
                (member_of_shared service identity.uid meta octo_token)
                meta.share_scope
                meta.share_role)
            ≡ issued i)
  unfolding issue_meta
  issue_meta-issued db identity octo_token name viewer parsed meta i h = ground arith

  issue_meta-IsGrounded :
      (db : Tables) (identity : Identity) (octo_token name : Text) (viewer : Option Text)
      (parsed : ParsedName) (meta : DocMeta) (i : Issued)
      → service.verify_token octo_token ≡ some identity
      → parse_document_name name ≡ ok parsed
      → resolve_doc_meta_by_name db name ≡ some meta
      → issue_meta service db identity octo_token name viewer parsed meta ≡ issued i
      → IsGrounded db octo_token name i
  issue_meta-IsGrounded db identity octo_token name viewer parsed meta i v p r h =
      let (consistent, not_html, not_deck, role_h) =
        issue_meta-issued db identity octo_token name viewer parsed meta i h in
      let (user, named, epoch, member, effective) =
        issue_role-issued identity octo_token name viewer meta _ _ i role_h in
      record {
        identity = identity;
        parsed = parsed;
        meta = meta;
        verified = v;
        well_formed = p;
        collab = type-IsCollab parsed meta.doc_type consistent not_html not_deck;
        resolved = r;
        user = user;
        named = named;
        epoch = epoch;
        member = member;
        effective = effective;
      }

  issue_identity-IsGrounded :
      (db : Tables) (identity : Identity) (octo_token name : Text) (viewer : Option Text)
      (i : Issued)
      → service.verify_token octo_token ≡ some identity
      → issue_identity service db identity octo_token name viewer ≡ issued i
      → IsGrounded db octo_token name i
  unfolding issue_identity
  issue_identity-IsGrounded db identity octo_token name viewer i v h =
      elim (Result-cases (parse_document_name name)) [
        | inl (e, p) ↦ cc (rw (p, issue_identity) at h)
        | inr (parsed, p) ↦ elim (Option-cases (resolve_doc_meta_by_name db name)) [
          | inl r ↦ cc (rw (p, r, issue_identity) at h)
          | inr (meta, r) ↦
              issue_meta-IsGrounded db identity octo_token name viewer parsed meta i v p r
                (rw (p, r, issue_identity) at h)
        ]
      ]

  -- A token is issued only for a verified user, on a well-formed name of a document or a board,
  -- never of an html page or a deck, that resolves to a row; it carries the user, the name, the
  -- row's epoch, the user's membership of the space where the row is shared with its members, and
  -- the effective role of the user.
  pub issue-IsGrounded :
      (db : Tables) (octo_token name : Text) (viewer : Option Text) (i : Issued)
      → issue_collab_token service db octo_token name viewer ≡ issued i
      → IsGrounded db octo_token name i
  unfolding issue_collab_token
  issue-IsGrounded db octo_token name viewer i h =
      elim (Option-cases (service.verify_token octo_token)) [
        | inl v ↦ cc (rw (v, issue_collab_token) at h)
        | inr (identity, v) ↦
            issue_identity-IsGrounded db identity octo_token name viewer i v
              (rw (v, issue_collab_token) at h)
      ]
