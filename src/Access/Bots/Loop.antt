-- ===== src/Access/Bots/Loop.antt =====
-- The loop over the bots in src/api/services/grantRequestWithBots.ts.
use mathlib.Core.Path.{subst}
use octo_docs_backend.Base.{
  ℕ, ◌≤◌, ◌≡◌, refl, sym, ◌∙◌, ◌≢◌, inl, inr, true, false, Option, none, some, List, [], ◌∷◌, ◌++◌,
  Text, text_eq, text_eq_iff, Bool-cases, Option-cases, All, arith, append_nil, append_one,
}
use octo_docs_backend.Permission.Role.{Role, role, role_from_number, role_rank}
use octo_docs_backend.Permission.Resolve.{resolve_role}
use octo_docs_backend.Db.{Tables}
use octo_docs_backend.Db.Meta.{DocMeta, get_by_doc_id}
use octo_docs_backend.Grant.Rising.{Rises, Rises-refl, Rises-trans, resolve_role-Rises}
use octo_docs_backend.Access.Bots.{Fault, attempt, Progress, note_bot, grant_bot, grant_bots}
use octo_docs_backend.Access.Bots.Attempts.{attempt-Rises, attempt-IsGranted}

-- How the carried bots are dealt out: the requester is left out, every other bot stands in one of
-- the two lists, and both keep the order.
pub data IsDealt (uid : Text) : List Text → List Text → List Text → Type 0 where
  done : IsDealt uid [] [] []
  left_out :
      (b : Text) {bs s f : List Text} → b ≡ uid → IsDealt uid bs s f → IsDealt uid (b ∷ bs) s f
  succeeded :
      (b : Text) {bs s f : List Text}
      → b ≢ uid
      → IsDealt uid bs s f
      → IsDealt uid (b ∷ bs) (b ∷ s) f
  failed :
      (b : Text) {bs s f : List Text}
      → b ≢ uid
      → IsDealt uid bs s f
      → IsDealt uid (b ∷ bs) s (b ∷ f)

-- The user resolves to at least the role granted.
abbrev pub IsRaised : Text → ℕ → Tables → Text → Type 0
IsRaised d n t u =
    (granted : Role) × (role_from_number n ≡ some granted)
    × (role_rank (role granted) ≤ role_rank (resolve_role t u d))

module _ (faults : Text → Fault) (unchanged : ℕ) (d uid : Text) (n : ℕ) (by : Text) where
  pub later-IsRaised : (s t : Tables) (u : Text) → Rises s t → IsRaised d n s u → IsRaised d n t u
  later-IsRaised s t u h (granted, known, k) =
      (granted, known, omega (arith, k, resolve_role-Rises s t u d h))

  pub tried-IsRaised :
      (db : Tables) (u : Text) (m : DocMeta) (r : Role)
      → get_by_doc_id db.doc_meta d ≡ some m
      → (attempt (faults u) unchanged db d u n by).1 ≡ some r
      → IsRaised d n (attempt (faults u) unchanged db d u n by).0 u
  tried-IsRaised db u m r s h =
      let (granted, known, a, b) = attempt-IsGranted unchanged d n by (faults u) db u m r s h in
      (granted, known, subst (λ x. role_rank (role granted) ≤ role_rank x) (sym a) b)

  -- The end of the loop from some progress on.
  pub record IsEnd (p q : Progress) (bots : List Text) : Type 0 where
    pub more : List Text
    pub lost : List Text
    pub more_succeeded : q.bots_succeeded ≡ p.bots_succeeded ++ more
    pub more_failed : q.bots_failed ≡ p.bots_failed ++ lost
    pub dealt : IsDealt uid bots more lost
    pub raised : All (IsRaised d n q.tables) more
    pub rises : Rises p.tables q.tables

  abbrev pub tried : Progress → Text → Tables × Option Role
  tried p b = attempt (faults b) unchanged p.tables d b n by

  abbrev pub after_failed : Progress → Text → Progress
  after_failed p b = record p { tables = (tried p b).0; bots_failed = p.bots_failed ++ (b ∷ []) }

  abbrev pub after_succeeded : Progress → Text → Progress
  after_succeeded p b = record p {
    tables = (tried p b).0;
    bots_succeeded = p.bots_succeeded ++ (b ∷ []);
  }

  pub grant_bot_self :
      (p : Progress) (b : Text)
      → text_eq b uid ≡ true
      → grant_bot faults unchanged d uid n by p b ≡ p
  unfolding grant_bot
  grant_bot_self p b e = rw (e, grant_bot) refl

  pub grant_bot-failed :
      (p : Progress) (b : Text)
      → text_eq b uid ≡ false
      → (tried p b).1 ≡ none
      → grant_bot faults unchanged d uid n by p b ≡ after_failed p b
  unfolding grant_bot note_bot
  grant_bot-failed p b e f = rw (e, f, grant_bot) refl

  pub grant_bot-succeeded :
      (p : Progress) (b : Text) (r : Role)
      → text_eq b uid ≡ false
      → (tried p b).1 ≡ some r
      → grant_bot faults unchanged d uid n by p b ≡ after_succeeded p b
  unfolding grant_bot note_bot
  grant_bot-succeeded p b r e f = rw (e, f, grant_bot) refl

  pub self-IsEnd :
      (p q : Progress) (b : Text) (bots : List Text)
      → b ≡ uid
      → IsEnd p q bots
      → IsEnd p q (b ∷ bots)
  self-IsEnd p q b bots e h = record {
    more = h.more;
    lost = h.lost;
    more_succeeded = h.more_succeeded;
    more_failed = h.more_failed;
    dealt = left_out b e h.dealt;
    raised = h.raised;
    rises = h.rises;
  }

  pub failed-IsEnd :
      (p q : Progress) (b : Text) (bots : List Text)
      → b ≢ uid
      → IsEnd (after_failed p b) q bots
      → IsEnd p q (b ∷ bots)
  failed-IsEnd p q b bots e h = record {
    more = h.more;
    lost = b ∷ h.lost;
    more_succeeded = h.more_succeeded;
    more_failed = h.more_failed ∙ append_one p.bots_failed b h.lost;
    dealt = failed b e h.dealt;
    raised = h.raised;
    rises =
        Rises-trans p.tables (tried p b).0 q.tables
          (attempt-Rises unchanged d n by (faults b) p.tables b) h.rises;
  }

  pub succeeded-IsEnd :
      (p q : Progress) (b : Text) (bots : List Text)
      → b ≢ uid
      → IsRaised d n (tried p b).0 b
      → IsEnd (after_succeeded p b) q bots
      → IsEnd p q (b ∷ bots)
  succeeded-IsEnd p q b bots e k h = record {
    more = b ∷ h.more;
    lost = h.lost;
    more_succeeded = h.more_succeeded ∙ append_one p.bots_succeeded b h.more;
    more_failed = h.more_failed;
    dealt = succeeded b e h.dealt;
    raised = (later-IsRaised (tried p b).0 q.tables b h.rises k, h.raised);
    rises =
        Rises-trans p.tables (tried p b).0 q.tables
          (attempt-Rises unchanged d n by (faults b) p.tables b) h.rises;
  }

  pub grant_bots-IsEnd :
      (p : Progress) (bots : List Text) (m : DocMeta)
      → get_by_doc_id p.tables.doc_meta d ≡ some m
      → IsEnd p (grant_bots faults unchanged d uid n by p bots) bots
  unfolding grant_bots grant_bot
  grant_bots-IsEnd p [] m s = record {
    more = [];
    lost = [];
    more_succeeded = sym (append_nil p.bots_succeeded);
    more_failed = sym (append_nil p.bots_failed);
    dealt = done;
    raised = tt;
    rises = Rises-refl p.tables;
  }
  grant_bots-IsEnd p (b ∷ bots) m s =
      let along : Progress → Type 0 =
        λ x. IsEnd p (grant_bots faults unchanged d uid n by x bots) (b ∷ bots) in
      let all : Progress → List Text → Progress = grant_bots faults unchanged d uid n by in
      let (m', s', _) = (attempt-Rises unchanged d n by (faults b) p.tables b).owners d m s in
      elim (Bool-cases (text_eq b uid)) [
        | inl e ↦ subst along (sym (grant_bot_self p b e)) (
            self-IsEnd p (all p bots) b bots ((text_eq_iff b uid).0 e)
              (grant_bots-IsEnd p bots m s))
        | inr e ↦
            let apart : b ≢ uid = λ q. ground (arith, text_eq_iff b uid, q, e) in
            elim (Option-cases ((tried p b).1)) [
              | inl f ↦ subst along (sym (grant_bot-failed p b e f)) (
                  failed-IsEnd p (all (after_failed p b) bots) b bots apart
                    (grant_bots-IsEnd (after_failed p b) bots m' s'))
              | inr (r, f) ↦ subst along (sym (grant_bot-succeeded p b r e f)) (
                  succeeded-IsEnd p (all (after_succeeded p b) bots) b bots apart
                    (tried-IsRaised p.tables b m r s f)
                    (grant_bots-IsEnd (after_succeeded p b) bots m' s'))
            ]
      ]

  pub grant_bot-Rises :
      (p : Progress) (b : Text) → Rises p.tables (grant_bot faults unchanged d uid n by p b).tables
  grant_bot-Rises p b = elim (Bool-cases (text_eq b uid)) [
    | inl e ↦
        subst (λ x. Rises p.tables x.tables) (sym (grant_bot_self p b e)) (Rises-refl p.tables)
    | inr e ↦
        let up = attempt-Rises unchanged d n by (faults b) p.tables b in
        elim (Option-cases ((tried p b).1)) [
          | inl f ↦ subst (λ x. Rises p.tables x.tables) (sym (grant_bot-failed p b e f)) up
          | inr (r, f) ↦
              subst (λ x. Rises p.tables x.tables) (sym (grant_bot-succeeded p b r e f)) up
        ]
  ]

  pub grant_bots-Rises :
      (p : Progress) (bots : List Text)
      → Rises p.tables (grant_bots faults unchanged d uid n by p bots).tables
  unfolding grant_bots
  grant_bots-Rises p [] = Rises-refl p.tables
  grant_bots-Rises p (b ∷ bots) =
      let next = grant_bot faults unchanged d uid n by p b in
      Rises-trans p.tables next.tables (grant_bots faults unchanged d uid n by next bots).tables
        (grant_bot-Rises p b) (grant_bots-Rises next bots)
