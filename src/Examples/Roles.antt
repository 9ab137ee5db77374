-- ===== src/Examples/Roles.antt =====
-- Roles, names and grants at concrete rows.
use octo_docs_backend.Base.{
  ◌+◌, max, ◌≡◌, refl, Bool, true, false, none, some, Text, codes, text_eq, ok, arith,
  if◌then◌else◌,
}
use octo_docs_backend.Examples.{db, plan, plan_name}
use octo_docs_backend.Permission.Role.{
  role, reader, writer, role_rank, role_at_least, role_from_number,
}
use octo_docs_backend.Permission.Share.{effective_role}
use octo_docs_backend.Permission.Name.{is_seg, document, parse_document_name}
use octo_docs_backend.Permission.Name.RoundTrip.{parse_document_name_iff}
use octo_docs_backend.Permission.Resolve.{
  Caller, passed, resolve_role, resolve_effective_role, resolve_doc_meta_by_name,
  recheck_current_role, require_doc_role,
}
use octo_docs_backend.Permission.Resolve.Laws.{
  recheck-eq_resolve_effective_role, require_doc_role-passed_iff, is_member,
}
use octo_docs_backend.Db.Meta.{get_by_doc_id, read_epoch}
use octo_docs_backend.Db.Member.{find_row, get_role, role_rank_sql, upsert_grant_max}
use octo_docs_backend.Grant.{Granted, grant_forward_access}
use octo_docs_backend.Grant.Laws.{grant_forward_raises}

abbrev everybody : Text → Text → Text → Bool
everybody uid space token = true

abbrev human : Caller
human = record { is_bot = false; token = some (codes "x") }

recheck-eq_resolve_effective_role_example :
    recheck_current_role db plan_name (codes "cat") (is_member everybody (codes "cat") plan human)
    ≡ resolve_effective_role everybody
        (codes "cat")
        (resolve_role db (codes "cat") (codes "d1"))
        plan
        human
unfolding resolve_doc_meta_by_name get_by_doc_id parse_document_name
    octo_docs_backend.Db.Meta.get_by_document_name
recheck-eq_resolve_effective_role_example =
    recheck-eq_resolve_effective_role everybody db plan_name (codes "cat") plan human refl refl

require_doc_role-passed_iff_example :
    require_doc_role everybody db (codes "cat") (codes "d1") (codes "s1") reader human
    ≡ passed plan (role reader)
unfolding get_by_doc_id resolve_effective_role resolve_role role_at_least text_eq get_role find_row
    octo_docs_backend.Db.Member.has_key effective_role
require_doc_role-passed_iff_example =
    (require_doc_role-passed_iff everybody db (codes "cat") (codes "d1") (codes "s1") reader human
        plan (role reader)).1
      (refl, ground arith, ground arith, refl, refl, refl)

parse_document_name_iff_example :
    parse_document_name plan_name ≡ ok (document (codes "s1") (codes "f1") (codes "d1"))
unfolding is_seg text_eq
parse_document_name_iff_example =
    (parse_document_name_iff plan_name (document (codes "s1") (codes "f1") (codes "d1"))).1
      (refl, ((refl, refl, refl), refl))

-- `ann`, a reader, is granted the role of a writer.
abbrev granted : Granted
unfolding grant_forward_access
granted = elim (grant_forward_access 0 db (codes "d1") (codes "ann") 2 (codes "own")) [
  | ok g ↦ g
  | _ ↦ record { tables = db; final_role = reader; changed = false; epoch = none }
]

grant_runs : grant_forward_access 0 db (codes "d1") (codes "ann") 2 (codes "own") ≡ ok granted
unfolding grant_forward_access granted role_from_number
grant_runs = refl

grant_forward_raises_example :
    (resolve_role granted.tables (codes "ann") (codes "d1") ≡ role granted.final_role)
    × (role_rank (role granted.final_role)
        ≡ max (role_rank (resolve_role db (codes "ann") (codes "d1"))) (role_rank (role writer)))
    × (read_epoch granted.tables.doc_meta (codes "d1") ≡ (if granted.changed then 4 + 1 else 4))
unfolding get_by_doc_id text_eq role_from_number
grant_forward_raises_example =
    grant_forward_raises 0 db (codes "d1") (codes "ann") 2 (codes "own") writer plan refl refl
      granted grant_runs
