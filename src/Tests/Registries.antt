-- ===== src/Tests/Registries.antt =====
-- Runs of the registries, and the examples of their theorems.
use personal_context.Base.{
  ◌≡◌, ◌<◌, arith, refl, sym, ap, true, none, some, [], ◌∷◌, list_eq, nat_eq, ok,
}
use personal_context.Text.{codes, trim_space, is_space}
use personal_context.Time.{Time, truncate_to_millisecond, truncate}
use personal_context.Repository.Registries.{
  RegistryRow, select_registry_row, archive_registry_row, set_archived_at, change_registry_rows,
  upsert_for_import, import_over, get_registry_row, touched_row, imported,
}
use personal_context.Repository.Registries.Import.{archive-imported}

abbrev project : Time → RegistryRow
project at = record { id = codes "p"; created_at = 1000000; updated_at = at; archived_at = none }

abbrev archived : RegistryRow
archived = record (project 7000000) { archived_at = some 7000000 }

imports : upsert_for_import 9000000 archived (project 2000000 ∷ []) ≡ ok (archived ∷ [], true)
unfolding upsert_for_import import_over get_registry_row select_registry_row change_registry_rows
    touched_row imported truncate_to_millisecond truncate list_eq nat_eq trim_space is_space
imports = refl

archives : archive_registry_row 7000000 (codes "p") (project 2000000 ∷ []) ≡ ok (archived ∷ [])
unfolding archive_registry_row set_archived_at select_registry_row change_registry_rows touched_row
    truncate_to_millisecond truncate list_eq nat_eq trim_space is_space
archives = refl

stored : select_registry_row (archived ∷ []) (codes "p") ≡ ok archived
unfolding select_registry_row list_eq nat_eq
stored = refl

older :
    (old : RegistryRow)
    → select_registry_row (project 2000000 ∷ []) (codes "p") ≡ ok old
    → old.updated_at < truncate_to_millisecond 7000000
unfolding select_registry_row list_eq nat_eq truncate_to_millisecond truncate
older old found =
    let e : project 2000000 ≡ old = cc found in
    let h : old.updated_at ≡ 2000000 = sym (ap (λ r. r.updated_at) e) in omega (arith, h)

archive-imported_example :
    (q : RegistryRow) × (select_registry_row (archived ∷ []) (codes "p") ≡ ok q)
    × (q.archived_at ≡ some (truncate_to_millisecond 7000000))
archive-imported_example =
    archive-imported 7000000 9000000 (codes "p") (project 2000000 ∷ []) (archived ∷ [])
      (project 2000000 ∷ []) (archived ∷ []) archived true archives stored older imports
