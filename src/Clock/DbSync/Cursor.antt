-- ===== src/Clock/DbSync/Cursor.antt =====
-- The cursor of the synchronisation is read as it was written.
use clock_ha_orchestrator.Prelude.{
  ℕ, ◌≡◌, refl, ap, ◌∙◌, true, ◌&&◌, Option, none, some, String, str_eq, eq_iff, ==_iff, ◌==◌,
  arith,
}
use clock_ha_orchestrator.Policy.Control.Service.{is_property}
use clock_ha_orchestrator.Persistence.Rows.{PropertyRow, CursorRow}
use clock_ha_orchestrator.Persistence.Session.{Database, find}
use clock_ha_orchestrator.Persistence.Session.Queries.{find-update}
use clock_ha_orchestrator.Clock.DbSync.{
  SyncCursorState, is_cursor, cursor_row, cursor_or_new, advance_cursor, state_of_cursor,
  cursor_of_property, load_cursor_state,
}

is_cursor_refl : (id : ℕ) (source : String) → (id == id && str_eq source source) ≡ true
is_cursor_refl id source = ground (arith, (==_iff id id).1 refl, (eq_iff source source).1 refl)

same_properties :
    (property_id : ℕ) (source : String) (next : SyncCursorState) (now : ℕ)
    (found : Option CursorRow) (db : Database)
    → (cursor_or_new property_id source next now found db).properties ≡ db.properties
same_properties property_id source next now none db = refl
same_properties property_id source next now (some row) db = refl

written :
    (property_id : ℕ) (source : String) (next : SyncCursorState) (now : ℕ)
    (found : Option CursorRow) (db : Database)
    → find (is_cursor property_id source) db.cursors ≡ found
    → state_of_cursor (
        find
          (is_cursor property_id source)
          (cursor_or_new property_id source next now found db).cursors)
      ≡ next
written property_id source next now none db e = rw (is_cursor_refl property_id source) refl
written property_id source next now (some row) db e = ap state_of_cursor (
    find-update (is_cursor property_id source) (λ r. cursor_row r.property_id r.source next now)
      db.cursors row (λ y h. h) e)

-- Reading the cursor of a known property after it was advanced gives the cursor that was written.
pub load_cursor_state-advance_cursor :
    (property_key source : String) (next : SyncCursorState) (now : ℕ) (db : Database)
    (property : PropertyRow)
    → find (is_property property_key) db.properties ≡ some property
    → load_cursor_state property_key source (advance_cursor property.id source next now db) ≡ next
unfolding load_cursor_state advance_cursor
load_cursor_state-advance_cursor property_key source next now db property h =
    let found = find (is_cursor property.id source) db.cursors in
    let after = cursor_or_new property.id source next now found db in
    ap (λ ps. cursor_of_property source after.cursors (find (is_property property_key) ps))
      (same_properties property.id source next now found db)
    ∙ ap (cursor_of_property source after.cursors) h
    ∙ written property.id source next now found db refl
