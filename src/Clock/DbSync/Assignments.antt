-- ===== src/Clock/DbSync/Assignments.antt =====
-- A booking has one current room at most.
use clock_ha_orchestrator.Prelude.{
  ℕ, ◌≤◌, ◌≡◌, refl, Bool, true, false, ◌&&◌, Option, none, some, List, [], ◌∷◌, inl, inr, ◌==◌,
  length, select, if-holds, Bool-cases, arith,
}
use clock_ha_orchestrator.Domain.Models.{NormalizedBooking, has_physical_room}
use clock_ha_orchestrator.Persistence.Rows.{AssignmentRow}
use clock_ha_orchestrator.Persistence.Session.{Database, find, update_where}
use clock_ha_orchestrator.Clock.Registry.{RegistryRows, resolve_room}
use clock_ha_orchestrator.Clock.Bookings.{
  AssignmentChange, add_known, current_assignment, same_identity, same_id, row_id_of,
  end_assignment, remove_assignment, remap_assignment, insert_assignment, change_assignment,
  sync_assignment,
}

abbrev pub is_current_of : ℕ → AssignmentRow → Bool
is_current_of booking_id a = (a.booking_id == booking_id) && a.is_current

-- How many current rows a booking has.
abbrev pub currents : ℕ → List AssignmentRow → ℕ
currents booking_id rows = length (select (is_current_of booking_id) rows)

-- No booking has two current rows.
abbrev pub HasOneRoom : Database → Type 0
HasOneRoom db = (booking_id : ℕ) → currents booking_id db.assignments ≤ 1

update-currents :
    (b : ℕ) (p : AssignmentRow → Bool) (change : AssignmentRow → AssignmentRow)
    (rows : List AssignmentRow)
    → ((r : AssignmentRow) → is_current_of b (change r) ≡ true → is_current_of b r ≡ true)
    → currents b (update_where p change rows) ≤ currents b rows
update-currents b p change [] k = ground arith
update-currents b p change (r ∷ rows) k = ground (arith, k r, update-currents b p change rows k)

none-currents :
    (b : ℕ) (rows : List AssignmentRow) → find (is_current_of b) rows ≡ none → currents b rows ≡ 0
none-currents b [] h = refl
none-currents b (r ∷ rows) h = ground (arith, none-currents b rows)

abbrev ended : ℕ → AssignmentRow → AssignmentRow
ended now r = record r { is_current = false; removed_at = some now }

ended_lem :
    (b now : ℕ) (r : AssignmentRow)
    → is_current_of b (ended now r) ≡ true
    → is_current_of b r ≡ true
ended_lem b now r h = ground arith

end-currents :
    (b now : ℕ) (a : AssignmentRow) (rows : List AssignmentRow)
    → find (is_current_of b) rows ≡ some a
    → currents b rows ≤ 1
    → currents b (update_where (λ r. r.id == a.id) (ended now) rows) ≡ 0
end-currents b now a [] h k = ground arith
end-currents b now a (r ∷ rows) h k = elim (Bool-cases (is_current_of b r)) [
  | inl t ↦ ground (
    arith,
    end-currents b now a rows,
    update-currents b (λ r. r.id == a.id) (ended now) rows (ended_lem b now),
    t,
  )
  | inr f ↦ ground (
    arith,
    end-currents b now a rows,
    update-currents b (λ r. r.id == a.id) (ended now) rows (ended_lem b now),
    f,
  )
]

module _ (uuid : ℕ → ℕ) (property_id booking_id now correlation_id : ℕ) where
  abbrev OneRoom : Database × AssignmentChange → Type 0
  OneRoom r = HasOneRoom r.0

  insert-HasOneRoom :
      (b : NormalizedBooking) (room_id : Option ℕ) (affected : List ℕ) (db : Database)
      → currents booking_id db.assignments ≡ 0
      → HasOneRoom db
      → OneRoom
          (insert_assignment uuid property_id booking_id now correlation_id b room_id affected db)
  insert-HasOneRoom b none affected db z h = λ n. ground (arith, h n)
  insert-HasOneRoom b (some id) affected db z h = λ n. ground (arith, h n)

  end-HasOneRoom :
      (a : AssignmentRow) (db : Database) → HasOneRoom db → HasOneRoom (end_assignment a now db)
  end-HasOneRoom a db h n = omega (
    arith,
    h n,
    update-currents n (λ r. r.id == a.id) (ended now) db.assignments (ended_lem n now),
  )

  remap-HasOneRoom :
      (a : AssignmentRow) (room_id : Option ℕ) (db : Database)
      → HasOneRoom db
      → OneRoom (remap_assignment uuid property_id booking_id now correlation_id a room_id db)
  remap-HasOneRoom a room_id db h =
      if-holds {A = Database × AssignmentChange} OneRoom (same_id a.room_id room_id) _ _ (λ _. h)
        (λ _ n. omega (
          arith,
          h n,
          update-currents n (λ r. r.id == a.id) (λ r. record r { room_id = room_id }) db.assignments
              (λ r e. e),
        ))

  change-HasOneRoom :
      (b : NormalizedBooking) (room_id : Option ℕ) (current : Option AssignmentRow) (db : Database)
      → current_assignment booking_id db ≡ current
      → HasOneRoom db
      → OneRoom
          (change_assignment uuid property_id booking_id now correlation_id b room_id current db)
  change-HasOneRoom b room_id none db e h =
      insert-HasOneRoom b room_id [] db (none-currents booking_id db.assignments e) h
  change-HasOneRoom b room_id (some a) db e h =
      if-holds {A = Database × AssignmentChange} OneRoom (same_identity a b) _ _
        (λ _. remap-HasOneRoom a room_id db h)
        (λ _.
          insert-HasOneRoom b room_id (add_known a.room_id []) (end_assignment a now db)
            (end-currents booking_id now a db.assignments e (h booking_id)) (end-HasOneRoom a db h))

  remove-HasOneRoom :
      (current : Option AssignmentRow) (db : Database)
      → HasOneRoom db
      → OneRoom (remove_assignment uuid property_id booking_id now correlation_id current db)
  remove-HasOneRoom none db h = h
  remove-HasOneRoom (some a) db h = end-HasOneRoom a db h

  -- Following a booking's room keeps every booking at one current room at most.
  pub sync_assignment-HasOneRoom :
      (registry : RegistryRows) (b : NormalizedBooking) (db : Database)
      → HasOneRoom db
      → HasOneRoom (sync_assignment uuid property_id booking_id now correlation_id registry b db).0
  unfolding sync_assignment
  sync_assignment-HasOneRoom registry b db h =
      if-holds {A = Database × AssignmentChange} OneRoom (has_physical_room b) _ _
        (λ _.
          change-HasOneRoom b (row_id_of (resolve_room registry b))
            (current_assignment booking_id db) db refl h)
        (λ _. remove-HasOneRoom (current_assignment booking_id db) db h)
