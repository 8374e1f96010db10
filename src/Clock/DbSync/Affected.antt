-- ===== src/Clock/DbSync/Affected.antt =====
-- The rooms that a change of a booking's room affects.
use clock_ha_orchestrator.Prelude.{
  ℕ, ◌≡◌, refl, sym, subst, Bool, true, false, Option, none, some, List, [], ◌∷◌, ◌==◌, ==_iff, any,
  if-holds, arith, Bool-cases, inl, inr, if◌then◌else◌,
}
use clock_ha_orchestrator.Domain.Models.{NormalizedBooking, has_physical_room}
use clock_ha_orchestrator.Persistence.Rows.{AssignmentRow}
use clock_ha_orchestrator.Persistence.Session.{Database}
use clock_ha_orchestrator.Clock.Registry.{RegistryRows, resolve_room}
use clock_ha_orchestrator.Clock.Bookings.{
  AssignmentChange, add_id, add_known, current_assignment, same_identity, same_id, row_id_of,
  end_assignment, remove_assignment, insert_assignment, change_assignment, sync_assignment,
}

abbrev pub is_affected : ℕ → AssignmentChange → Bool
is_affected id change = any (λ y. y == id) change.affected_room_ids

any_add : (x : ℕ) (xs : List ℕ) → any (λ y. y == x) (add_id x xs) ≡ true
any_add x xs =
    if-holds (λ l. any (λ y. y == x) l ≡ true) (any (λ y. y == x) xs) xs (x ∷ xs) (λ e. e)
      (λ _. rw ((==_iff x x).1 refl) refl)

any_keep :
    (x y : ℕ) (xs : List ℕ) → any (λ z. z == x) xs ≡ true → any (λ z. z == x) (add_id y xs) ≡ true
any_keep x y xs h =
    if-holds (λ l. any (λ z. z == x) l ≡ true) (any (λ z. z == y) xs) xs (y ∷ xs) (λ _. h)
      (λ _. ground (arith, h))

any_known :
    (x : ℕ) (o : Option ℕ) (xs : List ℕ) → o ≡ some x → any (λ y. y == x) (add_known o xs) ≡ true
any_known x o xs h = subst (λ p. any (λ y. y == x) (add_known p xs) ≡ true) (sym h) (any_add x xs)

keep_known :
    (x : ℕ) (o : Option ℕ) (xs : List ℕ)
    → any (λ z. z == x) xs ≡ true
    → any (λ z. z == x) (add_known o xs) ≡ true
keep_known x none xs h = h
keep_known x (some y) xs h = any_keep x y xs h

-- Without a change the tables are as they were. With one, the old room and the new one are affected.
abbrev pub Covers : Option ℕ → Option ℕ → Database → Database × AssignmentChange → Type 0
Covers old new db r =
    (r.1.changed ≡ false → r.0 ≡ db)
    × (r.1.changed ≡ true
        → ((x : ℕ) → old ≡ some x → is_affected x r.1 ≡ true)
          × ((x : ℕ) → new ≡ some x → is_affected x r.1 ≡ true))

-- The room of the current assignment, if there is one.
abbrev pub old_room : Option AssignmentRow → Option ℕ
old_room none = none
old_room (some a) = a.room_id

-- The room that the registry has for the booking.
abbrev pub new_room : RegistryRows → NormalizedBooking → Option ℕ
unfolding resolve_room
new_room registry b = if has_physical_room b then row_id_of (resolve_room registry b) else none

true≢false : true ≡ false → ⊥
true≢false h = ground arith

module _ (uuid : ℕ → ℕ) (property_id booking_id now correlation_id : ℕ) where
  insert-Covers :
      (b : NormalizedBooking) (room_id old : Option ℕ) (before db : Database)
      → Covers old room_id before (
          insert_assignment uuid property_id booking_id now correlation_id b room_id
            (add_known old [])
            db)
  insert-Covers b none old before db =
      (λ h. absurd (true≢false h), λ _. (λ x e. any_known x old [] e, λ x e. ground arith))
  insert-Covers b (some id) old before db = (
    λ h. absurd (true≢false h),
    λ _. (λ x e. any_keep x id _ (any_known x old [] e), λ x e. any_known x (some id) _ e),
  )

  change-Covers :
      (b : NormalizedBooking) (room_id : Option ℕ) (current : Option AssignmentRow) (db : Database)
      → Covers
          (old_room current)
          room_id
          db
          (change_assignment uuid property_id booking_id now correlation_id b room_id current db)
  change-Covers b room_id none db = insert-Covers b room_id none db db
  change-Covers b room_id (some a) db =
      if-holds {A = Database × AssignmentChange} (Covers a.room_id room_id db) (same_identity a b) _
        _
        (λ _.
          if-holds {A = Database × AssignmentChange} (Covers a.room_id room_id db)
            (same_id a.room_id room_id) _ _ (λ _. (λ _. refl, λ h. absurd (true≢false (sym h))))
            (λ _. (
              λ h. absurd (true≢false h),
              λ _. (
                λ x e. keep_known x room_id _ (any_known x a.room_id [] e),
                λ x e. any_known x room_id _ e,
              ),
            )))
        (λ _. insert-Covers b room_id a.room_id db (end_assignment a now db))

  remove-Covers :
      (current : Option AssignmentRow) (db : Database)
      → Covers
          (old_room current)
          none
          db
          (remove_assignment uuid property_id booking_id now correlation_id current db)
  remove-Covers none db = (λ _. refl, λ h. absurd (true≢false (sym h)))
  remove-Covers (some a) db =
      (λ h. absurd (true≢false h), λ _. (λ x e. any_known x a.room_id [] e, λ x e. ground arith))

  -- When following a booking's room reports no change, the tables are as they were. When it reports
  -- one, the room of the booking's current assignment before it, if there was one, and the room that
  -- the registry has for the booking, if it has one, are among the affected rooms; so for a first
  -- room, for another room and for none any more.
  pub sync_assignment-affected :
      (registry : RegistryRows) (b : NormalizedBooking) (db : Database)
      → Covers
          (old_room (current_assignment booking_id db))
          (new_room registry b)
          db
          (sync_assignment uuid property_id booking_id now correlation_id registry b db)
  unfolding sync_assignment
  sync_assignment-affected registry b db = elim (Bool-cases (has_physical_room b)) [
    | inl y ↦
        rw (y, sync_assignment)
          (change-Covers b (row_id_of (resolve_room registry b)) (current_assignment booking_id db)
            db)
    | inr n ↦ rw (n, sync_assignment) (remove-Covers (current_assignment booking_id db) db)
  ]
