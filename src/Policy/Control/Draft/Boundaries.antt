-- ===== src/Policy/Control/Draft/Boundaries.antt =====
-- The checkout that an override waits for is the one of a booking of the tables.
use clock_ha_orchestrator.Prelude.{
  ◌==◌, ==_iff, ℕ, ◌+◌, ◌*◌, ◌≡◌, refl, sym, subst, ap, ◌∙◌, Bool, true, false, Option, none, some,
  List, String, ltb, if-holds, Present, Present-map, select, arith,
}
use clock_ha_orchestrator.Prelude.Results.{Returns, Returns-bind}
use clock_ha_orchestrator.Domain.Enums.{is_automatic}
use clock_ha_orchestrator.Domain.Time.{day}
use clock_ha_orchestrator.Domain.Temperature.{Float}
use clock_ha_orchestrator.Domain.Models.{AutomationPolicy, PropertyPolicy, HotelPolicy}
use clock_ha_orchestrator.Policy.Control.Text.{payload_text}
use clock_ha_orchestrator.Policy.Control.Rows.{latest_room_state}
use clock_ha_orchestrator.Policy.Control.Draft.{
  field_of, OverrideDraft, with_limit, expiry_for_duration, current_draft, next_draft,
  BookingBoundary, boundary_of_booking, boundary_of_id, boundary_of_state, current_booking_boundary,
  has_reservation, limited_row, build_override_row,
}
use clock_ha_orchestrator.Persistence.Rows.{BookingRow, RoomStateRow, OverrideRow}
use clock_ha_orchestrator.Persistence.Session.Queries.{find-holds}
use clock_ha_orchestrator.Persistence.Session.{Database, find, newest}

-- The booking of the row `id`, whose stay ends at the time `checkout`: the day of its departure, at
-- the policy's time.
abbrev pub IsCheckout : PropertyPolicy → List BookingRow → ℕ → ℕ → Type 0
IsCheckout policy bookings id checkout =
    (b : BookingRow) × (find (λ x. x.id == id) bookings ≡ some b)
    × (b.id ≡ id)
    × (checkout ≡ policy.tzinfo.to_utc (b.departure_date * day + policy.default_check_out_time))

-- The latest state of the room is about the booking `id`, whose checkout is the time `checkout`.
abbrev pub IsStayEnd : PropertyPolicy → ℕ → Database → ℕ → ℕ → Type 0
IsStayEnd policy room_id db id checkout =
    (s : RoomStateRow) × (latest_room_state room_id db ≡ some s)
    × (s.booking_id ≡ some id)
    × IsCheckout policy db.bookings id checkout

-- An override until the checkout has the booking of its room's latest state, and ends at the
-- checkout of that booking.
abbrev pub EndsWithStay : PropertyPolicy → Database → OverrideRow → Type 0
EndsWithStay policy db row =
    row.until_checkout ≡ true
    → (id : ℕ) × (checkout : ℕ) × (row.booking_id ≡ some id)
      × (row.checkout_at ≡ some checkout)
      × IsStayEnd policy row.room_id db id checkout

pub EndsWithStay-same :
    (policy : PropertyPolicy) (a b : Database) (row : OverrideRow)
    → a.room_states ≡ b.room_states
    → a.bookings ≡ b.bookings
    → EndsWithStay policy a row
    → EndsWithStay policy b row
unfolding latest_room_state
EndsWithStay-same policy a b row e f h u =
    let (id, checkout, i, c, (s, l, k, v)) = h u in
    (
      id,
      checkout,
      i,
      c,
      (
        s,
        subst
            (λ r.
              newest (λ x. x.created_at) (λ x. x.id) (select (λ x. x.room_id == row.room_id) r)
              ≡ some s)
            e l,
        k,
        subst (λ bs. IsCheckout policy bs id checkout) f v,
      ),
    )

module _ (policy : PropertyPolicy) (now : ℕ) where
  abbrev Bounded : List BookingRow → ℕ → BookingBoundary → Type 0
  Bounded bookings id b = (b.booking_id ≡ id) × IsCheckout policy bookings id b.checkout_at

  booking-IsCheckout :
      (bookings : List BookingRow) (id : ℕ) (found : Option BookingRow)
      → find (λ x. x.id == id) bookings ≡ found
      → Present (Bounded bookings id) (boundary_of_booking policy now found)
  booking-IsCheckout bookings id none e = tt
  booking-IsCheckout bookings id (some b) e =
      if-holds (Present (Bounded bookings id)) (ltb now _) _ none (λ _. (same, (b, e, same, refl)))
        (λ _. tt)
    where
      same : b.id ≡ id
      same =
          (==_iff b.id id).0
            (subst (Present (λ x. (x.id == id) ≡ true)) e (find-holds (λ x. x.id == id) bookings))

  boundary-IsStayEnd :
      (room_id : ℕ) (db : Database)
      → Present
          (λ b. IsStayEnd policy room_id db b.booking_id b.checkout_at)
          (current_booking_boundary policy room_id now db)
  unfolding current_booking_boundary
  boundary-IsStayEnd room_id db = by_state (latest_room_state room_id db) refl
    where
      Ends : BookingBoundary → Type 0
      Ends b = IsStayEnd policy room_id db b.booking_id b.checkout_at

      by_id :
          (s : RoomStateRow) (o : Option ℕ)
          → latest_room_state room_id db ≡ some s
          → s.booking_id ≡ o
          → Present Ends (boundary_of_id policy now db.bookings s.automation_phase o)
      by_id s none l e = tt
      by_id s (some id) l e =
          if-holds (Present Ends) (has_reservation s.automation_phase) _ none
            (λ _.
              Present-map (Bounded db.bookings id) Ends _
                (λ b k. (
                  s,
                  l,
                  e ∙ ap some (sym k.0),
                  subst (λ n. IsCheckout policy db.bookings n b.checkout_at) (sym k.0) k.1,
                ))
                (booking-IsCheckout db.bookings id _ refl))
            (λ _. tt)

      by_state :
          (o : Option RoomStateRow)
          → latest_room_state room_id db ≡ o
          → Present Ends (boundary_of_state policy now db.bookings o)
      by_state none l = tt
      by_state (some s) l = by_id s s.booking_id l refl

module _ (property : PropertyPolicy) (policy : AutomationPolicy) (room_id now command_id : ℕ)
    (draft : OverrideDraft) (db : Database) where
  abbrev Ending : (ℕ → OverrideRow) → Type 0
  Ending make = (n : ℕ) → EndsWithStay property db (make n)

  limit-Ends :
      (limit : Option ℕ × Bool) (boundary : Option BookingBoundary)
      → Present (λ b. IsStayEnd property room_id db b.booking_id b.checkout_at) boundary
      → Returns Ending (with_limit policy room_id now command_id draft limit boundary)
  limit-Ends (e, true) none h = tt
  limit-Ends (e, true) (some b) h = λ n _. (b.booking_id, b.checkout_at, refl, refl, h)
  limit-Ends (e, false) boundary h = λ n u. ground arith

  limited_row-Ends :
      (boundary : Option BookingBoundary)
      → Present (λ b. IsStayEnd property room_id db b.booking_id b.checkout_at) boundary
      → Returns Ending (limited_row policy room_id now command_id draft boundary)
  unfolding limited_row
  limited_row-Ends boundary h =
      if-holds (Returns Ending) (is_automatic draft.control_mode) _ _ (λ e n u. ground arith)
        (λ _. limit-Ends (expiry_for_duration draft.duration now) boundary h)

pub build_override_row-EndsWithStay :
    (parse : List ℕ → Option Float) (policy : HotelPolicy) (room_id : ℕ) (field : String)
    (payload : Option (List ℕ)) (now command_id : ℕ) (db : Database)
    → Returns
        (λ make. (n : ℕ) → EndsWithStay policy.property db (make n))
        (build_override_row parse policy room_id field payload now command_id db)
unfolding build_override_row
build_override_row-EndsWithStay parse policy room_id field payload now command_id db =
    Returns-bind _ (payload_text payload) _ (λ text _. Returns-bind _ (field_of field) _ (λ known _.
      Returns-bind _ (next_draft parse policy.automation known text (current_draft room_id now db))
        _
        (λ draft _.
          limited_row-Ends policy.property policy.automation room_id now command_id draft db _
            (boundary-IsStayEnd policy.property now room_id db))))
