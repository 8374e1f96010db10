-- ===== src/Domain/StateMachine/Stays.antt =====
-- The bookings that `active_bookings_for_room` finds.
use clock_ha_orchestrator.Prelude.{
  ℕ, ◌≤◌, ◌≡◌, refl, sym, subst, ◌↔◌, ◌⊎◌, inl, inr, true, false, Option, none, some, List, [], ◌∷◌,
  String, str_eq, eq_iff, opt_str_eq, truthy, All, Bool-cases, ◌&&◌, ◌||◌, arith,
}
use clock_ha_orchestrator.Domain.Enums.{BookingStatus, is_expected, is_checked_in}
use clock_ha_orchestrator.Domain.Models.{NormalizedBooking, Room}
use clock_ha_orchestrator.Domain.StateMachine.{in_room_ids, is_candidate, active_bookings_for_room}

-- The booking is expected or checked in.
abbrev pub IsLive : BookingStatus → Type 0
IsLive s = (s ≡ BookingStatus.expected) ⊎ (s ≡ BookingStatus.checked_in)

-- The booking names the room by its Clock id or its key, which are not empty, or by its number.
abbrev pub Names : Room → Option String → Option String → Type 0
Names room id number =
    ((i : String) × (id ≡ some i)
      × (str_eq i "" ≡ false)
      × ((room.clock_room_id ≡ some i) ⊎ (room.key ≡ i)))
    ⊎ (number ≡ some room.key)

-- The booking occupies the room on the day or later.
abbrev pub IsStay : Room → ℕ → NormalizedBooking → Type 0
IsStay room on_date b =
    IsLive b.booking_status
    × Names room b.physical_room_id b.physical_room_number
    × (on_date ≤ b.departure_date)

status_iff : (s : BookingStatus) → ((is_expected s || is_checked_in s) ≡ true) ↔ IsLive s
status_iff BookingStatus.expected = (λ _. inl refl, λ _. refl)
status_iff BookingStatus.checked_in = (λ _. inr refl, λ _. refl)
status_iff BookingStatus.checked_out = (λ h. ground arith, λ h. ground arith)
status_iff BookingStatus.canceled = (λ h. ground arith, λ h. ground arith)
status_iff BookingStatus.no_show = (λ h. ground arith, λ h. ground arith)
status_iff BookingStatus.unknown = (λ h. ground arith, λ h. ground arith)

opt_iff : (a b : Option String) → (opt_str_eq a b ≡ true) ↔ (a ≡ b)
opt_iff none none = (λ _. refl, λ _. refl)
opt_iff none (some b) = (λ h. ground arith, λ h. ground arith)
opt_iff (some a) none = (λ h. ground arith, λ h. ground arith)
opt_iff (some a) (some b) = (λ h. ground (arith, eq_iff a b), λ h. ground (arith, eq_iff a b))

text_iff :
    (key i : String)
    → ((truthy (some key) && str_eq i key) ≡ true) ↔ ((str_eq i "" ≡ false) × (key ≡ i))
text_iff key i = (there, back)
  where
    there : (truthy (some key) && str_eq i key) ≡ true → (str_eq i "" ≡ false) × (key ≡ i)
    there h =
        let e : i ≡ key = ground (arith, eq_iff i key) in
        (subst (λ s. str_eq s "" ≡ false) (sym e) (ground arith), sym e)

    back : (str_eq i "" ≡ false) × (key ≡ i) → (truthy (some key) && str_eq i key) ≡ true
    back (n, e) =
        let same : str_eq i key ≡ true = (eq_iff i key).1 (sym e) in
        let k : str_eq key "" ≡ false = subst (λ s. str_eq s "" ≡ false) (sym e) n in ground arith

id_iff :
    (clock : Option String) (key i : String)
    → ((truthy clock && opt_str_eq (some i) clock || truthy (some key) && str_eq i key) ≡ true)
      ↔ ((str_eq i "" ≡ false) × ((clock ≡ some i) ⊎ (key ≡ i)))
id_iff none key i = (λ h. ground (arith, text_iff key i), λ h. ground (arith, text_iff key i))
id_iff (some c) key i = (
  λ h. ground (arith, text_iff key i, text_iff c i),
  λ h. ground (arith, text_iff key i, text_iff c i),
)

room_test_iff :
    (room : Room) (id number : Option String)
    → ((in_room_ids room id || opt_str_eq number (some room.key)) ≡ true) ↔ Names room id number
room_test_iff room none number = (
  λ h. inr ((opt_iff number (some room.key)).0 h),
  λ h. ground (arith, opt_iff number (some room.key)),
)
room_test_iff room (some i) number = (
  λ h. elim (Bool-cases (in_room_ids room (some i))) [
    | inl y ↦ (let k = (id_iff room.clock_room_id room.key i).0 y in inl (i, refl, k.0, k.1))
    | inr n ↦ inr ((opt_iff number (some room.key)).0 (rw n at h))
  ],
  λ h. elim h [
    | inl (j, e, k, c) ↦
        (let ij : j ≡ i = ground arith in
          let y : in_room_ids room (some i) ≡ true = (id_iff room.clock_room_id room.key i).1 (
            subst (λ s. (str_eq s "" ≡ false) × ((room.clock_room_id ≡ some s) ⊎ (room.key ≡ s))) ij
              (k, c)) in
          rw y refl)
    | inr e ↦ ground (arith, opt_iff number (some room.key))
  ],
)

is_candidate_iff :
    (room : Room) (on_date : ℕ) (b : NormalizedBooking)
    → (is_candidate room on_date b ≡ true) ↔ IsStay room on_date b
unfolding is_candidate
is_candidate_iff room on_date b = (
  λ h. ground (
    arith,
    status_iff b.booking_status,
    room_test_iff room b.physical_room_id b.physical_room_number,
  ),
  λ h. ground (
    arith,
    status_iff b.booking_status,
    room_test_iff room b.physical_room_id b.physical_room_number,
  ),
)

-- No booking is found exactly if none is such a stay.
pub no_booking_iff :
    (room : Room) (on_date : ℕ) (bs : List NormalizedBooking)
    → (active_bookings_for_room room bs on_date ≡ []) ↔ All (λ b. IsStay room on_date b → ⊥) bs
no_booking_iff room on_date [] = (λ _. tt, λ _. refl)
no_booking_iff room on_date (b ∷ bs) = elim (Bool-cases (is_candidate room on_date b)) [
  | inl y ↦ rw y (λ h. ground arith, λ h. absurd (h.0 ((is_candidate_iff room on_date b).0 y)))
  | inr n ↦ rw n (
    λ h. (
      λ s. absurd (let k = (is_candidate_iff room on_date b).1 s in cc),
      (no_booking_iff room on_date bs).0 h,
    ),
    λ h. (no_booking_iff room on_date bs).1 h.1,
  )
]
