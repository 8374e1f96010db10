-- ===== src/Domain/StateMachine/Selection.antt =====
-- The choice of a booking: sorting, and `_select_relevant_booking`.
use clock_ha_orchestrator.Prelude.{
  ℕ, ◌≡◌, ◌≤◌, ◌<◌, refl, subst, ◌⊎◌, inl, inr, Bool, true, false, Option, none, some, List, [],
  ◌∷◌, All, Any, select, insert_by, sorted_by, arith, Bool-cases, List-cases,
}
use clock_ha_orchestrator.Domain.Enums.{is_expected, is_checked_in}
use clock_ha_orchestrator.Domain.Time.{DateTime}
use clock_ha_orchestrator.Domain.Models.{NormalizedBooking, HotelPolicy}
use clock_ha_orchestrator.Domain.StateMachine.{
  arrival_at, checkout_at, first, earliest, select_relevant_booking,
}

-- The first of the elements with the least key.
abbrev pub IsLeast : {A : Type 0} → (A → ℕ) → A → List A → Type 0
IsLeast key m xs = Any (λ y. y ≡ m) xs × All (λ y. key m ≤ key y) xs

module _ {A : Type 0} (key : A → ℕ) where
  first-insert_by :
      (x : A) (l : List A)
      → ((l ≡ []) × (first (insert_by key x l) ≡ some x))
        ⊎ ((h : A) × (first l ≡ some h)
            × (((key x ≤ key h) × (first (insert_by key x l) ≡ some x))
                ⊎ ((key h < key x) × (first (insert_by key x l) ≡ some h))))
  first-insert_by x [] = inl (refl, refl)
  first-insert_by x (h ∷ t) = inr (h, refl, ground arith)

  sorted_by-nil : (xs : List A) → sorted_by key xs ≡ [] → xs ≡ []
  sorted_by-nil [] e = refl
  sorted_by-nil (x ∷ xs) e = elim (List-cases (sorted_by key xs)) [
    | inl n ↦ ground arith
    | inr (h, t, n) ↦ ground arith
  ]

  All-mono : (a b : ℕ) (xs : List A) → a ≤ b → All (λ y. b ≤ key y) xs → All (λ y. a ≤ key y) xs
  All-mono a b [] h l = tt
  All-mono a b (x ∷ xs) h l = (omega arith, All-mono a b xs h l.1)

  -- The head of the sorted list has the least key.
  pub first-sorted_by-IsLeast :
      (xs : List A) (m : A) → first (sorted_by key xs) ≡ some m → IsLeast key m xs
  first-sorted_by-IsLeast [] m e = cc
  first-sorted_by-IsLeast (x ∷ xs) m e = elim (first-insert_by x (sorted_by key xs)) [
    | inl (n, f) ↦
        subst (λ z. IsLeast key z (x ∷ xs)) {x = x} (ground arith)
          (rw (sorted_by-nil xs n) (inl refl, (omega arith, tt)))
    | inr (h, f, inl (le, g)) ↦
        let least = first-sorted_by-IsLeast xs h f in
        subst (λ z. IsLeast key z (x ∷ xs)) {x = x} (ground arith)
          (inl refl, (omega arith, All-mono (key x) (key h) xs le least.1))
    | inr (h, f, inr (lt, g)) ↦
        let least = first-sorted_by-IsLeast xs h f in
        subst (λ z. IsLeast key z (x ∷ xs)) {x = h} (ground arith)
          (inr least.0, (omega arith, least.1))
  ]

  first-sorted_by : (x : A) (xs : List A) → (m : A) × (first (sorted_by key (x ∷ xs)) ≡ some m)
  first-sorted_by x xs = elim (first-insert_by x (sorted_by key xs)) [
    | inl (n, f) ↦ (x, f)
    | inr (h, f, inl (le, g)) ↦ (x, g)
    | inr (h, f, inr (lt, g)) ↦ (h, g)
  ]

-- Membership under `select`, both ways.
module _ {A : Type 0} (p : A → Bool) where
  pub Any-select :
      (m : A) (xs : List A) → Any (λ y. y ≡ m) (select p xs) → Any (λ y. y ≡ m) xs × (p m ≡ true)
  Any-select m [] h = absurd h
  Any-select m (x ∷ xs) h = elim (Bool-cases (p x)) [
    | inl t ↦ keep t (Any-select m xs) (rw t at h)
    | inr f ↦ let (a, b) = Any-select m xs (rw f at h) in (inr a, b)
  ]
    where
      keep :
          p x ≡ true
          → (Any (λ y. y ≡ m) (select p xs) → Any (λ y. y ≡ m) xs × (p m ≡ true))
          → (x ≡ m) ⊎ Any (λ y. y ≡ m) (select p xs)
          → Any (λ y. y ≡ m) (x ∷ xs) × (p m ≡ true)
      keep t ih (inl e) = (inl e, subst (λ z. p z ≡ true) e t)
      keep t ih (inr r) = let (a, b) = ih r in (inr a, b)

  pub All-select :
      (Q : A → Type 0) (xs : List A) → All Q (select p xs) → All (λ y. p y ≡ true → Q y) xs
  All-select Q [] h = tt
  All-select Q (x ∷ xs) h = elim (Bool-cases (p x)) [
    | inl t ↦
        let both : All Q (x ∷ select p xs) = rw t at h in (λ _. both.0, All-select Q xs both.1)
    | inr f ↦ (λ t. cc, All-select Q xs (rw f at h))
  ]

  pub select-nil : (xs : List A) → select p xs ≡ [] → All (λ y. p y ≡ false) xs
  select-nil [] h = tt
  select-nil (x ∷ xs) h = elim (Bool-cases (p x)) [
    | inl t ↦ ground arith
    | inr f ↦ (f, select-nil xs (rw f at h))
  ]

  pub select_none : (xs : List A) → All (λ y. p y ≡ false) xs → select p xs ≡ []
  select_none [] h = refl
  select_none (x ∷ xs) h = rw h.0 (select_none xs h.1)

-- What the choice means for a list of bookings that count for automation.
pub record IsChosen (policy : HotelPolicy) (bookings : List NormalizedBooking)
    (b : NormalizedBooking) : Type 0 where
  pub given : Any (λ y. y ≡ b) bookings
  -- a checked-in booking is preferred to an expected one
  pub prefers :
      is_checked_in b.booking_status ≡ false
      → All (λ y. is_checked_in y.booking_status ≡ false) bookings
  -- of several checked-in bookings the one with the earliest checkout is chosen
  pub leaves_first :
      is_checked_in b.booking_status ≡ true
      → All
          (λ y.
            is_checked_in y.booking_status ≡ true
            → (checkout_at b policy).wall ≤ (checkout_at y policy).wall)
          bookings
  -- of several expected bookings the one with the earliest arrival is chosen
  pub arrives_first :
      is_expected b.booking_status ≡ true
      → All
          (λ y.
            is_expected y.booking_status ≡ true
            → (arrival_at b policy).wall ≤ (arrival_at y policy).wall)
          bookings

pub All-Any :
    {A : Type 0} (P : A → Type 0) (m : A) (xs : List A) → All P xs → Any (λ y. y ≡ m) xs → P m
All-Any P m [] a h = absurd h
All-Any P m (x ∷ xs) a (inl e) = subst P e a.0
All-Any P m (x ∷ xs) a (inr r) = All-Any P m xs a.1 r

earliest-cases :
    (key : NormalizedBooking → DateTime) (l : List NormalizedBooking)
    → ((l ≡ []) × (earliest key l ≡ none))
      ⊎ ((m : NormalizedBooking) × (earliest key l ≡ some m) × IsLeast (λ b. (key b).wall) m l)
unfolding earliest
earliest-cases key [] = inl (refl, refl)
earliest-cases key (x ∷ xs) =
    let (m, e) = first-sorted_by (λ b. (key b).wall) x xs in
    inr (m, e, first-sorted_by-IsLeast (λ b. (key b).wall) (x ∷ xs) m e)

abbrev Choice : HotelPolicy → List NormalizedBooking → Option NormalizedBooking → Type 0
Choice policy bookings r =
    ((bookings ≡ []) × (r ≡ none))
    ⊎ ((m : NormalizedBooking) × (r ≡ some m) × IsChosen policy bookings m)

-- Without bookings nothing is chosen. Otherwise a booking of the list is: a checked-in one if there
-- is any, of the checked-in ones one with the earliest checkout, and of the expected ones one with
-- the earliest arrival.
pub select_relevant_booking-Choice :
    (policy : HotelPolicy) (bookings : List NormalizedBooking) (now : DateTime)
    → Choice policy bookings (select_relevant_booking bookings now policy)
unfolding select_relevant_booking
select_relevant_booking-Choice policy bookings now =
    elim (earliest-cases (λ b. checkout_at b policy) (select in_house bookings)) [
      | inr (m, e, least) ↦
          let (mem, here) = Any-select in_house m bookings least.0 in
          rw e (
            inr (
              m,
              refl,
              record {
                given = mem;
                prefers = λ h. cc;
                leaves_first = λ _. All-select in_house _ bookings least.1;
                arrives_first = λ h. absurd (not_both m here h);
              },
            ))
      | inl (none_here, e) ↦
          let away = select-nil in_house bookings none_here in
          rw e (elim (earliest-cases (λ b. arrival_at b policy) (select coming bookings)) [
            | inr (m, e2, least) ↦
                let (mem, comes) = Any-select coming m bookings least.0 in
                rw e2 (
                  inr (
                    m,
                    refl,
                    record {
                      given = mem;
                      prefers = λ h. away;
                      leaves_first = λ h. absurd (not_both m h comes);
                      arrives_first = λ _. All-select coming _ bookings least.1;
                    },
                  ))
            | inl (none_coming, e2) ↦
                rw e2 (last bookings away (select-nil coming bookings none_coming))
          ])
    ]
  where
    in_house : NormalizedBooking → Bool
    in_house b = is_checked_in b.booking_status

    coming : NormalizedBooking → Bool
    coming b = is_expected b.booking_status

    not_both :
        (m : NormalizedBooking)
        → is_checked_in m.booking_status ≡ true
        → is_expected m.booking_status ≡ true
        → ⊥
    not_both m h k = ground arith

    last :
        (l : List NormalizedBooking)
        → All (λ y. in_house y ≡ false) l
        → All (λ y. coming y ≡ false) l
        → Choice policy l (first (sorted_by (λ b. b.arrival_date) l))
    last [] away none_coming = inl (refl, refl)
    last (x ∷ xs) away none_coming =
        let (m, e) = first-sorted_by (λ b. b.arrival_date) x xs in
        let mem = (first-sorted_by-IsLeast (λ b. b.arrival_date) (x ∷ xs) m e).0 in
        rw e (
          inr (
            m,
            refl,
            record {
              given = mem;
              prefers = λ h. away;
              leaves_first =
                  λ h. absurd (let f = All-Any (λ y. in_house y ≡ false) m (x ∷ xs) away mem in cc);
              arrives_first = λ h.
                  absurd (let f = All-Any (λ y. coming y ≡ false) m (x ∷ xs) none_coming mem in cc);
            },
          ))
