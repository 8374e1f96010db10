-- ===== src/Domain/Registry/Laws.antt =====
-- What a registry that passes its validators guarantees.
use clock_ha_orchestrator.Prelude.{
  suc, ◌≡◌, ◌≤◌, refl, ap, ◌↔◌, inl, inr, Bool, true, false, List, [], ◌∷◌, map, str_eq, any,
  any-false_iff, length, All, arith, Bool-cases,
}
use clock_ha_orchestrator.Prelude.Results.{is_ok}
use clock_ha_orchestrator.Domain.Models.{Entrance, Room, RoomRegistry}
use clock_ha_orchestrator.Domain.Registry.{
  to_set, has_duplicates, present, g301_addresses, same_address, missing_entrances, is_empty,
  require_unique_room_keys, validate_registry,
}

-- The elements are different from one another under the test.
abbrev pub Distinct : {A : Type 0} → (A → A → Bool) → List A → Type 0
Distinct eqb [] = Unit
Distinct eqb (x ∷ xs) = All (λ y. eqb x y ≡ false) xs × Distinct eqb xs

module _ {A : Type 0} (eqb : A → A → Bool) where
  length-to_set-le : (xs : List A) → length (to_set eqb xs) ≤ length xs
  unfolding to_set
  length-to_set-le [] = omega arith
  length-to_set-le (x ∷ xs) = ground (arith, length-to_set-le xs)

  Distinct-length : (xs : List A) → (length xs ≡ length (to_set eqb xs)) ↔ Distinct eqb xs
  unfolding to_set
  Distinct-length [] = (λ _. tt, λ _. refl)
  Distinct-length (x ∷ xs) = elim (Bool-cases (any (eqb x) xs)) [
    | inl t ↦ (
      λ h. absurd (ground (arith, length-to_set-le xs)),
      λ d. let f = (any-false_iff (eqb x) xs).1 d.0 in cc,
    )
    | inr f ↦ (
      λ h. ((any-false_iff (eqb x) xs).0 f, (Distinct-length xs).0 (ground arith)),
      λ d. rw f (ap suc ((Distinct-length xs).1 d.1)),
    )
  ]

  -- The comparison of lengths finds the lists with a repeated element.
  pub has_duplicates_iff : (xs : List A) → (has_duplicates eqb xs ≡ false) ↔ Distinct eqb xs
  unfolding has_duplicates
  has_duplicates_iff xs = (
    λ h. (Distinct-length xs).0 (ground arith),
    λ d. let e = (Distinct-length xs).1 d in ground arith,
  )

abbrev pub IsKnown : List Entrance → Room → Type 0
IsKnown es r = any (λ e. str_eq r.entrance_key e.key) es ≡ true

IsKnown-iff :
    (es : List Entrance) (rs : List Room)
    → (is_empty (missing_entrances es rs) ≡ true) ↔ All (IsKnown es) rs
IsKnown-iff es [] = (λ _. tt, λ _. refl)
IsKnown-iff es (r ∷ rs) = elim (Bool-cases (any (λ e. str_eq r.entrance_key e.key) es)) [
  | inl t ↦ (λ h. (t, (IsKnown-iff es rs).0 (rw t at h)), λ h. rw t ((IsKnown-iff es rs).1 h.1))
  | inr f ↦ (λ h. absurd (let k : false ≡ true = rw f at h in cc), λ h. let g = h.0 in cc)
]

pub record IsWellFormed (g : RoomRegistry) : Type 0 where
  pub room_keys : Distinct str_eq (map (λ r. r.key) g.rooms)
  pub clock_room_ids : Distinct str_eq (present (map (λ r. r.clock_room_id) g.rooms))
  pub entrance_keys : Distinct str_eq (map (λ e. e.key) g.entrances)
  pub known_entrances : All (IsKnown g.entrances) g.rooms
  pub slaves : Distinct same_address (g301_addresses g.rooms)

-- The validators accept a registry exactly when its room keys, its Clock room ids, its entrance keys
-- and the slave addresses within each entrance are unique, and every room stands at a known entrance.
pub validate_registry_iff :
    (g : RoomRegistry) → (is_ok (validate_registry g) ≡ true) ↔ IsWellFormed g
unfolding validate_registry require_unique_room_keys
validate_registry_iff g = (there, back)
  where
    there : is_ok (validate_registry g) ≡ true → IsWellFormed g
    there h = record {
      room_keys = (has_duplicates_iff str_eq (map (λ r. r.key) g.rooms)).0 (ground arith);
      clock_room_ids =
          (has_duplicates_iff str_eq (present (map (λ r. r.clock_room_id) g.rooms))).0
            (ground arith);
      entrance_keys = (has_duplicates_iff str_eq (map (λ e. e.key) g.entrances)).0 (ground arith);
      known_entrances = (IsKnown-iff g.entrances g.rooms).0 (ground arith);
      slaves = (has_duplicates_iff same_address (g301_addresses g.rooms)).0 (ground arith);
    }

    back : IsWellFormed g → is_ok (validate_registry g) ≡ true
    back w =
        rw
          (
            (has_duplicates_iff str_eq (map (λ r. r.key) g.rooms)).1 w.room_keys,
            (has_duplicates_iff str_eq (present (map (λ r. r.clock_room_id) g.rooms))).1
                w.clock_room_ids,
            (has_duplicates_iff str_eq (map (λ e. e.key) g.entrances)).1 w.entrance_keys,
            (IsKnown-iff g.entrances g.rooms).1 w.known_entrances,
            (has_duplicates_iff same_address (g301_addresses g.rooms)).1 w.slaves,
          )
          refl
