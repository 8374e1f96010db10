-- ===== src/Domain/Registry.antt =====
-- The validators of `RoomRegistry` in app/domain/models.py.
pub mod Laws
use clock_ha_orchestrator.Prelude.{
  ℕ, zero, suc, ◌+◌, ◌≡◌, ◌≤◌, ◌<◌, refl, ap, ◌↔◌, inl, inr, Bool, true, false, not, ◌&&◌, ◌||◌,
  Option, none, some, List, [], ◌∷◌, map, String, str_eq, eq_iff, ltb, leb, ◌==◌, if◌then◌else◌,
  truthy, any, length, select, arith, Bool-cases,
}
use clock_ha_orchestrator.Prelude.Results.{Result, ok, err, ◌>>◌, raise_if, ◌>>=◌}
use clock_ha_orchestrator.Domain.Models.{
  ValueError, gateway_incomplete, duplicate_room_key, duplicate_clock_room_id, duplicate_entrance,
  unknown_entrance, duplicate_slave, Entrance, Room, RoomRegistry,
}

-- `set(keys)` under a test of equality, and `len(keys) != len(set(keys))`.
module _ {ℓ} {A : Type ℓ} (eqb : A → A → Bool) where
  pub to_set : List A → List A
  to_set [] = []
  to_set (x ∷ xs) = if any (eqb x) xs then to_set xs else x ∷ to_set xs

  pub has_duplicates : List A → Bool
  unfolding to_set
  has_duplicates xs = not (length xs == length (to_set xs))

-- `[value for value in values if value]`, of texts that may be missing.
abbrev pub present : List (Option String) → List String
present [] = []
present (none ∷ xs) = present xs
present (some s ∷ xs) = if truthy (some s) then s ∷ present xs else present xs

-- The pairs (room.entrance_key, room.g301.slave_address) of the mapped rooms.
abbrev pub g301_addresses : List Room → List (String × ℕ)
g301_addresses [] = []
g301_addresses (r ∷ rs) = elim r.g301 [
  | none ↦ g301_addresses rs
  | some a ↦ (r.entrance_key, a) ∷ g301_addresses rs
]

abbrev pub same_address : String × ℕ → String × ℕ → Bool
same_address a b = str_eq a.0 b.0 && (a.1 == b.1)

pub validate_gateway_address : Entrance → Result ValueError Entrance
validate_gateway_address e = elim e.gateway_host [
  | none ↦ elim e.gateway_port [ none ↦ ok e | some _ ↦ err gateway_incomplete ]
  | some _ ↦ elim e.gateway_port [ none ↦ err gateway_incomplete | some _ ↦ ok e ]
]

pub require_unique_room_keys : List Room → Result ValueError (List Room)
unfolding has_duplicates
require_unique_room_keys rooms = do
  raise_if (has_duplicates str_eq (map (λ r. r.key) rooms)) duplicate_room_key
  raise_if (has_duplicates str_eq (present (map (λ r. r.clock_room_id) rooms)))
      duplicate_clock_room_id
  ok rooms

-- `{room.entrance_key for room in rooms if room.entrance_key not in known_entrances}`
abbrev pub missing_entrances : List Entrance → List Room → List String
missing_entrances es rs =
    map (λ r. r.entrance_key) (select (λ r. not (any (λ e. str_eq r.entrance_key e.key) es)) rs)

abbrev pub is_empty {ℓ} : {A : Type ℓ} → List A → Bool
is_empty [] = true
is_empty (_ ∷ _) = false

-- The field validator runs before the model validator.
pub validate_registry : RoomRegistry → Result ValueError RoomRegistry
unfolding has_duplicates require_unique_room_keys
validate_registry g = do
  rooms ← require_unique_room_keys g.rooms
  raise_if (has_duplicates str_eq (map (λ e. e.key) g.entrances)) duplicate_entrance
  raise_if (not (is_empty (missing_entrances g.entrances g.rooms))) unknown_entrance
  raise_if (has_duplicates same_address (g301_addresses g.rooms)) duplicate_slave
  ok g
