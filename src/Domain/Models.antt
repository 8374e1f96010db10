-- ===== src/Domain/Models.antt =====
-- app/domain/models.py: the records, and the validators that pydantic runs when one is built. UUIDs
-- are numbers, a date is the number of its day, a time of day counts microseconds. Fields of a
-- booking, a room and a property that only display or storage reads are left out.
use clock_ha_orchestrator.Prelude.{
  ℕ, Bool, true, false, not, ◌&&◌, ◌||◌, Option, none, some, List, String, str_eq, ltb,
  if◌then◌else◌, truthy, is_some,
}
use clock_ha_orchestrator.Prelude.Results.{Result, ok, ◌>>◌, raise_if}
use clock_ha_orchestrator.Domain.Enums.{
  BookingStatus, AutomationPhase, ControlMode, ManualHvacMode, AttentionReason, is_expected,
  is_checked_in, is_unknown, is_automatic, is_off,
}
use clock_ha_orchestrator.Domain.Time.{ZoneInfo, DateTime, before, not_after}
use clock_ha_orchestrator.Domain.Temperature.{Float, less, float_max, float_min}

-- The `ValueError`s of the package, one for each place that raises.
pub data ValueError : Type 0 where
  departure_before_arrival unknown_without_attention : ValueError
  gateway_incomplete duplicate_room_key duplicate_clock_room_id : ValueError
  duplicate_entrance unknown_entrance duplicate_slave : ValueError
  temperature_bounds : ValueError
  enabled_off enabled_without_target disabled_with_mode disabled_with_target : ValueError
  empty_room_key empty_reason intent_window : ValueError

pub record NormalizedBooking : Type 0 where
  pub property_id : String
  pub clock_booking_id : String
  pub booking_status : BookingStatus
  pub source_booking_status : String
  pub arrival_date : ℕ
  pub departure_date : ℕ
  pub physical_room_id : Option String
  pub physical_room_number : Option String
  pub payload_hash : String
  pub needs_attention : Bool
  pub attention_reason : AttentionReason

unfoldable pub validate_dates : NormalizedBooking → Result ValueError NormalizedBooking
validate_dates b = do
  raise_if (ltb b.departure_date b.arrival_date) departure_before_arrival
  raise_if (is_unknown b.booking_status && not b.needs_attention) unknown_without_attention
  ok b

abbrev pub has_physical_room : NormalizedBooking → Bool
has_physical_room b = truthy b.physical_room_id || truthy b.physical_room_number

abbrev pub active_for_automation : NormalizedBooking → Bool
active_for_automation b = is_expected b.booking_status || is_checked_in b.booking_status

pub record Entrance : Type 0 where
  pub key : String
  pub name : String
  pub gateway_host : Option String
  pub gateway_port : Option ℕ
  pub enabled : Bool

pub record Room : Type 0 where
  pub key : String
  pub name : String
  pub entrance_key : String
  pub clock_room_id : Option String
  -- the slave address of the room's `G301RoomMapping`
  pub g301 : Option ℕ
  pub enabled : Bool

pub record RoomRegistry : Type 0 where
  pub property_key : String
  pub entrances : List Entrance
  pub rooms : List Room

pub record PropertyPolicy : Type 0 where
  pub tzinfo : ZoneInfo
  pub default_check_in_time : ℕ
  pub default_check_out_time : ℕ

pub record AutomationPolicy : Type 0 where
  pub pre_arrival_lead_minutes : ℕ
  pub default_heating_target_c : Float
  pub default_cooling_target_c : Float
  pub vacant_heating_setback_c : Float
  pub occupied_minimum_target_c : Float
  pub occupied_maximum_target_c : Float
  pub manual_override_max_minutes : ℕ
  pub turn_on_water_heater_pre_arrival : Bool
  pub enable_convectors_pre_arrival : Bool

pub validate_temperature_bounds : AutomationPolicy → Result ValueError AutomationPolicy
validate_temperature_bounds p = do
  raise_if (less p.occupied_maximum_target_c p.occupied_minimum_target_c) temperature_bounds
  ok p

unfoldable pub clamp_temperature : AutomationPolicy → Float → Float
clamp_temperature p value =
    float_min (float_max value p.occupied_minimum_target_c) p.occupied_maximum_target_c

pub record HotelPolicy : Type 0 where
  pub property : PropertyPolicy
  pub automation : AutomationPolicy

pub record ManualOverride : Type 0 where
  pub control_mode : ControlMode
  pub clock_booking_id : Option String
  pub hvac_mode : ManualHvacMode
  pub target_temperature_c : Option Float
  pub water_heater_enabled : Option Bool
  pub expires_at : Option DateTime
  pub checkout_at : Option DateTime
  pub until_checkout : Bool
  pub command_id : ℕ

-- `now < limit`, where no limit means no.
abbrev pub before_limit : DateTime → Option DateTime → Bool
before_limit now none = false
before_limit now (some limit) = before now limit

-- `self.clock_booking_id is not None and self.clock_booking_id != clock_booking_id`
abbrev pub other_booking : Option String → Option String → Bool
other_booking none _ = false
other_booking (some own) none = true
other_booking (some own) (some given) = not (str_eq own given)

unfoldable pub is_active : ManualOverride → DateTime → Option String → Bool
is_active o now clock_booking_id =
    if is_automatic o.control_mode
    then false
    else if o.until_checkout
    then if other_booking o.clock_booking_id clock_booking_id
      then false
      else before_limit now o.checkout_at
    else before_limit now o.expires_at

pub record HvacIntent : Type 0 where
  pub enabled : Bool
  pub mode : ManualHvacMode
  pub target_temperature_c : Option Float

unfoldable pub validate_hvac_state : HvacIntent → Result ValueError HvacIntent
validate_hvac_state h =
    if h.enabled
    then (do
      raise_if (is_off h.mode) enabled_off
      raise_if (not (is_some h.target_temperature_c)) enabled_without_target
      ok h)
    else (do
      raise_if (not (is_off h.mode)) disabled_with_mode
      raise_if (is_some h.target_temperature_c) disabled_with_target
      ok h)

pub record DesiredRoomIntent : Type 0 where
  pub room_key : String
  pub intent_version : ℕ
  pub automation_phase : AutomationPhase
  pub control_mode : ControlMode
  pub effective_from : DateTime
  pub expires_at : Option DateTime
  pub hvac : HvacIntent
  pub water_heater : Bool
  pub convectors : Bool
  pub reason : String
  pub correlation_id : ℕ

-- `self.expires_at is not None and self.expires_at <= self.effective_from`; every datetime of the
-- model is aware, so the two tests of `utcoffset` pass.
abbrev pub ends_before_start : DateTime → Option DateTime → Bool
ends_before_start start none = false
ends_before_start start (some finish) = not_after finish start

-- The field constraints `min_length=1`, and the model validator.
unfoldable pub validate_intent : DesiredRoomIntent → Result ValueError DesiredRoomIntent
validate_intent i = do
  raise_if (str_eq i.room_key "") empty_room_key
  raise_if (str_eq i.reason "") empty_reason
  raise_if (ends_before_start i.effective_from i.expires_at) intent_window
  ok i

-- `stable_payload`: all of the intent but the correlation id and the version.
pub record StablePayload : Type 0 where
  pub room_key : String
  pub automation_phase : AutomationPhase
  pub control_mode : ControlMode
  pub effective_from : DateTime
  pub expires_at : Option DateTime
  pub hvac : HvacIntent
  pub water_heater : Bool
  pub convectors : Bool
  pub reason : String

abbrev pub stable_payload : DesiredRoomIntent → StablePayload
stable_payload i = record {
  room_key = i.room_key;
  automation_phase = i.automation_phase;
  control_mode = i.control_mode;
  effective_from = i.effective_from;
  expires_at = i.expires_at;
  hvac = i.hvac;
  water_heater = i.water_heater;
  convectors = i.convectors;
  reason = i.reason;
}

pub record RoomStateEvaluation : Type 0 where
  pub room_key : Option String
  pub phase : AutomationPhase
  pub booking : Option NormalizedBooking
  pub needs_attention : Bool
  pub attention_reason : AttentionReason
  pub reason : String
  pub effective_from : DateTime
  pub expires_at : Option DateTime
