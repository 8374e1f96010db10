-- ===== src/G301/Simulator/Plans.antt =====
-- A plan that is applied to the simulated device.
use clock_ha_orchestrator.Prelude.{ℕ, ◌≡◌, Option, List, [], ◌∷◌, arith}
use clock_ha_orchestrator.Prelude.Results.{ok}
use clock_ha_orchestrator.Domain.Models.{DesiredRoomIntent}
use clock_ha_orchestrator.G301.G301Register
use clock_ha_orchestrator.G301.Registers.{G301DeviceProfile, mode_value}
use clock_ha_orchestrator.G301.Registers.Codec.{encode_set_temperature_c-range}
use clock_ha_orchestrator.G301.Planner.{
  G301Plan, readback_expectation, plan_room_intent, compare_readback,
}
use clock_ha_orchestrator.G301.Planner.Laws.{
  Shape, switches_off, switches_on, plan_room_intent-Shape,
}
use clock_ha_orchestrator.G301.Simulator.{
  Device, device_read, device_write, advance_pending_status, write_plan, read_plan, apply_plan,
}

-- A device that mirrors without delay and has no status pending carries out every plan made from an
-- intent for its address: it refuses nothing, and the readback after the writes shows no mismatch.
pub apply_plan-compare_readback :
    (intent : DesiredRoomIntent) (slave : ℕ) (profile : Option G301DeviceProfile) (plan : G301Plan)
    (d : Device)
    → plan_room_intent intent slave profile ≡ ok plan
    → d.slave_address ≡ slave
    → d.status_delay_reads ≡ 0
    → d.pending_status ≡ []
    → (observed : List (ℕ × ℕ)) × ((apply_plan plan d).0 ≡ ok observed)
      × (compare_readback plan observed ≡ [])
unfolding apply_plan write_plan read_plan device_write device_read advance_pending_status
    compare_readback readback_expectation
apply_plan-compare_readback intent slave profile plan d h own now calm =
    by_shape (plan_room_intent-Shape intent slave profile plan h).2
  where
    by_shape :
        Shape intent slave profile plan
        → (observed : List (ℕ × ℕ)) × ((apply_plan plan d).0 ≡ ok observed)
          × (compare_readback plan observed ≡ [])
    by_shape (switches_off o e) =
        rw (e, own, now, calm) ((G301Register.power_status, 0) ∷ [], ground arith, ground arith)
    by_shape (switches_on p m t raw on ep em et a b c er e) =
        let range = encode_set_temperature_c-range t raw er in
        rw (e, own, now, calm)
          (
            (G301Register.power_status, 1)
                ∷ (G301Register.set_temperature, raw)
                ∷ (G301Register.mode_status, mode_value m)
                ∷ [],
            ground arith,
            ground arith,
          )
