-- ===== src/G301/Planner/Laws.antt =====
-- What a plan may contain, when planning succeeds, and what an empty comparison means.
use clock_ha_orchestrator.Prelude.{
  ℕ, ◌≡◌, ◌≤◌, refl, ◌↔◌, inl, inr, true, false, not, ◌&&◌, ◌||◌, Option, some, List, [], ◌∷◌, map,
  All, select, arith, Bool-cases, Option-cases,
}
use clock_ha_orchestrator.Prelude.Results.{ok, Result-cases}
use clock_ha_orchestrator.Domain.Enums.{is_off}
use clock_ha_orchestrator.Domain.Temperature.{Float, at_most}
use clock_ha_orchestrator.Domain.Models.{DesiredRoomIntent}
use clock_ha_orchestrator.G301.G301Register
use clock_ha_orchestrator.G301.Registers.{
  G301DeviceProfile, G301Mode, mode_value, mode_from_hvac_mode, encode_set_temperature_c,
}
use clock_ha_orchestrator.G301.Planner.{
  ReadbackExpectation, G301Plan, plan_of, is_heating, is_cooling, prohibits_heat, prohibits_cool,
  power_off, power_on, mode_reason, plan_enabled, plan_room_intent, get, differs, mismatch_of,
  compare_readback,
}

-- The two plans of an intent: to switch off, or to set the mode and a temperature within the limits
-- of the device, and to switch on last.
pub data Shape (intent : DesiredRoomIntent) (slave : ℕ) (profile : Option G301DeviceProfile)
    (plan : G301Plan) : Type 0 where
  switches_off :
      (not intent.hvac.enabled || is_off intent.hvac.mode) ≡ true
      → plan ≡ plan_of intent slave (power_off ∷ [])
      → Shape intent slave profile plan
  switches_on :
      (p : G301DeviceProfile) (m : G301Mode) (target : Float) (raw : ℕ)
      → intent.hvac.enabled ≡ true
      → profile ≡ some p
      → mode_from_hvac_mode intent.hvac.mode ≡ some m
      → intent.hvac.target_temperature_c ≡ some target
      → (prohibits_heat p.mode_limitation && is_heating m) ≡ false
      → (prohibits_cool p.mode_limitation && is_cooling m) ≡ false
      → (at_most p.lower_temperature_c target && at_most target p.upper_temperature_c) ≡ true
      → encode_set_temperature_c target ≡ ok raw
      → plan
        ≡ plan_of intent slave (
            record {
              address = G301Register.mode;
              value = mode_value m;
              reason = mode_reason intent.hvac.mode;
            }
            ∷ record {
              address = G301Register.set_temperature;
              value = raw;
              reason = "desired HVAC target temperature";
            }
            ∷ power_on
            ∷ [])
      → Shape intent slave profile plan

module _ (intent : DesiredRoomIntent) (slave : ℕ) (profile : Option G301DeviceProfile)
    (plan : G301Plan) where
  plan_enabled-Shape :
      intent.hvac.enabled ≡ true
      → plan_enabled intent slave profile ≡ ok plan
      → Shape intent slave profile plan
  unfolding plan_enabled
  plan_enabled-Shape on h = elim (Option-cases (mode_from_hvac_mode intent.hvac.mode)) [
    | inl n ↦ absurd (ground arith)
    | inr (m, em) ↦ elim (Option-cases profile) [
      | inl n ↦ absurd (ground arith)
      | inr (p, ep) ↦ elim (Option-cases intent.hvac.target_temperature_c) [
        | inl n ↦ absurd (ground arith)
        | inr (t, et) ↦ elim (Result-cases (encode_set_temperature_c t)) [
          | inl (e, n) ↦ absurd (ground arith)
          | inr (raw, er) ↦
              switches_on p m t raw on ep em et (ground arith) (ground arith) (ground arith) er
                (ground arith)
        ]
      ]
    ]
  ]

  pub plan_room_intent-Shape :
      plan_room_intent intent slave profile ≡ ok plan
      → (1 ≤ slave) × (slave ≤ 255) × Shape intent slave profile plan
  unfolding plan_room_intent
  plan_room_intent-Shape h =
      elim (Bool-cases (not intent.hvac.enabled || is_off intent.hvac.mode)) [
        | inl t ↦ (ground arith, ground arith, switches_off t (ground arith))
        | inr f ↦ (ground arith, ground arith, plan_enabled-Shape (ground arith) (ground arith))
      ]

-- A comparison finds no mismatch exactly when every expectation was observed.
pub compare_readback_iff :
    (plan : G301Plan) (observed : List (ℕ × ℕ))
    → (compare_readback plan observed ≡ [])
      ↔ All (λ e. get e.address observed ≡ some e.expected) plan.readback_expectations
unfolding compare_readback
compare_readback_iff plan observed =
    (there plan.readback_expectations, back plan.readback_expectations)
  where
    one :
        (e : ReadbackExpectation)
        → (differs (get e.address observed) e.expected ≡ false)
          ↔ (get e.address observed ≡ some e.expected)
    one e = (λ h. ground arith, λ h. ground arith)

    there :
        (l : List ReadbackExpectation)
        → map (mismatch_of observed) (select (λ e. differs (get e.address observed) e.expected) l)
          ≡ []
        → All (λ e. get e.address observed ≡ some e.expected) l
    there [] h = tt
    there (e ∷ es) h = elim (Bool-cases (differs (get e.address observed) e.expected)) [
      | inl t ↦ absurd (
          let k : mismatch_of observed e
                ∷ map (mismatch_of observed)
                    (select (λ e. differs (get e.address observed) e.expected) es)
              ≡ [] =
            rw t at h in
          cc)
      | inr f ↦ ((one e).0 f, there es (rw f at h))
    ]

    back :
        (l : List ReadbackExpectation)
        → All (λ e. get e.address observed ≡ some e.expected) l
        → map (mismatch_of observed) (select (λ e. differs (get e.address observed) e.expected) l)
          ≡ []
    back [] h = refl
    back (e ∷ es) h = rw ((one e).1 h.0) (back es h.1)
