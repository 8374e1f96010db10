-- ===== src/G301/Registers/Codec.antt =====
-- The codecs of register values: ranges, round trips and rounding.
use clock_ha_orchestrator.Prelude.{
  ℕ, ◌+◌, ◌-◌, ◌*◌, ◌≡◌, ◌≤◌, refl, ap, ◌∙◌, ==_iff, ◌&&◌, List, [], ◌∷◌, leb, ◌==◌, any, select,
  arith, Bool-cases, inl, inr,
}
use clock_ha_orchestrator.Prelude.Int.{pos, negsuc}
use clock_ha_orchestrator.Prelude.Results.{ok}
use clock_ha_orchestrator.Domain.Temperature.{Float, degrees}
use clock_ha_orchestrator.G301.Registers.{
  G301DeviceProfile, G301Fault, is_bit_set, build_device_profile, decode_indoor_faults,
  indoor_faults, round_half_even, encode_set_temperature_c, decode_set_temperature_c,
  encode_ifeel_ambient_temperature_c, decode_offset_temperature_c,
}

-- Rounding to a multiple of 100 moves a number by 50 at most.
round_near :
    (n : ℕ) → (round_half_even n 100 * 100 ≤ n + 50) × (n ≤ round_half_even n 100 * 100 + 50)
round_near n = ground arith

round_exact : (raw : ℕ) → round_half_even (raw * 100) 100 ≡ raw
round_exact raw = ground arith

-- Every register value from 160 to 310 is read back as it was before it was decoded.
pub encode-decode_set_temperature_c :
    (raw : ℕ)
    → 160 ≤ raw
    → raw ≤ 310
    → encode_set_temperature_c (decode_set_temperature_c raw) ≡ ok raw
unfolding encode_set_temperature_c decode_set_temperature_c
encode-decode_set_temperature_c raw l h = ground (arith, round_exact raw)

-- A temperature that is not negative and is encoded gives a register value from 160 to 310 that
-- decodes to a temperature at most a twentieth of a degree away.
pub decode-encode_set_temperature_c :
    (n raw : ℕ)
    → encode_set_temperature_c (Float.fin (pos n)) ≡ ok raw
    → (160 ≤ raw)
      × (raw ≤ 310)
      × (m : ℕ) × (decode_set_temperature_c raw ≡ Float.fin (pos m))
      × (m ≤ n + 50)
      × (n ≤ m + 50)
unfolding encode_set_temperature_c decode_set_temperature_c
decode-encode_set_temperature_c n raw h = (
  ground (arith, round_near n),
  ground (arith, round_near n),
  raw * 100,
  refl,
  ground (arith, round_near n),
  ground (arith, round_near n),
)

-- Whatever is encoded is in range: not-a-number, the infinities and negative values are refused.
pub encode_set_temperature_c-range :
    (value : Float) (raw : ℕ) → encode_set_temperature_c value ≡ ok raw → (160 ≤ raw) × (raw ≤ 310)
unfolding encode_set_temperature_c
encode_set_temperature_c-range (Float.fin (pos n)) raw h = ground (arith, round_near n)
encode_set_temperature_c-range (Float.fin (negsuc n)) raw h = ground arith
encode_set_temperature_c-range Float.nan raw h = ground arith
encode_set_temperature_c-range Float.neg_inf raw h = ground arith
encode_set_temperature_c-range Float.pos_inf raw h = ground arith

-- An ambient temperature that is not negative and is encoded survives the offset encoding to a
-- twentieth of a degree.
pub decode_offset-encode_ifeel :
    (n raw : ℕ)
    → encode_ifeel_ambient_temperature_c (Float.fin (pos n)) ≡ ok raw
    → (m : ℕ) × (decode_offset_temperature_c raw ≡ Float.fin (pos m)) × (m ≤ n + 50) × (n ≤ m + 50)
unfolding encode_ifeel_ambient_temperature_c decode_offset_temperature_c
decode_offset-encode_ifeel n raw h =
    ((raw - 1000) * 100, ground arith, ground (arith, round_near n), ground (arith, round_near n))

-- The limits of an accepted device profile: the lower is from 16 to 25, the upper from 26 to 31.
pub build_device_profile-limits :
    (c m upper lower : ℕ) (p : G301DeviceProfile)
    → build_device_profile c m upper lower ≡ ok p
    → (p.lower_temperature_c ≡ degrees lower)
      × (p.upper_temperature_c ≡ degrees upper)
      × (16 ≤ lower)
      × (lower ≤ 25)
      × (26 ≤ upper)
      × (upper ≤ 31)
unfolding build_device_profile
build_device_profile-limits c m upper lower p h = ground arith

any-select_bits :
    (raw b : ℕ) (l : List G301Fault)
    → any (λ f. f.bit == b) (select (λ f. is_bit_set raw f.bit) l)
      ≡ (any (λ f. f.bit == b) l && is_bit_set raw b)
any-select_bits raw b [] = refl
any-select_bits raw b (f ∷ fs) = elim (Bool-cases (f.bit == b)) [
  | inl t ↦ ground (arith, any-select_bits raw b fs, ap (is_bit_set raw) ((==_iff f.bit b).0 t))
  | inr n ↦ ground (arith, any-select_bits raw b fs)
]

below_16 : (b : ℕ) → any (λ f. f.bit == b) indoor_faults ≡ leb b 15
below_16 b = ground arith

-- A fault of bit `b` is reported exactly if the word has that bit, of the sixteen, set.
pub decode_indoor_faults_lem :
    (raw b : ℕ) → any (λ f. f.bit == b) (decode_indoor_faults raw) ≡ (leb b 15 && is_bit_set raw b)
decode_indoor_faults_lem raw b =
    let all : any (λ f. f.bit == b) (decode_indoor_faults raw)
        ≡ (any (λ f. f.bit == b) indoor_faults && is_bit_set raw b) =
      unfold decode_indoor_faults in any-select_bits raw b indoor_faults in
    all ∙ ap (λ t. t && is_bit_set raw b) (below_16 b)
