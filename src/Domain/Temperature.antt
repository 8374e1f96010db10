-- ===== src/Domain/Temperature.antt =====
-- The floats of app/domain/models.py, which are temperatures: not-a-number, the two infinities, or
-- a finite value counted in thousandths of a degree. A comparison with not-a-number is false.
use clock_ha_orchestrator.Prelude.{ℕ, ◌*◌, Bool, true, false, not, if◌then◌else◌}
use clock_ha_orchestrator.Prelude.Int.{ℤ, pos, ltb_ℤ}

pub data Float : Type 0 where
  nan neg_inf pos_inf : Float
  fin : ℤ → Float

-- `a < b`
abbrev pub less : Float → Float → Bool
less (Float.fin a) (Float.fin b) = ltb_ℤ a b
less Float.neg_inf (Float.fin _) = true
less Float.neg_inf Float.pos_inf = true
less (Float.fin _) Float.pos_inf = true
less _ _ = false

abbrev pub is_nan : Float → Bool
is_nan Float.nan = true
is_nan _ = false

-- `a <= b`
abbrev pub at_most : Float → Float → Bool
at_most Float.nan _ = false
at_most _ Float.nan = false
at_most a b = not (less b a)

-- `max(a, b)` and `min(a, b)`: the first argument, unless the second one is beyond it.
abbrev pub float_max : Float → Float → Float
float_max a b = if less a b then b else a

abbrev pub float_min : Float → Float → Float
float_min a b = if less b a then b else a

-- A whole number of degrees.
abbrev pub degrees : ℕ → Float
degrees n = Float.fin (pos (n * 1000))
