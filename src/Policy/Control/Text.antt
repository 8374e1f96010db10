-- ===== src/Policy/Control/Text.antt =====
-- app/policy/control.py: the texts of a command. A text is the list of its code points, and a payload
-- that is not UTF-8 is none. `float` is a parameter, which gives none for a ValueError.
use Prim.Native.Char.{code}
use clock_ha_orchestrator.Prelude.{
  ℕ, ◌+◌, Bool, true, false, ◌&&◌, ◌||◌, Option, none, some, List, [], ◌∷◌, String, ltb, leb, ◌==◌,
  if◌then◌else◌, any,
}
use clock_ha_orchestrator.Prelude.Results.{Result, ok, err}
use clock_ha_orchestrator.Domain.Enums.{ControlMode, ManualHvacMode}
use clock_ha_orchestrator.Domain.Temperature.{Float}
use clock_ha_orchestrator.Domain.Models.{AutomationPolicy}
use clock_ha_orchestrator.Policy.Commands.{OverrideDuration, literal_minutes}

-- The `ValueError`s of a command, one for each place that raises.
pub data ControlError : Type 0 where
  undecodable unsupported_field unsupported_control_mode unsupported_hvac_mode : ControlError
  invalid_temperature invalid_boolean unsupported_duration exceeds_maximum : ControlError
  duration_without_override no_reservation : ControlError

abbrev pub codes : String → List ℕ
codes String.[] = []
codes (String.◌∷◌ c s) = code c ∷ codes s

-- `str.isspace` of one character.
abbrev pub is_space : ℕ → Bool
is_space c =
    (leb 9 c && leb c 13)
    || (leb 28 c && leb c 32)
    || (leb 8192 c && leb c 8202)
    || any (λ s. s == c) (133 ∷ 160 ∷ 5760 ∷ 8232 ∷ 8233 ∷ 8239 ∷ 8287 ∷ 12288 ∷ [])

unfoldable pub trim_left : List ℕ → List ℕ
trim_left [] = []
trim_left (c ∷ cs) = if is_space c then trim_left cs else c ∷ cs

-- A character before a trimmed rest.
abbrev pub keep_unless_blank : ℕ → List ℕ → List ℕ
keep_unless_blank c [] = if is_space c then [] else c ∷ []
keep_unless_blank c (d ∷ ds) = c ∷ d ∷ ds

unfoldable pub trim_right : List ℕ → List ℕ
trim_right [] = []
trim_right (c ∷ cs) = keep_unless_blank c (trim_right cs)

unfoldable pub strip : List ℕ → List ℕ
unfolding trim_left trim_right
strip text = trim_right (trim_left text)

-- What stands before a last quotation mark.
unfoldable pub before_quote : List ℕ → Option (List ℕ)
before_quote [] = none
before_quote (c ∷ []) = if c == 34 then some [] else none
before_quote (c ∷ d ∷ ds) = elim (before_quote (d ∷ ds)) [ none ↦ none | some t ↦ some (c ∷ t) ]

-- The text between two quotation marks, if it is at least these two characters.
abbrev pub unquote : List ℕ → List ℕ
unquote [] = []
unquote (c ∷ cs) =
    if c == 34 then elim (before_quote cs) [ none ↦ c ∷ cs | some t ↦ strip t ] else c ∷ cs

unfoldable pub payload_text : Option (List ℕ) → Result ControlError (List ℕ)
unfolding strip before_quote
payload_text none = err undecodable
payload_text (some text) = ok (unquote (strip text))

abbrev pub same_codes : List ℕ → List ℕ → Bool
same_codes [] [] = true
same_codes (a ∷ as') (b ∷ bs) = a == b && same_codes as' bs
same_codes _ _ = false

-- `text == literal`
abbrev pub is_text : String → List ℕ → Bool
is_text literal text = same_codes (codes literal) text

unfoldable pub control_mode_of : List ℕ → Result ControlError ControlMode
control_mode_of text =
    if is_text "automatic" text
    then ok ControlMode.automatic
    else if is_text "manual" text
    then ok ControlMode.manual
    else if is_text "off" text
    then ok ControlMode.off
    else err unsupported_control_mode

unfoldable pub manual_hvac_mode_of : List ℕ → Result ControlError ManualHvacMode
manual_hvac_mode_of text =
    if is_text "off" text
    then ok ManualHvacMode.off
    else if is_text "heat" text
    then ok ManualHvacMode.heat
    else if is_text "cool" text
    then ok ManualHvacMode.cool
    else if is_text "auto" text
    then ok ManualHvacMode.auto
    else err unsupported_hvac_mode

unfoldable pub temperature_of : (List ℕ → Option Float) → List ℕ → Result ControlError Float
temperature_of parse_float text = elim (parse_float text) [
  | none ↦ err invalid_temperature
  | some t ↦ ok t
]

-- The duration that a text names, if it is one of `SUPPORTED_DURATIONS`.
abbrev pub supported_duration : List ℕ → Option OverrideDuration
supported_duration text =
    if is_text "60" text
    then some OverrideDuration.minutes_60
    else if is_text "240" text
    then some OverrideDuration.minutes_240
    else if is_text "720" text
    then some OverrideDuration.minutes_720
    else if is_text "until_checkout" text
    then some OverrideDuration.until_checkout
    else none

abbrev pub within_policy :
    AutomationPolicy → OverrideDuration → Option ℕ → Result ControlError OverrideDuration
within_policy policy d none = ok d
within_policy policy d (some minutes) =
    if ltb policy.manual_override_max_minutes minutes then err exceeds_maximum else ok d

unfoldable pub duration_of : List ℕ → AutomationPolicy → Result ControlError OverrideDuration
duration_of text policy = elim (supported_duration text) [
  | none ↦ err unsupported_duration
  | some d ↦ within_policy policy d (literal_minutes d)
]

-- `value.lower()` of an ASCII letter; no other character has one of the letters of the words below
-- as its lower case.
abbrev pub lower : ℕ → ℕ
lower c = if leb 65 c && leb c 90 then c + 32 else c

abbrev pub lowered : List ℕ → List ℕ
lowered [] = []
lowered (c ∷ cs) = lower c ∷ lowered cs

unfoldable pub boolean_payload : List ℕ → Result ControlError Bool
boolean_payload text =
    let word = lowered text in
    if is_text "on" word || is_text "true" word || is_text "1" word || is_text "yes" word
    then ok true
    else if is_text "off" word || is_text "false" word || is_text "0" word || is_text "no" word
    then ok false
    else err invalid_boolean
