-- ===== src/Firmware/Gate.antt =====
-- src/arduino_program/gate_control/gate_control.ino: `GateState` and `Gate`. The calls of `delay`
-- take time and change nothing.
pub mod Position
pub mod Travel
pub mod Arrival
pub mod Diagram
use gate_control.Base.{Bool, true, false, not, ◌||◌, if◌then◌else◌, ◌≡◌}
use gate_control.Base.Outcome.{Outcome, ok, undefined}
use gate_control.Firmware.Float.{
  Float, ◌+F◌, ◌-F◌, zero_float, one_float, hundredth_float, le_float, lt_float, eq_float,
}

pub data GateState : Type 0 where
  raised raising lowered lowering : GateState

pub record Gate : Type 0 where
  pub just_finished : Bool
  pub is_lowering : Bool
  pub is_changing : Bool
  pub state : Float

abbrev pub new_gate : Gate
new_gate = record {
  just_finished = false;
  is_lowering = false;
  is_changing = false;
  state = zero_float;
}

abbrev pub moved : Bool → Float → Float
moved true state = state -F hundredth_float
moved false state = state +F hundredth_float

abbrev pub clamped : Float → Float
clamped state =
    if lt_float state zero_float
    then zero_float
    else if lt_float one_float state
    then one_float
    else state

abbrev pub has_arrived : Float → Bool
has_arrived state = le_float state zero_float || le_float one_float state

-- The rest of `tick`, behind the change of the state.
abbrev pub settle : Gate → Gate
settle g =
    if has_arrived g.state
    then record g { is_changing = false; just_finished = true; state = clamped g.state }
    else g

abbrev pub clear_finished : Gate → Gate
clear_finished g = if g.just_finished then record g { just_finished = false } else g

-- The Boolean says whether the state changed.
unfoldable pub tick : Gate → Bool × Gate
tick g =
    let g' = clear_finished g in
    if not g'.is_changing
    then (false, g')
    else (true, settle (record g' { state = moved g'.is_lowering g'.state }))

abbrev pub finished_moving : Gate → Bool
finished_moving g = g.just_finished

unfoldable pub lower : Gate → Gate
lower g = record g { is_lowering = true; is_changing = true }

unfoldable pub raise : Gate → Gate
raise g = record g { is_lowering = false; is_changing = true }

-- A gate at rest that is neither up nor down reaches the end of the function without a `return`.
unfoldable pub get_state : Gate → Outcome GateState
get_state g =
    if not g.is_changing
    then (if eq_float g.state one_float
        then ok raised
        else if eq_float g.state zero_float
        then ok lowered
        else undefined)
    else if g.is_lowering
    then ok lowering
    else ok raising
