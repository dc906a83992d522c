-- ===== src/Firmware/Gate/Diagram.antt =====
-- The diagram of a gate's states, in which the number that says how high it is does not occur.
use gate_control.Base.{
  Bool, true, false, List, [], ◌∷◌, ◌≡◌, refl, ◌∙◌, sym, ap, inl, inr, Bool-cases,
}
use gate_control.Base.Int.{pos}
use gate_control.Base.Outcome.{ok, ok-elim}
use gate_control.Firmware.Float.{one_float, zero_float}
use gate_control.Firmware.Gate.{
  GateState, raised, raising, lowered, lowering, Gate, new_gate, tick, raise, lower, get_state,
  finished_moving,
}
use gate_control.Firmware.Gate.Position.{
  IsSound, new_gate-IsSound, tick-IsSound, raise-IsSound, lower-IsSound, tick_at_rest, tick_moving,
}
use gate_control.Firmware.Gate.Travel.{arrived_at, moving_at, tick_up, tick_down}

-- What is done to a gate: a tick is one with what it returns and what `finished_moving` then says.
pub data Event : Type 0 where
  told_to_raise told_to_lower : Event
  ticked : Bool → Bool → Event

pub data Moves : Event → GateState → GateState → Type 0 where
  to_raise : {s : GateState} → Moves told_to_raise s raising
  to_lower : {s : GateState} → Moves told_to_lower s lowering
  rest_up : Moves (ticked false false) raised raised
  rest_down : Moves (ticked false false) lowered lowered
  go_up : Moves (ticked true false) raising raising
  come_up : Moves (ticked true true) raising raised
  go_down : Moves (ticked true false) lowering lowering
  come_down : Moves (ticked true true) lowering lowered

pub data Command : Type 0 where
  do_raise do_lower do_tick : Command

abbrev pub perform : Command → Gate → Gate
perform do_raise g = raise g
perform do_lower g = lower g
perform do_tick g = (tick g).1

abbrev pub event_of : Command → Gate → Event
event_of do_raise g = told_to_raise
event_of do_lower g = told_to_lower
event_of do_tick g = ticked (tick g).0 (finished_moving (tick g).1)

-- The gate's state after a command is one that the diagram has an arrow to.
abbrev pub Follows : Command → Gate → GateState → Type 0
Follows c g s = (s' : GateState) × (get_state (perform c g) ≡ ok s') × Moves (event_of c g) s s'

tick-Follows :
    (g g' : Gate) (b : Bool) (s s' : GateState)
    → (tick g).0 ≡ b
    → (tick g).1 ≡ g'
    → get_state g' ≡ ok s'
    → Moves (ticked b (finished_moving g')) s s'
    → Follows do_tick g s
tick-Follows g g' b s s' changed to is move = (s', ap get_state to ∙ is, rw (changed, to) move)

rest-Follows :
    (g : Gate) (s : GateState)
    → IsSound g
    → g.is_changing ≡ false
    → get_state g ≡ ok s
    → Follows do_tick g s
unfolding get_state
rest-Follows g s sound rest is =
    let g' : Gate = record g { just_finished = false } in
    let changed : (tick g).0 ≡ false = rw (tick_at_rest g rest) refl in
    let to : (tick g).1 ≡ g' = rw (tick_at_rest g rest) refl in
    elim (sound.at_end rest) [
      | inl e ↦
          let from : get_state g ≡ ok lowered = rw (rest, e) refl in
          ok-elim (Follows do_tick g) (sym from ∙ is)
            (tick-Follows g g' false lowered lowered changed to from rest_down)
      | inr e ↦
          let from : get_state g ≡ ok raised = rw (rest, e) refl in
          ok-elim (Follows do_tick g) (sym from ∙ is)
            (tick-Follows g g' false raised raised changed to from rest_up)
    ]

moving-Follows :
    (g : Gate) (s : GateState)
    → IsSound g
    → g.is_changing ≡ true
    → get_state g ≡ ok s
    → Follows do_tick g s
unfolding get_state
moving-Follows g s sound moving is =
    let changed : (tick g).0 ≡ true = rw (tick_moving g moving) refl in
    let (n, at, h) = sound.within in
    elim (Bool-cases g.is_lowering) [
      | inl down ↦
          let from : get_state g ≡ ok lowering = rw (moving, down) refl in
          ok-elim (Follows do_tick g) (sym from ∙ is) (elim (tick_down g n moving down at h) [
            | inl to ↦
                tick-Follows g (arrived_at true zero_float) true lowering lowered changed to refl
                  come_down
            | inr (m, to, _, _) ↦
                tick-Follows g (moving_at true (pos m)) true lowering lowering changed to refl
                  go_down
          ])
      | inr up ↦
          let from : get_state g ≡ ok raising = rw (moving, up) refl in
          ok-elim (Follows do_tick g) (sym from ∙ is) (elim (tick_up g n moving up at h) [
            | inl to ↦
                tick-Follows g (arrived_at false one_float) true raising raised changed to refl
                  come_up
            | inr (m, to, _, _) ↦
                tick-Follows g (moving_at false (pos m)) true raising raising changed to refl go_up
          ])
    ]

perform-IsSound : (c : Command) (g : Gate) → IsSound g → IsSound (perform c g)
perform-IsSound do_raise g sound = raise-IsSound g sound
perform-IsSound do_lower g sound = lower-IsSound g sound
perform-IsSound do_tick g sound = tick-IsSound g sound

perform-Follows :
    (c : Command) (g : Gate) (s : GateState) → IsSound g → get_state g ≡ ok s → Follows c g s
unfolding raise lower get_state
perform-Follows do_raise g s sound is = (raising, refl, to_raise)
perform-Follows do_lower g s sound is = (lowering, refl, to_lower)
perform-Follows do_tick g s sound is = elim (Bool-cases g.is_changing) [
  | inl t ↦ moving-Follows g s sound t is
  | inr f ↦ rest-Follows g s sound f is
]

-- A path in the diagram, with the events along it.
pub data Route : List Event → GateState → GateState → Type 0 where
  done : {s : GateState} → Route [] s s
  then_moves :
      {e : Event} {es : List Event} {s t u : GateState}
      → Moves e s t
      → Route es t u
      → Route (e ∷ es) s u

abbrev pub perform_all : List Command → Gate → Gate
perform_all [] g = g
perform_all (c ∷ cs) g = perform_all cs (perform c g)

abbrev pub events_of : List Command → Gate → List Event
events_of [] g = []
events_of (c ∷ cs) g = event_of c g ∷ events_of cs (perform c g)

from_sound :
    (cs : List Command) (g : Gate) (s : GateState)
    → IsSound g
    → get_state g ≡ ok s
    → (u : GateState) × (get_state (perform_all cs g) ≡ ok u) × Route (events_of cs g) s u
from_sound [] g s sound is = (s, is, done)
from_sound (c ∷ cs) g s sound is =
    let (t, is', move) = perform-Follows c g s sound is in
    let (u, at_last, path) = from_sound cs (perform c g) t (perform-IsSound c g sound) is' in
    (u, at_last, then_moves move path)

-- Whatever commands and ticks a new gate gets, in whatever order, its state is defined after them,
-- and is where a path of the diagram ends that starts at the lowered gate and has the same events:
-- a tick says that the state changed just where the gate was moving, and the gate has just
-- finished just where the tick brought it to rest.
pub perform_all-Route :
    (cs : List Command)
    → (u : GateState) × (get_state (perform_all cs new_gate) ≡ ok u)
      × Route (events_of cs new_gate) lowered u
unfolding get_state
perform_all-Route cs = from_sound cs new_gate lowered new_gate-IsSound refl
