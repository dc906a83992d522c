-- ===== src/Tests/Gates.antt =====
-- Runs of the firmware.
use gate_control.Base.{suc, ℕ, ◌≤◌, ◌<◌, true, [], ◌∷◌, ◌≡◌, refl, arith}
use gate_control.Base.Text.{codes, str_eq}
use gate_control.Base.Outcome.{ok}
use gate_control.Firmware.Float.{one_units, round, ulp, ◌+F◌, one_float}
use gate_control.Firmware.Gate.{
  GateState, raised, raising, lowered, new_gate, tick, raise, get_state,
}
use gate_control.Firmware.Gate.Travel.{ticks}
use gate_control.Firmware.Gate.Arrival.{most_ticks}
use gate_control.Firmware.Gate.Diagram.{
  do_raise, do_tick, do_lower, events_of, Route, perform_all, perform_all-Route,
}
use gate_control.Firmware.Sketch.{Board, index_to_pin}
use gate_control.Firmware.Sketch.Messages.{handle_message}
use gate_control.Firmware.Sketch.Handling.{Handled, handle_message-Handled, under_way}
use gate_control.Firmware.Sketch.Loop.{
  brightness, powered_on, setup, loop, Reaches, start, next, arrive,
}
use gate_control.Firmware.Sketch.Effects.{IsRunning}
use gate_control.Firmware.Sketch.Updating.{brightness-le}
use gate_control.Firmware.Sketch.Running.{setup-IsRunning, Looped, loop-Looped, Reaches-IsRunning}
use gate_control.Firmware.Sketch.Journey.{Commands, StandsAfter, end_state}
use gate_control.Firmware.Sketch.Announcing.{TellsIn, loops-TellsIn}
use gate_control.Tests.ToyBoard.{toy_board, toy_squares, raise_third}

-- The bound on the ticks is reached from the ground.
almost_up : get_state (ticks 100 (raise new_gate)) ≡ ok raising
unfolding get_state raise tick ◌+F◌ round ulp
almost_up = refl

at_last_up : get_state (ticks 101 (raise new_gate)) ≡ ok raised
unfolding get_state raise tick ◌+F◌ round ulp
at_last_up = refl

no_pin : index_to_pin 7 ≡ 8
unfolding index_to_pin
no_pin = refl

perform_all-Route_example :
    (u : GateState) × (get_state (perform_all (do_raise ∷ do_tick ∷ do_lower ∷ []) new_gate) ≡ ok u)
    × Route (events_of (do_raise ∷ do_tick ∷ do_lower ∷ []) new_gate) lowered u
perform_all-Route_example = perform_all-Route (do_raise ∷ do_tick ∷ do_lower ∷ [])

brightness-le_example : (v : ℕ) × (brightness toy_board one_float ≡ ok v) × (v ≤ 255)
brightness-le_example = brightness-le toy_board toy_squares one_float (one_units, refl, omega arith)

-- The board at its start, and with a message to read.
abbrev first_board : Board toy_board
first_board = setup toy_board (powered_on toy_board raise_third)

abbrev told_board : Board toy_board
told_board = record first_board { received = codes "{}" }

told_reached : Reaches toy_board first_board told_board
unfolding setup
told_reached = next start (arrive (codes "{}") refl)

Reaches-IsRunning_example : IsRunning toy_board told_board
Reaches-IsRunning_example =
    Reaches-IsRunning toy_board toy_squares raise_third told_board told_reached

told_running : IsRunning toy_board told_board
told_running =
    let first = setup-IsRunning toy_board raise_third in
    record { has = first.has; writes = first.writes }

handle_message-Handled_example :
    Handled toy_board first_board (handle_message toy_board first_board)
handle_message-Handled_example =
    handle_message-Handled toy_board first_board (setup-IsRunning toy_board raise_third).has

loop-Looped_example : Looped toy_board told_board (loop toy_board told_board)
loop-Looped_example = loop-Looped toy_board toy_squares told_board told_running

told-Commands : Commands toy_board told_board 2 true
unfolding toy_board raise_third setup str_eq
told-Commands = record {
  doc = raise_third;
  pending = refl;
  read = refl;
  not_null = refl;
  typed = refl;
  object = refl;
  for_gate = refl;
  to_state = refl;
  there = omega arith;
}

loops-TellsIn_example :
    (k : ℕ) × (k < most_ticks)
    × ((i : ℕ) → 0 < i → i ≤ k → StandsAfter toy_board i told_board 2 (under_way true))
    × StandsAfter toy_board (suc k) told_board 2 (end_state true)
    × TellsIn toy_board k told_board 2 (end_state true)
loops-TellsIn_example =
    loops-TellsIn toy_board toy_squares told_board 2 true told_running told-Commands
