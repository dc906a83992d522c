-- ===== src/Console.antt =====
-- src/console_prettifier.hpp: what its functions print, which are control sequences of a terminal.
pub mod Visible
use gate_control.Base.{
  ℕ, zero, suc, ◌+◌, ◌-◌, ◌/◌, ◌%◌, ◌^◌, Bool, true, false, List, [], ◌∷◌, ◌++◌, ltb, if◌then◌else◌,
}
use gate_control.Base.Text.{Str}

pub data Color : Type 0 where
  black red green yellow blue magenta cyan white default : Color

abbrev pub color_index : Color → ℕ
color_index black = 0
color_index red = 1
color_index green = 2
color_index yellow = 3
color_index blue = 4
color_index magenta = 5
color_index cyan = 6
color_index white = 7
color_index default = 9

-- The digits of a number with at most as many digits as the fuel, in front of a text.
unfoldable pub decimal_from : ℕ → ℕ → Str → Str
decimal_from zero n acc = acc
decimal_from (suc fuel) n acc =
    let acc' = (b'0' + n % 10) ∷ acc in
    let more = decimal_from fuel (n / 10) acc' in if ltb n 10 then acc' else more

-- `%d` of an unsigned number of 32 bits, which prints it as an `int`.
unfoldable pub int_text : ℕ → Str
unfolding decimal_from
int_text n = if ltb n (2 ^ 31) then decimal_from 10 n [] else b'-' ∷ decimal_from 10 (2 ^ 32 - n) []

-- The two bytes that a control sequence begins with.
abbrev pub sequence : Str → ℕ → Str
sequence parameters final = 27 ∷ b'[' ∷ (parameters ++ final ∷ [])

abbrev pub move_to : ℕ → ℕ → Str
move_to x y = sequence (int_text y ++ (b';' ∷ int_text x)) b'H'

abbrev pub move_to_column : ℕ → Str
move_to_column x = sequence (int_text x) b'G'

abbrev pub move_to_origin : Str
move_to_origin = sequence [] b'H'

abbrev pub erase_screen : Str
erase_screen = sequence (b'2' ∷ []) b'J'

abbrev pub erase_line : Str
erase_line = sequence (b'2' ∷ []) b'K'

abbrev pub move_up : ℕ → Str
move_up amount = sequence (int_text amount) b'A'

abbrev pub move_down : ℕ → Str
move_down amount = sequence (int_text amount) b'B'

abbrev pub move_right : ℕ → Str
move_right amount = sequence (int_text amount) b'C'

abbrev pub move_left : ℕ → Str
move_left amount = sequence (int_text amount) b'D'

-- The styles, each with the sequences that turn it on and off.
pub data Style : Type 0 where
  bold italic underline inverse strikethrough : Style

abbrev pub enable : Style → Str
enable bold = sequence (b'1' ∷ []) b'm'
enable italic = sequence (b'3' ∷ []) b'm'
enable underline = sequence (b'4' ∷ []) b'm'
enable inverse = sequence (b'7' ∷ []) b'm'
enable strikethrough = sequence (b'9' ∷ []) b'm'

abbrev pub disable : Style → Str
disable bold = sequence (b'2' ∷ b'2' ∷ []) b'm'
disable italic = sequence (b'2' ∷ b'3' ∷ []) b'm'
disable underline = sequence (b'2' ∷ b'4' ∷ []) b'm'
disable inverse = sequence (b'2' ∷ b'7' ∷ []) b'm'
disable strikethrough = sequence (b'2' ∷ b'9' ∷ []) b'm'

-- `bold(c)` and its like: the argument is what the callback prints.
abbrev pub styled : Style → Str → Str
styled style text = enable style ++ text ++ disable style

abbrev pub set_color : Color → Bool → Str
set_color c foreground =
    sequence (int_text (if foreground then 3 else 4) ++ int_text (color_index c)) b'm'

abbrev pub set_foreground_color : Color → Str
set_foreground_color c = set_color c true

abbrev pub set_background_color : Color → Str
set_background_color c = set_color c false

abbrev pub reset_color : Bool → Str
reset_color foreground = set_color default foreground

abbrev pub reset_foreground_color : Str
reset_foreground_color = reset_color true

abbrev pub reset_background_color : Str
reset_background_color = reset_color false

abbrev pub hide_cursor : Str
hide_cursor = sequence (b'?' ∷ b'2' ∷ b'5' ∷ []) b'l'

abbrev pub show_cursor : Str
show_cursor = sequence (b'?' ∷ b'2' ∷ b'5' ∷ []) b'h'
