-- ===== src/Console/Visible.antt =====
-- What a terminal shows of a text: all but the control sequences.
use gate_control.Base.{
  ℕ, zero, suc, ◌+◌, ◌-◌, ◌/◌, ◌%◌, ◌^◌, Bool, true, false, not, ◌&&◌, [], ◌∷◌, ◌++◌, ltb, leb,
  ◌==◌, if◌then◌else◌, ◌≡◌, refl, ◌∙◌, inl, inr, arith, All, All-append, Bool-cases,
}
use gate_control.Base.Text.{Str}
use gate_control.Console.{
  Color, default, color_index, decimal_from, int_text, sequence, move_to, move_to_column,
  move_to_origin, erase_screen, erase_line, move_up, move_down, move_right, move_left, Style, bold,
  italic, underline, inverse, strikethrough, enable, disable, set_color, reset_color, hide_cursor,
  show_cursor,
}

-- Outside of a sequence, behind an escape, or among the parameters.
pub data Mode : Type 0 where
  plain escaped parameters : Mode

abbrev pub is_final : ℕ → Bool
is_final c = leb 64 c && leb c 126

abbrev pub next_mode : Mode → ℕ → Mode
next_mode plain c = if c == 27 then escaped else plain
next_mode escaped c = if c == b'[' then parameters else plain
next_mode parameters c = if is_final c then plain else parameters

abbrev pub is_shown : Mode → ℕ → Bool
is_shown plain c = not (c == 27)
is_shown _ c = false

abbrev pub visible : Mode → Str → Str
visible m [] = []
visible m (c ∷ s) = let rest = visible (next_mode m c) s in if is_shown m c then c ∷ rest else rest

abbrev pub mode_after : Mode → Str → Mode
mode_after m [] = m
mode_after m (c ∷ s) = mode_after (next_mode m c) s

visible-append :
    (m : Mode) (s t : Str) → visible m (s ++ t) ≡ visible m s ++ visible (mode_after m s) t
visible-append m [] t = refl
visible-append m (c ∷ s) t = elim (Bool-cases (is_shown m c)) [
  | inl b ↦ rw (b, visible-append (next_mode m c) s t) refl
  | inr b ↦ rw (b, visible-append (next_mode m c) s t) refl
]

mode_after-append : (m : Mode) (s t : Str) → mode_after m (s ++ t) ≡ mode_after (mode_after m s) t
mode_after-append m [] t = refl
mode_after-append m (c ∷ s) t = mode_after-append (next_mode m c) s t

-- A text of which the terminal shows another, and which leaves it outside of sequences.
pub record Shows (s v : Str) : Type 0 where
  pub shown : visible plain s ≡ v
  pub at_end : mode_after plain s ≡ plain

pub append-Shows : {s t v w : Str} → Shows s v → Shows t w → Shows (s ++ t) (v ++ w)
append-Shows {s} {t} {v} {w} first second = record {
  shown = visible-append plain s t ∙ rw (first.shown, first.at_end, second.shown) refl;
  at_end = mode_after-append plain s t ∙ rw (first.at_end, second.at_end) refl;
}

abbrev pub HasNoEscape : Str → Type 0
HasNoEscape s = All (λ c. (c == 27) ≡ false) s

pub text-Shows : (s : Str) → HasNoEscape s → Shows s s
text-Shows [] h = record { shown = refl; at_end = refl }
text-Shows (c ∷ s) (h, hs) =
    let rest = text-Shows s hs in
    record { shown = rw (h, rest.shown) refl; at_end = rw (h, rest.at_end) refl }

abbrev pub IsParameters : Str → Type 0
IsParameters s = All (λ c. is_final c ≡ false) s

in_parameters :
    (p : Str) (f : ℕ)
    → IsParameters p
    → is_final f ≡ true
    → (visible parameters (p ++ f ∷ []) ≡ []) × (mode_after parameters (p ++ f ∷ []) ≡ plain)
in_parameters [] f h final = (refl, rw final refl)
in_parameters (c ∷ p) f (h, hs) final =
    let (v, m) = in_parameters p f hs final in
    let m' : mode_after (next_mode parameters c) (p ++ f ∷ []) ≡ plain = rw h m in
    (rw (h, v) refl, m')

sequence-Shows : (p : Str) (f : ℕ) → IsParameters p → is_final f ≡ true → Shows (sequence p f) []
sequence-Shows p f h final =
    let (v, m) = in_parameters p f h final in record { shown = v; at_end = m }

decimal_from-IsParameters :
    (fuel n : ℕ) (acc : Str) → IsParameters acc → IsParameters (decimal_from fuel n acc)
unfolding decimal_from
decimal_from-IsParameters zero n acc h = h
decimal_from-IsParameters (suc fuel) n acc h =
    let digit : is_final (b'0' + n % 10) ≡ false = ground arith in
    elim (Bool-cases (ltb n 10)) [
      | inl t ↦ rw t (digit, h)
      | inr f ↦ rw f (decimal_from-IsParameters fuel (n / 10) ((b'0' + n % 10) ∷ acc) (digit, h))
    ]

int_text-IsParameters : (n : ℕ) → IsParameters (int_text n)
unfolding int_text
int_text-IsParameters n = elim (Bool-cases (ltb n (2 ^ 31))) [
  | inl t ↦ rw t (decimal_from-IsParameters 10 n [] tt)
  | inr f ↦ rw f (refl, decimal_from-IsParameters 10 (2 ^ 32 - n) [] tt)
]

-- The calls of `console`.
pub data Call : Type 0 where
  to : ℕ → ℕ → Call
  to_column up down right left : ℕ → Call
  to_origin erase_all erase_one hide reveal : Call
  enabled disabled : Style → Call
  colored : Color → Bool → Call
  uncolored : Bool → Call

abbrev pub printed : Call → Str
printed (to x y) = move_to x y
printed (to_column x) = move_to_column x
printed (up n) = move_up n
printed (down n) = move_down n
printed (right n) = move_right n
printed (left n) = move_left n
printed to_origin = move_to_origin
printed erase_all = erase_screen
printed erase_one = erase_line
printed hide = hide_cursor
printed reveal = show_cursor
printed (enabled s) = enable s
printed (disabled s) = disable s
printed (colored c foreground) = set_color c foreground
printed (uncolored foreground) = reset_color foreground

color-Shows : (c : Color) (foreground : Bool) → Shows (set_color c foreground) []
color-Shows c foreground =
    sequence-Shows _ b'm'
      (All-append (λ c. is_final c ≡ false) (int_text (if foreground then 3 else 4))
        (int_text (color_index c)) (int_text-IsParameters _) (int_text-IsParameters _))
      refl

pub printed-Shows : (c : Call) → Shows (printed c) []
printed-Shows (to x y) =
    sequence-Shows _ b'H'
      (All-append (λ c. is_final c ≡ false) (int_text y) (b';' ∷ int_text x)
        (int_text-IsParameters y) (refl, int_text-IsParameters x))
      refl
printed-Shows (to_column x) = sequence-Shows _ b'G' (int_text-IsParameters x) refl
printed-Shows (up n) = sequence-Shows _ b'A' (int_text-IsParameters n) refl
printed-Shows (down n) = sequence-Shows _ b'B' (int_text-IsParameters n) refl
printed-Shows (right n) = sequence-Shows _ b'C' (int_text-IsParameters n) refl
printed-Shows (left n) = sequence-Shows _ b'D' (int_text-IsParameters n) refl
printed-Shows to_origin = record { shown = refl; at_end = refl }
printed-Shows erase_all = record { shown = refl; at_end = refl }
printed-Shows erase_one = record { shown = refl; at_end = refl }
printed-Shows hide = record { shown = refl; at_end = refl }
printed-Shows reveal = record { shown = refl; at_end = refl }
printed-Shows (enabled bold) = record { shown = refl; at_end = refl }
printed-Shows (enabled italic) = record { shown = refl; at_end = refl }
printed-Shows (enabled underline) = record { shown = refl; at_end = refl }
printed-Shows (enabled inverse) = record { shown = refl; at_end = refl }
printed-Shows (enabled strikethrough) = record { shown = refl; at_end = refl }
printed-Shows (disabled bold) = record { shown = refl; at_end = refl }
printed-Shows (disabled italic) = record { shown = refl; at_end = refl }
printed-Shows (disabled underline) = record { shown = refl; at_end = refl }
printed-Shows (disabled inverse) = record { shown = refl; at_end = refl }
printed-Shows (disabled strikethrough) = record { shown = refl; at_end = refl }
printed-Shows (colored c foreground) = color-Shows c foreground
printed-Shows (uncolored foreground) = color-Shows default foreground
