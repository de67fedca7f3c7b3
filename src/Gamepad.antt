-- ===== src/Gamepad.antt =====
-- utils/gamepad.c: the controls of the Vita as the controls of an Xbox pad. `writable` says whether
-- the configuration file can be created.
pub mod Controls
pub mod Methods
pub mod Lines
pub mod Bits
mod Tests
use zombie_shooter_ps_vita_p.Prelude.{
  ℕ, zero, suc, ◌+◌, ◌-◌, Bool, true, false, not, ◌&&◌, ◌||◌, Option, none, some, List, [], ◌∷◌,
  map, take, leb, ◌==◌, if◌then◌else◌, str_eq, codes, bit_and, bit_or,
}
use zombie_shooter_ps_vita_p.Prelude.Text.{fgets_lines, c_string, scan_word}
use zombie_shooter_ps_vita_p.Gamepad.Controls.{
  Control, cross, circle, square, triangle, l1, r1, l2, r2, start, select, up, down, left, right,
  l3, r3, VitaXboxBinding, ButtonMapping, fndk_button_mapping, initial_bindings, default_masks,
  xbox_mask_from_name, default_controls,
}

pub data VitaInputMode : Type 0 where
  strict hybrid : VitaInputMode

abbrev pub strict_key_count : ℕ
strict_key_count = 10

abbrev pub hybrid_key_count : ℕ
hybrid_key_count = 16

pub record Gamepad : Type 0 where
  pub bindings : List VitaXboxBinding
  pub controls_loaded : Bool
  pub input_mode : VitaInputMode
  pub key_count : ℕ

abbrev pub initial_gamepad : Gamepad
initial_gamepad = record {
  bindings = initial_bindings;
  controls_loaded = false;
  input_mode = strict;
  key_count = strict_key_count;
}

abbrev pub set_xbox : Option Control → VitaXboxBinding → VitaXboxBinding
set_xbox m b = record b { xbox_mask = m }

unfoldable pub set_masks : List Control → List VitaXboxBinding → List VitaXboxBinding
set_masks [] bs = bs
set_masks (m ∷ ms) [] = []
set_masks (m ∷ ms) (b ∷ bs) = set_xbox (some m) b ∷ set_masks ms bs

unfoldable pub reset_xbox_defaults : Gamepad → Gamepad
reset_xbox_defaults g = record g {
  bindings = set_masks default_masks g.bindings;
  input_mode = strict;
  key_count = strict_key_count;
}

abbrev pub lower_byte : ℕ → ℕ
lower_byte c = if leb 65 c && leb c 90 then c + 32 else c

abbrev pub upper_byte : ℕ → ℕ
upper_byte c = if leb 97 c && leb c 122 then c - 32 else c

unfoldable pub ascii_lower : List ℕ → List ℕ
ascii_lower s = map lower_byte s

unfoldable pub ascii_upper : List ℕ → List ℕ
ascii_upper s = map upper_byte s

-- bindings[binding_index(name)].xbox_mask = m, where there is such a binding.
unfoldable pub bind_name : List ℕ → Option Control → List VitaXboxBinding → List VitaXboxBinding
bind_name name m [] = []
bind_name name m (b ∷ bs) =
    if str_eq b.physical_name name then set_xbox m b ∷ bs else b ∷ bind_name name m bs

-- Nothing changes where the name is none of the modes.
unfoldable pub set_input_mode : List ℕ → Gamepad → Gamepad
set_input_mode name g =
    if str_eq name (codes "STRICT") || str_eq name (codes "XBOX_STRICT")
    then record g { input_mode = strict; key_count = strict_key_count }
    else if str_eq name (codes "HYBRID")
        || str_eq name (codes "ANDROID_HYBRID")
        || str_eq name (codes "LEGACY")
    then record g { input_mode = hybrid; key_count = hybrid_key_count }
    else g

abbrev pub bind_valid : List ℕ → Option (Option Control) → Gamepad → Gamepad
bind_valid physical none g = g
bind_valid physical (some m) g = record g { bindings = bind_name physical m g.bindings }

abbrev pub is_mode_name : List ℕ → Bool
is_mode_name s = str_eq s (codes "input_mode") || str_eq s (codes "event_mode")

unfoldable pub apply_words : List ℕ → List ℕ → Gamepad → Gamepad
apply_words physical action g =
    if is_mode_name physical
    then set_input_mode action g
    else bind_valid physical (xbox_mask_from_name action) g

abbrev pub is_remark : List ℕ → Bool
is_remark [] = false
is_remark (c ∷ s) = c == 35

abbrev pub apply_second : List ℕ → Option (List ℕ × List ℕ) → Gamepad → Gamepad
apply_second physical none g = g
apply_second physical (some (action, rest)) g =
    if is_remark physical then g else apply_words (ascii_lower physical) (ascii_upper action) g

abbrev pub apply_first : Option (List ℕ × List ℕ) → Gamepad → Gamepad
apply_first none g = g
apply_first (some (physical, rest)) g = apply_second physical (scan_word 31 rest) g

-- One line of the file: sscanf(line, " %31s %31s", ...) and what follows it.
unfoldable pub load_line : List ℕ → Gamepad → Gamepad
load_line line g = apply_first (scan_word 31 (c_string line)) g

unfoldable pub load_lines : List (List ℕ) → Gamepad → Gamepad
load_lines [] g = g
load_lines (l ∷ ls) g = load_lines ls (load_line l g)

-- The masks are tested as the numbers that stand for them.
abbrev pub control_code : Option Control → ℕ
control_code none = 0
control_code (some cross) = 1
control_code (some circle) = 2
control_code (some square) = 3
control_code (some triangle) = 4
control_code (some l1) = 5
control_code (some r1) = 6
control_code (some l2) = 7
control_code (some r2) = 8
control_code (some start) = 9
control_code (some select) = 10
control_code (some up) = 11
control_code (some down) = 12
control_code (some left) = 13
control_code (some right) = 14
control_code (some l3) = 15
control_code (some r3) = 16

unfoldable pub has_masks : List (Option Control) → List VitaXboxBinding → Bool
has_masks [] bs = true
has_masks (m ∷ ms) [] = false
has_masks (none ∷ ms) (b ∷ bs) = has_masks ms bs
has_masks (some m ∷ ms) (b ∷ bs) =
    control_code b.xbox_mask == control_code (some m) && has_masks ms bs

-- The masks of the old profile; `none` where the code does not look.
abbrev pub old_profile : List (Option Control)
old_profile =
    some cross
    ∷ some circle
    ∷ some square
    ∷ some triangle
    ∷ some l1
    ∷ some r1
    ∷ some l2
    ∷ some r2
    ∷ none
    ∷ none
    ∷ some up
    ∷ some down
    ∷ some left
    ∷ some right
    ∷ []

-- bindings[i].xbox_mask = m
unfoldable pub set_at : ℕ → Option Control → List VitaXboxBinding → List VitaXboxBinding
set_at i m [] = []
set_at zero m (b ∷ bs) = set_xbox m b ∷ bs
set_at (suc i) m (b ∷ bs) = b ∷ set_at i m bs

unfoldable pub migrate : Gamepad → Gamepad
migrate g =
    if has_masks old_profile g.bindings
    then record g { bindings = set_at 5 (some left) (set_at 4 (some right) g.bindings) }
    else g

-- The state after gamepad_config_load, and the file, as in settings_load.
unfoldable pub gamepad_config_load : Bool → Option (List ℕ) → Gamepad → Gamepad × Option (List ℕ)
gamepad_config_load writable none g = (
  record (reset_xbox_defaults g) { controls_loaded = true },
  if writable then some default_controls else none,
)
gamepad_config_load writable (some text) g = (
  record (migrate (load_lines (fgets_lines 160 text) (reset_xbox_defaults g))) {
    controls_loaded = true;
  },
  some text,
)

abbrev pub count_of : VitaInputMode → ℕ
count_of strict = strict_key_count
count_of hybrid = hybrid_key_count

-- `mask` gives the bits of the SDK for each control.
module _ (mask : Control → ℕ) where
  abbrev pub xbox_bits : Option Control → ℕ
  xbox_bits none = 0
  xbox_bits (some c) = mask c

  abbrev pub is_pressed : ℕ → ℕ → VitaXboxBinding → Bool
  is_pressed buttons rear b =
      not (bit_and (if b.from_rear then rear else buttons) (mask b.physical_mask) == 0)

  -- The loop of fndk_translate_pad_buttons.
  unfoldable pub translate : ℕ → ℕ → ℕ → List VitaXboxBinding → ℕ
  translate buttons rear logical [] = logical
  translate buttons rear logical (b ∷ bs) =
      translate buttons rear
        (if is_pressed buttons rear b then bit_or logical (xbox_bits b.xbox_mask) else logical) bs

  unfoldable pub fndk_translate_pad_buttons : ℕ → ℕ → Bool → Gamepad → Gamepad × ℕ
  fndk_translate_pad_buttons buttons rear handheld g =
      if not handheld
      then (record g { key_count = hybrid_key_count }, buttons)
      else if not g.controls_loaded
      then (record g { key_count = hybrid_key_count }, bit_or buttons rear)
      else (record g { key_count = count_of g.input_mode }, translate buttons rear 0 g.bindings)
