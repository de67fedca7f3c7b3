-- ===== src/Gamepad/Controls.antt =====
-- utils/gamepad.c: the controls, their names and their default configuration.
use Prim.Native.String.{String}
use zombie_shooter_ps_vita_p.Prelude.{
  ℕ, Bool, true, false, Option, none, some, List, [], ◌∷◌, if◌then◌else◌, str_eq, codes,
}

-- The buttons SCE_CTRL_* of the Vita. A mask of the bindings is one of them, or 0, which is `none`.
pub data Control : Type 0 where
  cross circle square triangle l1 r1 l2 r2 : Control
  start select up down left right l3 r3 : Control

-- The Android keys AKEYCODE_*.
pub data KeyCode : Type 0 where
  button_a button_b button_x button_y : KeyCode
  button_l1 button_r1 button_start button_select : KeyCode
  button_thumbl button_thumbr dpad_up dpad_down : KeyCode
  dpad_left dpad_right button_l2 button_r2 : KeyCode

pub record ButtonMapping : Type 0 where
  pub button : Control
  pub key : KeyCode

abbrev maps : Control → KeyCode → ButtonMapping
maps b k = record { button = b; key = k }

abbrev pub fndk_button_mapping : List ButtonMapping
fndk_button_mapping =
    maps cross button_a
    ∷ maps circle button_b
    ∷ maps square button_x
    ∷ maps triangle button_y
    ∷ maps l1 button_l1
    ∷ maps r1 button_r1
    ∷ maps start button_start
    ∷ maps select button_select
    ∷ maps l3 button_thumbl
    ∷ maps r3 button_thumbr
    ∷ maps up dpad_up
    ∷ maps down dpad_down
    ∷ maps left dpad_left
    ∷ maps right dpad_right
    ∷ maps l2 button_l2
    ∷ maps r2 button_r2
    ∷ []

pub record VitaXboxBinding : Type 0 where
  pub physical_name : List ℕ
  pub physical_mask : Control
  pub from_rear : Bool
  pub xbox_mask : Option Control

abbrev binds : String → Control → Bool → Control → VitaXboxBinding
binds name c rear x = record {
  physical_name = codes name;
  physical_mask = c;
  from_rear = rear;
  xbox_mask = some x;
}

abbrev pub initial_bindings : List VitaXboxBinding
initial_bindings =
    binds "cross" cross false cross
    ∷ binds "circle" circle false circle
    ∷ binds "square" square false square
    ∷ binds "triangle" triangle false triangle
    ∷ binds "l" l1 false l1
    ∷ binds "r" r1 false r1
    ∷ binds "rear_left" l2 true l2
    ∷ binds "rear_right" r2 true r2
    ∷ binds "start" start false start
    ∷ binds "select" select false select
    ∷ binds "dpad_up" up false up
    ∷ binds "dpad_down" down false down
    ∷ binds "dpad_left" left false left
    ∷ binds "dpad_right" right false right
    ∷ binds "l3" l3 false l3
    ∷ binds "r3" r3 false r3
    ∷ []

-- The masks that reset_xbox_defaults gives to the bindings, in their order.
abbrev pub default_masks : List Control
default_masks =
    cross ∷ circle ∷ square ∷ triangle ∷ right ∷ left ∷ l2 ∷ r2 ∷ start ∷ select ∷ up ∷ down ∷ left
    ∷ right ∷ l3 ∷ r3 ∷ []

-- A name that is no control is `none`, and NONE is the mask 0.
unfoldable pub xbox_mask_from_name : List ℕ → Option (Option Control)
xbox_mask_from_name name =
    if str_eq name (codes "A")
    then some (some cross)
    else if str_eq name (codes "B")
    then some (some circle)
    else if str_eq name (codes "X")
    then some (some square)
    else if str_eq name (codes "Y")
    then some (some triangle)
    else if str_eq name (codes "LB")
    then some (some l1)
    else if str_eq name (codes "RB")
    then some (some r1)
    else if str_eq name (codes "LT")
    then some (some l2)
    else if str_eq name (codes "RT")
    then some (some r2)
    else if str_eq name (codes "LS")
    then some (some l3)
    else if str_eq name (codes "RS")
    then some (some r3)
    else if str_eq name (codes "START")
    then some (some start)
    else if str_eq name (codes "BACK")
    then some (some select)
    else if str_eq name (codes "DPAD_UP")
    then some (some up)
    else if str_eq name (codes "DPAD_DOWN")
    then some (some down)
    else if str_eq name (codes "DPAD_LEFT")
    then some (some left)
    else if str_eq name (codes "DPAD_RIGHT")
    then some (some right)
    else if str_eq name (codes "NONE")
    then some none
    else none

unfoldable pub xbox_name : Option Control → List ℕ
xbox_name none = codes "NONE"
xbox_name (some cross) = codes "A"
xbox_name (some circle) = codes "B"
xbox_name (some square) = codes "X"
xbox_name (some triangle) = codes "Y"
xbox_name (some l1) = codes "LB"
xbox_name (some r1) = codes "RB"
xbox_name (some l2) = codes "LT"
xbox_name (some r2) = codes "RT"
xbox_name (some l3) = codes "LS"
xbox_name (some r3) = codes "RS"
xbox_name (some start) = codes "START"
xbox_name (some select) = codes "BACK"
xbox_name (some up) = codes "DPAD_UP"
xbox_name (some down) = codes "DPAD_DOWN"
xbox_name (some left) = codes "DPAD_LEFT"
xbox_name (some right) = codes "DPAD_RIGHT"

-- The file of write_default_controls.
abbrev pub default_controls : List ℕ
default_controls =
    codes
      "# Zombie Shooter Vita control mapping\n# Edit this file, save it, then fully restart the game.\n#\n# input_mode strict (recommended): Xbox/Android style.\n#   A/B/X/Y, LB/RB, START/BACK, LS/RS -> KeyEvent\n#   DPAD -> HAT_X/HAT_Y only; LT/RT -> trigger axes only\n# input_mode hybrid: legacy compatibility; also emits DPAD/L2/R2 KeyEvents.\ninput_mode strict\n\n# Physical PS Vita input -> Xbox logical control\n# Values: A B X Y LB RB LT RT LS RS START BACK\n#         DPAD_UP DPAD_DOWN DPAD_LEFT DPAD_RIGHT NONE\ncross A\ncircle B\nsquare X\ntriangle Y\n\n# 3.6.1 gameplay aliases: shoulders use the proven weapon HAT actions.\nl DPAD_RIGHT\nr DPAD_LEFT\nrear_left LT\nrear_right RT\n\nstart START\nselect BACK\n\ndpad_up DPAD_UP\ndpad_down DPAD_DOWN\ndpad_left DPAD_LEFT\ndpad_right DPAD_RIGHT\n\n# l3/r3 are accepted if the hardware/controller layer reports them.\nl3 LS\nr3 RS\n"
