-- ===== src/Gamepad/Tests.antt =====
-- Runs of the controls with the masks of the Vita.
use zombie_shooter_ps_vita_p.Prelude.{
  ℕ, ◌^◌, ◌≡◌, ◌≢◌, ◌↔◌, refl, sym, ap, ◌∙◌, true, some, List, [], ◌∷◌, ◌++◌, get_or, codes,
  bit_and, str_eq,
}
use zombie_shooter_ps_vita_p.Prelude.Text.Lines.{line}
use zombie_shooter_ps_vita_p.Gamepad.Controls.{
  Control, cross, circle, square, triangle, l1, r1, l2, r2, start, select, up, down, left, right,
  l3, r3, xbox_name,
}
use zombie_shooter_ps_vita_p.Gamepad.{
  Gamepad, initial_gamepad, load_line, gamepad_config_load, fndk_translate_pad_buttons, ascii_lower,
}
use zombie_shooter_ps_vita_p.Gamepad.Methods.{IsConfigured, gamepad_config_load-IsConfigured}
use zombie_shooter_ps_vita_p.Gamepad.Lines.{mask_of, is_physical, is_bound, load_line-mask_of}
use zombie_shooter_ps_vita_p.Gamepad.Bits.{IsMasks, is_asked, fndk_translate_pad_buttons-is_asked}

abbrev place : Control → ℕ
place cross = 14
place circle = 13
place square = 15
place triangle = 12
place l1 = 10
place r1 = 11
place l2 = 8
place r2 = 9
place start = 3
place select = 0
place up = 4
place down = 6
place left = 7
place right = 5
place l3 = 1
place r3 = 2

abbrev mask : Control → ℕ
mask cross = 0x4000
mask circle = 0x2000
mask square = 0x8000
mask triangle = 0x1000
mask l1 = 0x400
mask r1 = 0x800
mask l2 = 0x100
mask r2 = 0x200
mask start = 0x8
mask select = 0x1
mask up = 0x10
mask down = 0x40
mask left = 0x80
mask right = 0x20
mask l3 = 0x2
mask r3 = 0x4

abbrev placed : ℕ → Control
placed n =
    get_or
      (select ∷ l3 ∷ r3 ∷ start ∷ up ∷ right ∷ down ∷ left ∷ l2 ∷ r2 ∷ l1 ∷ r1 ∷ triangle ∷ circle
        ∷ cross ∷ square ∷ [])
      n r3

placed-place : (c : Control) → placed (place c) ≡ c
placed-place cross = refl
placed-place circle = refl
placed-place square = refl
placed-place triangle = refl
placed-place l1 = refl
placed-place r1 = refl
placed-place l2 = refl
placed-place r2 = refl
placed-place start = refl
placed-place select = refl
placed-place up = refl
placed-place down = refl
placed-place left = refl
placed-place right = refl
placed-place l3 = refl
placed-place r3 = refl

mask_single : (c : Control) → mask c ≡ 2 ^ place c
mask_single cross = refl
mask_single circle = refl
mask_single square = refl
mask_single triangle = refl
mask_single l1 = refl
mask_single r1 = refl
mask_single l2 = refl
mask_single r2 = refl
mask_single start = refl
mask_single select = refl
mask_single up = refl
mask_single down = refl
mask_single left = refl
mask_single right = refl
mask_single l3 = refl
mask_single r3 = refl

mask-IsMasks : IsMasks mask place
mask-IsMasks = record {
  single = mask_single;
  distinct = λ c d e. sym (placed-place c) ∙ ap placed e ∙ placed-place d;
}

-- The handheld with its front and rear buttons bound to themselves.
abbrev ready : Gamepad
ready = record initial_gamepad { controls_loaded = true }

fndk_translate_pad_buttons-is_asked_example :
    (bit_and (fndk_translate_pad_buttons mask 0x4000 0x100 true ready).1 (mask l2) ≢ 0)
    ↔ (is_asked place 0x4000 0x100 l2 ready.bindings ≡ true)
fndk_translate_pad_buttons-is_asked_example =
    fndk_translate_pad_buttons-is_asked mask place mask-IsMasks 0x4000 0x100 l2 ready refl

abbrev some_file : List ℕ
some_file = codes "input_mode hybrid\nL none\nfoo A\nl3\n"

gamepad_config_load-IsConfigured_example :
    IsConfigured (gamepad_config_load true (some some_file) initial_gamepad).0
gamepad_config_load-IsConfigured_example =
    gamepad_config_load-IsConfigured true (some some_file) initial_gamepad refl

rear_left_physical : is_physical (codes "rear_left") ≡ true
unfolding ascii_lower str_eq
rear_left_physical = refl

rear_left_bound : is_bound (mask_of (codes "rear_left") ready.bindings) ≡ true
unfolding mask_of str_eq
rear_left_bound = refl

abbrev changed : Gamepad
changed = load_line (line (codes "rear_left" ++ 32 ∷ xbox_name (some circle))) ready

load_line-mask_of_example :
    (mask_of (codes "rear_left") changed.bindings ≡ some (some circle))
    × ((other : List ℕ)
        → codes "rear_left" ≢ other
        → mask_of other changed.bindings ≡ mask_of other ready.bindings)
    × (changed.input_mode ≡ ready.input_mode)
    × (changed.key_count ≡ ready.key_count)
load_line-mask_of_example =
    load_line-mask_of (codes "rear_left") (some circle) ready rear_left_physical rear_left_bound
