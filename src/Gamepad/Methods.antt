-- ===== src/Gamepad/Methods.antt =====
-- gamepad_config_load: what every configuration file leaves in place, and the default one.
use zombie_shooter_ps_vita_p.Prelude.{
  ℕ, zero, suc, ◌≡◌, refl, ap, ◌∙◌, Bool, true, ◌||◌, Option, none, some, List, [], ◌∷◌, map,
  if_both, str_eq, codes,
}
use zombie_shooter_ps_vita_p.Prelude.Text.{
  take_line, lines_from, fgets_lines, c_string, skip_space, span_word, scan_word,
}
use zombie_shooter_ps_vita_p.Gamepad.Controls.{
  Control, cross, circle, square, triangle, l1, r1, l2, r2, start, select, up, down, left, right,
  l3, r3, VitaXboxBinding, initial_bindings, default_masks, xbox_mask_from_name, xbox_name,
  default_controls,
}
use zombie_shooter_ps_vita_p.Gamepad.{
  VitaInputMode, Gamepad, set_xbox, set_masks, reset_xbox_defaults, ascii_lower, ascii_upper,
  bind_name, set_input_mode, bind_valid, is_mode_name, apply_words, is_remark, apply_second,
  apply_first, load_line, load_lines, has_masks, old_profile, set_at, migrate, gamepad_config_load,
  count_of,
}

-- The part of a binding that the configuration does not change.
abbrev pub with_no_mask : VitaXboxBinding → VitaXboxBinding
with_no_mask b = set_xbox none b

-- The bindings are those of the Vita, and the number of keys is that of the mode.
pub record IsConfigured (g : Gamepad) : Type 0 where
  pub bound : map with_no_mask g.bindings ≡ map with_no_mask initial_bindings
  pub count : g.key_count ≡ count_of g.input_mode

set_masks-bound :
    (ms : List Control) (bs : List VitaXboxBinding)
    → map with_no_mask (set_masks ms bs) ≡ map with_no_mask bs
unfolding set_masks
set_masks-bound [] bs = refl
set_masks-bound (m ∷ ms) [] = refl
set_masks-bound (m ∷ ms) (b ∷ bs) = ap (◌∷◌ (with_no_mask b)) (set_masks-bound ms bs)

bind_name-bound :
    (name : List ℕ) (m : Option Control) (bs : List VitaXboxBinding)
    → map with_no_mask (bind_name name m bs) ≡ map with_no_mask bs
unfolding bind_name
bind_name-bound name m [] = refl
bind_name-bound name m (b ∷ bs) =
    if_both (λ (t : List VitaXboxBinding). map with_no_mask t ≡ map with_no_mask (b ∷ bs))
      (str_eq b.physical_name name) refl (ap (◌∷◌ (with_no_mask b)) (bind_name-bound name m bs))

set_at-bound :
    (i : ℕ) (m : Option Control) (bs : List VitaXboxBinding)
    → map with_no_mask (set_at i m bs) ≡ map with_no_mask bs
unfolding set_at
set_at-bound i m [] = refl
set_at-bound zero m (b ∷ bs) = refl
set_at-bound (suc i) m (b ∷ bs) = ap (◌∷◌ (with_no_mask b)) (set_at-bound i m bs)

set_input_mode-IsConfigured :
    (name : List ℕ) (g : Gamepad) → IsConfigured g → IsConfigured (set_input_mode name g)
unfolding set_input_mode
set_input_mode-IsConfigured name g h =
    if_both IsConfigured (str_eq name (codes "STRICT") || str_eq name (codes "XBOX_STRICT"))
      record { bound = h.bound; count = refl }
      (if_both IsConfigured
        (str_eq name (codes "HYBRID")
          || str_eq name (codes "ANDROID_HYBRID")
          || str_eq name (codes "LEGACY"))
        record { bound = h.bound; count = refl } h)

bind_valid-IsConfigured :
    (name : List ℕ) (m : Option (Option Control)) (g : Gamepad)
    → IsConfigured g
    → IsConfigured (bind_valid name m g)
bind_valid-IsConfigured name none g h = h
bind_valid-IsConfigured name (some m) g h = record {
  bound = bind_name-bound name m g.bindings ∙ h.bound;
  count = h.count;
}

apply_second-IsConfigured :
    (physical : List ℕ) (w : Option (List ℕ × List ℕ)) (g : Gamepad)
    → IsConfigured g
    → IsConfigured (apply_second physical w g)
unfolding apply_words
apply_second-IsConfigured physical none g h = h
apply_second-IsConfigured physical (some (action, rest)) g h =
    if_both IsConfigured (is_remark physical) h (
      if_both IsConfigured (is_mode_name (ascii_lower physical))
        (set_input_mode-IsConfigured (ascii_upper action) g h)
        (bind_valid-IsConfigured (ascii_lower physical) (xbox_mask_from_name (ascii_upper action)) g
          h))

apply_first-IsConfigured :
    (w : Option (List ℕ × List ℕ)) (g : Gamepad) → IsConfigured g → IsConfigured (apply_first w g)
apply_first-IsConfigured none g h = h
apply_first-IsConfigured (some (physical, rest)) g h =
    apply_second-IsConfigured physical (scan_word 31 rest) g h

load_lines-IsConfigured :
    (ls : List (List ℕ)) (g : Gamepad) → IsConfigured g → IsConfigured (load_lines ls g)
unfolding load_lines load_line
load_lines-IsConfigured [] g h = h
load_lines-IsConfigured (l ∷ ls) g h =
    load_lines-IsConfigured ls (load_line l g)
      (apply_first-IsConfigured (scan_word 31 (c_string l)) g h)

migrate-IsConfigured : (g : Gamepad) → IsConfigured g → IsConfigured (migrate g)
unfolding migrate
migrate-IsConfigured g h =
    if_both IsConfigured (has_masks old_profile g.bindings)
      record {
        bound =
            set_at-bound 5 (some left) (set_at 4 (some right) g.bindings)
            ∙ set_at-bound 4 (some right) g.bindings
            ∙ h.bound;
        count = h.count;
      }
      h

reset_xbox_defaults-IsConfigured :
    (g : Gamepad)
    → map with_no_mask g.bindings ≡ map with_no_mask initial_bindings
    → IsConfigured (reset_xbox_defaults g)
unfolding reset_xbox_defaults
reset_xbox_defaults-IsConfigured g h = record {
  bound = set_masks-bound default_masks g.bindings ∙ h;
  count = refl;
}

loaded-IsConfigured :
    (g : Gamepad) → IsConfigured g → IsConfigured (record g { controls_loaded = true })
loaded-IsConfigured g h = record { bound = h.bound; count = h.count }

-- Whatever the configuration file holds, and whether or not there is one, gamepad_config_load
-- keeps the physical side of the bindings and their order, and leaves the number of keys in step
-- with the mode.
pub gamepad_config_load-IsConfigured :
    (writable : Bool) (file : Option (List ℕ)) (g : Gamepad)
    → map with_no_mask g.bindings ≡ map with_no_mask initial_bindings
    → IsConfigured (gamepad_config_load writable file g).0
unfolding gamepad_config_load
gamepad_config_load-IsConfigured writable none g h =
    loaded-IsConfigured (reset_xbox_defaults g) (reset_xbox_defaults-IsConfigured g h)
gamepad_config_load-IsConfigured writable (some text) g h =
    loaded-IsConfigured (migrate (load_lines (fgets_lines 160 text) (reset_xbox_defaults g))) (
      migrate-IsConfigured (load_lines (fgets_lines 160 text) (reset_xbox_defaults g)) (
        load_lines-IsConfigured (fgets_lines 160 text) (reset_xbox_defaults g)
          (reset_xbox_defaults-IsConfigured g h)))

-- The file that is created where there is none says what holds without it: a start that reads
-- it ends in the same state, whatever the mode was and whether anything was loaded before.
pub gamepad_config_load-default_controls :
    (writable loaded : Bool) (mode : VitaInputMode) (count : ℕ)
    → (gamepad_config_load writable (some default_controls) record {
      bindings = initial_bindings;
      controls_loaded = loaded;
      input_mode = mode;
      key_count = count;
    }).0
      ≡ (gamepad_config_load writable none record {
        bindings = initial_bindings;
        controls_loaded = loaded;
        input_mode = mode;
        key_count = count;
      }).0
unfolding gamepad_config_load fgets_lines lines_from take_line load_lines load_line scan_word
    c_string skip_space span_word apply_words set_input_mode bind_name str_eq ascii_lower
    ascii_upper xbox_mask_from_name migrate has_masks reset_xbox_defaults set_masks
gamepad_config_load-default_controls writable loaded mode count = refl

-- The name that the log shows for a mask is read back as that mask.
pub xbox_mask_from_name-xbox_name :
    (m : Option Control) → xbox_mask_from_name (xbox_name m) ≡ some m
unfolding xbox_mask_from_name xbox_name str_eq
xbox_mask_from_name-xbox_name none = refl
xbox_mask_from_name-xbox_name (some cross) = refl
xbox_mask_from_name-xbox_name (some circle) = refl
xbox_mask_from_name-xbox_name (some square) = refl
xbox_mask_from_name-xbox_name (some triangle) = refl
xbox_mask_from_name-xbox_name (some l1) = refl
xbox_mask_from_name-xbox_name (some r1) = refl
xbox_mask_from_name-xbox_name (some l2) = refl
xbox_mask_from_name-xbox_name (some r2) = refl
xbox_mask_from_name-xbox_name (some start) = refl
xbox_mask_from_name-xbox_name (some select) = refl
xbox_mask_from_name-xbox_name (some up) = refl
xbox_mask_from_name-xbox_name (some down) = refl
xbox_mask_from_name-xbox_name (some left) = refl
xbox_mask_from_name-xbox_name (some right) = refl
xbox_mask_from_name-xbox_name (some l3) = refl
xbox_mask_from_name-xbox_name (some r3) = refl
