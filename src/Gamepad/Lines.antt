-- ===== src/Gamepad/Lines.antt =====
-- A line of the configuration file binds what it says.
use mathlib.Core.List.{append_assoc}
use mathlib.Core.Bool.{false≢true}
use zombie_shooter_ps_vita_p.Prelude.{
  ℕ, ◌≡◌, ◌≢◌, refl, sym, ap, ◌∙◌, subst, Bool, true, false, not, ◌&&◌, Option, none, some, List,
  [], ◌∷◌, ◌++◌, arith, length, leb, if◌then◌else◌, Bool-cases, inl, inr, str_eq, str_eq→eq,
}
use zombie_shooter_ps_vita_p.Prelude.Text.{scan_word}
use zombie_shooter_ps_vita_p.Prelude.Text.Lines.{
  is_plain, is_plain-append, is_word, line, c_string-line, scan_word-word, scan_word-space,
}
use zombie_shooter_ps_vita_p.Gamepad.Controls.{
  Control, cross, circle, square, triangle, l1, r1, l2, r2, start, select, up, down, left, right,
  l3, r3, VitaXboxBinding, xbox_name,
}
use zombie_shooter_ps_vita_p.Gamepad.{
  Gamepad, ascii_lower, ascii_upper, bind_name, is_mode_name, apply_words, is_remark, apply_second,
  apply_first, load_line,
}
use zombie_shooter_ps_vita_p.Gamepad.Methods.{xbox_mask_from_name-xbox_name}

-- The mask of the control of this name.
unfoldable pub mask_of : List ℕ → List VitaXboxBinding → Option (Option Control)
mask_of name [] = none
mask_of name (b ∷ bs) = if str_eq b.physical_name name then some b.xbox_mask else mask_of name bs

abbrev pub is_bound : Option (Option Control) → Bool
is_bound none = false
is_bound (some m) = true

mask_of-bind_name_self :
    (name : List ℕ) (m : Option Control) (bs : List VitaXboxBinding)
    → is_bound (mask_of name bs) ≡ true
    → mask_of name (bind_name name m bs) ≡ some m
unfolding mask_of bind_name
mask_of-bind_name_self name m [] h = absurd (false≢true h)
mask_of-bind_name_self name m (b ∷ bs) h = elim (Bool-cases (str_eq b.physical_name name)) [
  | inl same ↦ rw (same, same) refl
  | inr other ↦
      rw (other, other)
        (mask_of-bind_name_self name m bs (
          subst (λ (t : Bool). is_bound (if t then some b.xbox_mask else mask_of name bs) ≡ true)
            other h))
]

mask_of-bind_name_other :
    (name other : List ℕ) (m : Option Control) (bs : List VitaXboxBinding)
    → name ≢ other
    → mask_of other (bind_name name m bs) ≡ mask_of other bs
unfolding mask_of bind_name
mask_of-bind_name_other name other m [] ne = refl
mask_of-bind_name_other name other m (b ∷ bs) ne = elim (Bool-cases (str_eq b.physical_name name)) [
  | inl same ↦ elim (Bool-cases (str_eq b.physical_name other)) [
    | inl again ↦
        absurd
          (ne (sym (str_eq→eq b.physical_name name same) ∙ str_eq→eq b.physical_name other again))
    | inr apart ↦ rw (same, apart) refl
  ]
  | inr unlike ↦ rw unlike (ground (arith, mask_of-bind_name_other name other m bs ne))
]

-- Each name that xbox_name gives is a word of capitals.
abbrev is_action : Option Control → Bool
is_action m =
    is_word (xbox_name m)
    && (is_plain (xbox_name m)
        && (leb (length (xbox_name m)) 31 && str_eq (ascii_upper (xbox_name m)) (xbox_name m)))

xbox_name-is_action : (m : Option Control) → is_action m ≡ true
unfolding xbox_name ascii_upper str_eq
xbox_name-is_action none = refl
xbox_name-is_action (some cross) = refl
xbox_name-is_action (some circle) = refl
xbox_name-is_action (some square) = refl
xbox_name-is_action (some triangle) = refl
xbox_name-is_action (some l1) = refl
xbox_name-is_action (some r1) = refl
xbox_name-is_action (some l2) = refl
xbox_name-is_action (some r2) = refl
xbox_name-is_action (some start) = refl
xbox_name-is_action (some select) = refl
xbox_name-is_action (some up) = refl
xbox_name-is_action (some down) = refl
xbox_name-is_action (some left) = refl
xbox_name-is_action (some right) = refl
xbox_name-is_action (some l3) = refl
xbox_name-is_action (some r3) = refl

-- The name of a control of the Vita, as it may stand in the file.
abbrev pub is_physical : List ℕ → Bool
is_physical name =
    is_word name
    && (is_plain name
        && (leb (length name) 31
            && (not (is_remark name)
                && (not (is_mode_name name) && str_eq (ascii_lower name) name))))

module _ (name : List ℕ) (m : Option Control) (h : is_physical name ≡ true) where
  line_words :
      (g : Gamepad)
      → load_line (line (name ++ 32 ∷ xbox_name m)) g
        ≡ apply_words (ascii_lower name) (ascii_upper (xbox_name m)) g
  unfolding load_line
  line_words g =
      let action = xbox_name-is_action m in
      let plain : is_plain (name ++ 32 ∷ xbox_name m) ≡ true =
        is_plain-append name (32 ∷ xbox_name m) (ground arith) (ground (arith, action)) in
      let remark : is_remark name ≡ false = ground arith in
      ap (λ (l : List ℕ). apply_first (scan_word 31 l) g)
        (c_string-line (name ++ 32 ∷ xbox_name m) plain
          ∙ append_assoc name (32 ∷ xbox_name m) (10 ∷ []))
      ∙ ap (λ (w : Option (List ℕ × List ℕ)). apply_first w g)
          (scan_word-word 32 refl 31 name (xbox_name m ++ 10 ∷ []) (ground arith) (ground arith))
      ∙ ap (λ (w : Option (List ℕ × List ℕ)). apply_second name w g)
          (scan_word-space 31 (xbox_name m ++ 10 ∷ [])
            ∙ scan_word-word 10 refl 31 (xbox_name m) [] (ground (arith, action))
                (ground (arith, action)))
      ∙ rw remark refl

  line_binds :
      (g : Gamepad)
      → load_line (line (name ++ 32 ∷ xbox_name m)) g
        ≡ record g { bindings = bind_name name m g.bindings }
  unfolding apply_words
  line_binds g =
      let action = xbox_name-is_action m in
      let lower : ascii_lower name ≡ name = str_eq→eq (ascii_lower name) name (ground arith) in
      let upper : ascii_upper (xbox_name m) ≡ xbox_name m =
        str_eq→eq (ascii_upper (xbox_name m)) (xbox_name m) (ground (arith, action)) in
      let mode : is_mode_name name ≡ false = ground arith in
      line_words g
      ∙ ap (λ (p : List ℕ). apply_words p (ascii_upper (xbox_name m)) g) lower
      ∙ ap (λ (a : List ℕ). apply_words name a g) upper
      ∙ rw (mode, xbox_mask_from_name-xbox_name m) refl

-- A line with the name of a control of the Vita and the name of a mask binds that control to that
-- mask, and leaves every other control, the mode and the number of keys as they were.
pub load_line-mask_of :
    (name : List ℕ) (m : Option Control) (g : Gamepad)
    → is_physical name ≡ true
    → is_bound (mask_of name g.bindings) ≡ true
    → (mask_of name (load_line (line (name ++ 32 ∷ xbox_name m)) g).bindings ≡ some m)
      × ((other : List ℕ)
          → name ≢ other
          → mask_of other (load_line (line (name ++ 32 ∷ xbox_name m)) g).bindings
            ≡ mask_of other g.bindings)
      × ((load_line (line (name ++ 32 ∷ xbox_name m)) g).input_mode ≡ g.input_mode)
      × ((load_line (line (name ++ 32 ∷ xbox_name m)) g).key_count ≡ g.key_count)
load_line-mask_of name m g h k =
    let e = line_binds name m h g in
    (
      ap (λ (t : Gamepad). mask_of name t.bindings) e ∙ mask_of-bind_name_self name m g.bindings k,
      λ other ne.
          ap (λ (t : Gamepad). mask_of other t.bindings) e
          ∙ mask_of-bind_name_other name other m g.bindings ne,
      ap (λ (t : Gamepad). t.input_mode) e,
      ap (λ (t : Gamepad). t.key_count) e,
    )
