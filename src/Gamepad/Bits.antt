-- ===== src/Gamepad/Bits.antt =====
-- fndk_translate_pad_buttons on the bits of the SDK: the logical controls are those that the
-- configuration gives to the pressed ones.
use native.Mathlib.Nat.{one-le-pow}
use zombie_shooter_ps_vita_p.Prelude.{
  ℕ, ◌*◌, ◌^◌, ◌≡◌, ◌≢◌, ◌↔◌, ◌⊎◌, refl, sym, ap, ◌∙◌, Bool, true, false, ◌&&◌, ◌||◌, Option, none,
  some, List, [], ◌∷◌, arith, get_or, ◌==◌, if◌then◌else◌, Bool-cases, inl, inr, bit_and, bit_or,
}
use zombie_shooter_ps_vita_p.Prelude.Bits.Single.{
  bit, bit_and-pow, bit_or-bit, bit_pow_other, bit_pow_self, bit-zero,
}
use zombie_shooter_ps_vita_p.Gamepad.Controls.{
  Control, cross, circle, square, triangle, l1, r1, l2, r2, start, select, up, down, left, right,
  l3, r3, VitaXboxBinding,
}
use zombie_shooter_ps_vita_p.Gamepad.{
  Gamepad, control_code, xbox_bits, is_pressed, translate, fndk_translate_pad_buttons,
}

abbrev controls : List Control
controls =
    r3 ∷ cross ∷ circle ∷ square ∷ triangle ∷ l1 ∷ r1 ∷ l2 ∷ r2 ∷ start ∷ select ∷ up ∷ down ∷ left
    ∷ right ∷ l3 ∷ r3 ∷ []

abbrev control_of : ℕ → Control
control_of n = get_or controls n r3

control_of-control_code : (c : Control) → control_of (control_code (some c)) ≡ c
control_of-control_code cross = refl
control_of-control_code circle = refl
control_of-control_code square = refl
control_of-control_code triangle = refl
control_of-control_code l1 = refl
control_of-control_code r1 = refl
control_of-control_code l2 = refl
control_of-control_code r2 = refl
control_of-control_code start = refl
control_of-control_code select = refl
control_of-control_code up = refl
control_of-control_code down = refl
control_of-control_code left = refl
control_of-control_code right = refl
control_of-control_code l3 = refl
control_of-control_code r3 = refl

control_code-injective : (c d : Control) → control_code (some c) ≡ control_code (some d) → c ≡ d
control_code-injective c d e =
    sym (control_of-control_code c) ∙ ap control_of e ∙ control_of-control_code d

control_code_nonzero : (c : Control) → control_code (some c) ≢ 0
control_code_nonzero cross e = absurd (omega arith)
control_code_nonzero circle e = absurd (omega arith)
control_code_nonzero square e = absurd (omega arith)
control_code_nonzero triangle e = absurd (omega arith)
control_code_nonzero l1 e = absurd (omega arith)
control_code_nonzero r1 e = absurd (omega arith)
control_code_nonzero l2 e = absurd (omega arith)
control_code_nonzero r2 e = absurd (omega arith)
control_code_nonzero start e = absurd (omega arith)
control_code_nonzero select e = absurd (omega arith)
control_code_nonzero up e = absurd (omega arith)
control_code_nonzero down e = absurd (omega arith)
control_code_nonzero left e = absurd (omega arith)
control_code_nonzero right e = absurd (omega arith)
control_code_nonzero l3 e = absurd (omega arith)
control_code_nonzero r3 e = absurd (omega arith)

-- The masks of the SDK: a bit of its own for each control.
pub record IsMasks (mask place : Control → ℕ) : Type 0 where
  pub single : (c : Control) → mask c ≡ 2 ^ place c
  pub distinct : (c d : Control) → place c ≡ place d → c ≡ d

-- The buttons that a binding looks at: those of the rear, or those of the front.
abbrev pub side_of : Bool → ℕ → ℕ → ℕ
side_of true front rear = rear
side_of false front rear = front

module _ (place : Control → ℕ) where
  -- Some binding whose bit is set on its side stands for the control `c`.
  unfoldable pub is_asked : ℕ → ℕ → Control → List VitaXboxBinding → Bool
  is_asked front rear c [] = false
  is_asked front rear c (b ∷ bs) =
      (bit (place b.physical_mask) (side_of b.from_rear front rear) == 1
        && control_code b.xbox_mask == control_code (some c))
      || is_asked front rear c bs

-- The tests of a bit by its mask.
masked :
    (mask place : Control → ℕ)
    → IsMasks mask place
    → (c : Control) (n : ℕ) → (bit_and n (mask c) ≢ 0) ↔ (bit (place c) n ≡ 1)
masked mask place h c n =
    let value : bit_and n (mask c) ≡ bit (place c) n * 2 ^ place c =
      ap (bit_and n) (h.single c) ∙ bit_and-pow (place c) n in
    elim (Bool-cases (bit (place c) n == 0)) [
      | inl off ↦
          let none : bit (place c) n ≡ 0 = ground arith in
          (
            λ k. absurd (k (omega (arith, value ∙ ap (λ (t : ℕ). t * 2 ^ place c) none))),
            λ e k. absurd (omega arith),
          )
      | inr on ↦
          let one : bit (place c) n ≡ 1 = ground arith in
          (
            λ k. one,
            λ e k. absurd (
                omega (arith, one-le-pow (place c) 2, value ∙ ap (λ (t : ℕ). t * 2 ^ place c) one)),
          )
    ]

module _ {mask place : Control → ℕ} (h : IsMasks mask place) (c : Control) where
  own_bit :
      (m : Option Control)
      → (bit (place c) (xbox_bits mask m) ≡ 1) ↔ (control_code m ≡ control_code (some c))
  own_bit none = (
    λ e. absurd (omega (arith, bit-zero (place c), e)),
    λ e. absurd (control_code_nonzero c (sym e)),
  )
  own_bit (some d) = (
    λ e. elim (Bool-cases (place c == place d)) [
      | inl same ↦ ap (λ (x : Control). control_code (some x)) (sym (h.distinct c d (ground arith)))
      | inr other ↦
          let off = bit_pow_other (place c) (place d) (λ k. ground arith) in
          absurd (omega (arith, e, off, ap (bit (place c)) (h.single d)))
    ],
    λ e.
        ap (bit (place c)) (h.single d)
        ∙ ap (λ (x : Control). bit (place c) (2 ^ place x)) (control_code-injective d c e)
        ∙ bit_pow_self (place c),
  )

  side_if : (r : Bool) (buttons rear : ℕ) → (if r then rear else buttons) ≡ side_of r buttons rear
  side_if true buttons rear = refl
  side_if false buttons rear = refl

  pressed_bit :
      (buttons rear : ℕ) (b : VitaXboxBinding)
      → is_pressed mask buttons rear b
        ≡ (bit (place b.physical_mask) (side_of b.from_rear buttons rear) == 1)
  pressed_bit buttons rear b =
      let test = masked mask place h b.physical_mask (side_of b.from_rear buttons rear) in
      rw (side_if b.from_rear buttons rear) (ground (arith, test.0, test.1))

  translate-bit :
      (buttons rear logical : ℕ) (bs : List VitaXboxBinding)
      → (bit (place c) (translate mask buttons rear logical bs) ≡ 1)
        ↔ ((bit (place c) logical ≡ 1) ⊎ (is_asked place buttons rear c bs ≡ true))
  unfolding translate is_asked
  translate-bit buttons rear logical [] = (λ e. inl e, λ e. ground arith)
  translate-bit buttons rear logical (b ∷ bs) =
      let pressed = pressed_bit buttons rear b in
      elim (Bool-cases (is_pressed mask buttons rear b)) [
        | inl down_now ↦
            let later =
              translate-bit buttons rear (bit_or logical (xbox_bits mask b.xbox_mask)) bs in
            let now = bit_or-bit (place c) logical (xbox_bits mask b.xbox_mask) in
            let own = own_bit b.xbox_mask in
            rw down_now (ground (arith, later.0, later.1, now.0, now.1, own.0, own.1))
        | inr not_down ↦
            let later = translate-bit buttons rear logical bs in
            rw not_down (ground (arith, later.0, later.1))
      ]

-- On the handheld, once the configuration is loaded, a control of the Xbox pad is down exactly if
-- some pressed control of the Vita, on its front or its rear, is bound to it. The masks of the SDK
-- are assumed to be single bits, a different one for each control.
pub fndk_translate_pad_buttons-is_asked :
    (mask place : Control → ℕ)
    → IsMasks mask place
    → (buttons rear : ℕ) (c : Control) (g : Gamepad) → g.controls_loaded ≡ true
    → (bit_and (fndk_translate_pad_buttons mask buttons rear true g).1 (mask c) ≢ 0)
      ↔ (is_asked place buttons rear c g.bindings ≡ true)
unfolding fndk_translate_pad_buttons
fndk_translate_pad_buttons-is_asked mask place h buttons rear c g loaded =
    let asked = translate-bit h c buttons rear 0 g.bindings in
    let test = masked mask place h c (translate mask buttons rear 0 g.bindings) in
    rw loaded (ground (arith, asked.0, asked.1, test.0, test.1, bit-zero (place c)))
