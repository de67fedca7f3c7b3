-- ===== src/Raster/Lanes.antt =====
-- Colours as four bytes, and rows in blocks of eight pixels.
use zombie_shooter_ps_vita_p.Prelude.{
  ℕ, zero, suc, ◌+◌, ◌*◌, ◌-◌, ◌%◌, ◌^◌, ◌≤◌, ◌<◌, ◌≡◌, refl, ap, ◌∙◌, List, [], ◌∷◌, ◌++◌, map,
  arith, length, take, drop, take-append-drop, leb, if◌then◌else◌, if_cases, ◌>>>◌, bit_or,
}
use zombie_shooter_ps_vita_p.Prelude.Bits.{bit_or_disjoint, bit_or_split, zero-bit_or, bit_or-zero}
use native.Mathlib.Nat.{mul-le-mul_right}

-- Byte `k` of a colour.
abbrev pub lane : ℕ → ℕ → ℕ
lane k c = (c >>> (8 * k)) % 256

-- Four bytes as vst4 stores them in a little-endian word.
abbrev pub pack : ℕ → ℕ → ℕ → ℕ → ℕ
pack a b c d = a + b * 2 ^ 8 + c * 2 ^ 16 + d * 2 ^ 24

module _ {A B : Type 0} where
  -- A row: blocks of eight while there are eight pixels left, and the rest one by one.
  unfoldable pub blocks_of_eight : (List A → List B) → (A → B) → ℕ → List A → List B
  blocks_of_eight block pixel zero xs = map pixel xs
  blocks_of_eight block pixel (suc fuel) xs =
      let rest = blocks_of_eight block pixel fuel (drop 8 xs) in
      if leb 8 (length xs) then block (take 8 xs) ++ rest else map pixel xs

  map-append : (f : A → B) (xs ys : List A) → map f (xs ++ ys) ≡ map f xs ++ map f ys
  map-append f [] ys = refl
  map-append f (x ∷ xs) ys = ap (◌∷◌ (f x)) (map-append f xs ys)

  pub blocks_of_eight-map :
      (good : List A → Type 0)
      → ((xs : List A) → good xs → good (take 8 xs) × good (drop 8 xs))
      → (block : List A → List B) (pixel : A → B)
      → ((xs : List A) → good xs → block xs ≡ map pixel xs)
      → (fuel : ℕ) (xs : List A) → good xs
      → blocks_of_eight block pixel fuel xs ≡ map pixel xs
  unfolding blocks_of_eight
  blocks_of_eight-map good parts block pixel same zero xs g = refl
  blocks_of_eight-map good parts block pixel same (suc fuel) xs g =
      if_cases (λ r. r ≡ map pixel xs) (leb 8 (length xs))
        (λ long.
          rw
            (
              same (take 8 xs) (parts xs g).0,
              blocks_of_eight-map good parts block pixel same fuel (drop 8 xs) (parts xs g).1,
              ← map-append pixel (take 8 xs) (drop 8 xs),
              take-append-drop 8 xs,
            )
            refl)
        (λ short. refl)

-- A weighted mean of two bytes.
pub mean_bound : (x y a w : ℕ) → x < 256 → y < 256 → a ≤ w → x * a + y * (w - a) ≤ 255 * w
mean_bound x y a w hx hy ha =
    let hx' : x ≤ 255 = omega arith in
    let hy' : y ≤ 255 = omega arith in
    omega (arith, mul-le-mul_right a hx', mul-le-mul_right (w - a) hy')

-- Four bytes put together by shifts and `|`, in the order of alpha_blend.
pub or_lanes :
    (r g b a : ℕ)
    → r < 256
    → g < 256
    → b < 256
    → bit_or (bit_or (a * 2 ^ 24) (g * 2 ^ 8)) (r + b * 2 ^ 16) ≡ pack r g b a
or_lanes r g b a hr hg hb =
    let top : bit_or (a * 2 ^ 24) (g * 2 ^ 8) ≡ a * 2 ^ 24 + g * 2 ^ 8 =
      bit_or_disjoint 24 a (g * 2 ^ 8) (omega arith) in
    let low : bit_or (a * 2 ^ 24 + g * 2 ^ 8) (r + b * 2 ^ 16) ≡ pack r g b a =
      ap (λ (t : ℕ). bit_or t (r + b * 2 ^ 16)) (the_high a g)
      ∙ ap (bit_or ((a * 2 ^ 16 + g) * 2 ^ 8 + 0)) (the_low r b)
      ∙ bit_or_split 8 (a * 2 ^ 16 + g) 0 (b * 2 ^ 8) r (omega arith) hr
      ∙ ap (λ (t : ℕ). t * 2 ^ 8 + bit_or 0 r) (the_middle a g b hg hb)
      ∙ ap (λ (t : ℕ). ((a * 2 ^ 8 + b) * 2 ^ 8 + g) * 2 ^ 8 + t) (zero-bit_or r)
      ∙ omega arith in
    ap (λ (t : ℕ). bit_or t (r + b * 2 ^ 16)) top ∙ low
  where
    the_high : (a g : ℕ) → a * 2 ^ 24 + g * 2 ^ 8 ≡ (a * 2 ^ 16 + g) * 2 ^ 8 + 0
    the_high a g = omega arith

    the_low : (r b : ℕ) → r + b * 2 ^ 16 ≡ b * 2 ^ 8 * 2 ^ 8 + r
    the_low r b = omega arith

    the_middle :
        (a g b : ℕ)
        → g < 256
        → b < 256
        → bit_or (a * 2 ^ 16 + g) (b * 2 ^ 8) ≡ (a * 2 ^ 8 + b) * 2 ^ 8 + g
    the_middle a g b hg hb =
        let one : a * 2 ^ 16 + g ≡ a * 2 ^ 8 * 2 ^ 8 + g = omega arith in
        let two : b * 2 ^ 8 ≡ b * 2 ^ 8 + 0 = omega arith in
        ap (λ (t : ℕ). bit_or t (b * 2 ^ 8)) one
        ∙ ap (bit_or (a * 2 ^ 8 * 2 ^ 8 + g)) two
        ∙ bit_or_split 8 (a * 2 ^ 8) g b 0 hg (omega arith)
        ∙ ap (λ (t : ℕ). t * 2 ^ 8 + bit_or g 0) (bit_or_disjoint 8 a b hb)
        ∙ ap (λ (t : ℕ). (a * 2 ^ 8 + b) * 2 ^ 8 + t) (bit_or-zero g)
