-- ===== src/Prelude/Text/Numbers.antt =====
-- A number that was printed is read as it was.
use Prim.Native.Nat.{ℕ, zero, suc, ◌+◌, ◌*◌, ◌/◌, ◌%◌, ◌^◌, ◌≤◌, ◌<◌}
use mathlib.Core.Path.{◌≡◌, refl, ap, ◌∙◌}
use mathlib.Core.Bool.{true, false}
use mathlib.Core.List.{List, [], ◌∷◌, ◌++◌}
use mathlib.Core.Option.{some}
use native.Mathlib.Omega.{arith}
use zombie_shooter_ps_vita_p.Prelude.Int.{ℤ, pos, negsuc}
use zombie_shooter_ps_vita_p.Prelude.Lists.{length, length-append}
use zombie_shooter_ps_vita_p.Prelude.Tests.{ltb, leb, ◌==◌, if_cases}
use zombie_shooter_ps_vita_p.Prelude.Text.{
  is_space, is_digit, skip_space, read_digits, at_digit, to_positive, to_negative, signed_digits,
  scan_int, digits, print_int,
}
use zombie_shooter_ps_vita_p.Prelude.Text.Lines.{is_plain, is_plain-append, append_snoc}

abbrev pub IsInt32 : ℤ → Type 0
IsInt32 (pos n) = n < 2 ^ 31
IsInt32 (negsuc n) = n < 2 ^ 31

digits-is_plain : (fuel n : ℕ) → is_plain (digits fuel n) ≡ true
unfolding digits
digits-is_plain zero n = refl
digits-is_plain (suc fuel) n =
    if_cases (λ (s : List ℕ). is_plain s ≡ true) (ltb n 10) (λ small. ground arith)
      (λ _.
        is_plain-append (digits fuel (n / 10)) ((48 + n % 10) ∷ []) (digits-is_plain fuel (n / 10))
          (ground arith))

length-digits : (fuel n : ℕ) → length (digits fuel n) ≤ fuel
unfolding digits
length-digits zero n = omega arith
length-digits (suc fuel) n =
    if_cases (λ (s : List ℕ). length s ≤ suc fuel) (ltb n 10) (λ small. omega arith)
      (λ _. omega (
        arith,
        length-append (digits fuel (n / 10)) ((48 + n % 10) ∷ []),
        length-digits fuel (n / 10),
      ))

one_digit :
    (n d : ℕ) (s : List ℕ) → d < 10 → read_digits n ((48 + d) ∷ s) ≡ read_digits (n * 10 + d) s
unfolding read_digits
one_digit n d s h =
    let digit : is_digit (48 + d) ≡ true = ground arith in
    rw digit (ap (λ (k : ℕ). read_digits (n * 10 + k) s) (omega arith))

-- What follows the digits must not be one.
read_digits-digits :
    (fuel n : ℕ) (s : List ℕ) → n < 10 ^ fuel → read_digits 0 (digits fuel n ++ s) ≡ read_digits n s
unfolding digits
read_digits-digits zero n s h = ap (λ (k : ℕ). read_digits k s) (omega arith)
read_digits-digits (suc fuel) n s h =
    if_cases (λ (t : List ℕ). read_digits 0 (t ++ s) ≡ read_digits n s) (ltb n 10)
      (λ small. one_digit 0 n s (ground arith) ∙ ap (λ (k : ℕ). read_digits k s) (omega arith))
      (λ _.
        ap (read_digits 0) (append_snoc (digits fuel (n / 10)) s (48 + n % 10))
        ∙ read_digits-digits fuel (n / 10) ((48 + n % 10) ∷ s) (ground arith)
        ∙ one_digit (n / 10) (n % 10) s (omega arith)
        ∙ ap (λ (k : ℕ). read_digits k s) (omega arith))

at_digit-digits : (fuel n : ℕ) (s : List ℕ) → at_digit (digits (suc fuel) n ++ s) ≡ true
unfolding digits
at_digit-digits zero n s =
    if_cases (λ (t : List ℕ). at_digit (t ++ s) ≡ true) (ltb n 10) (λ small. ground arith)
      (λ _. ground arith)
at_digit-digits (suc fuel) n s =
    if_cases (λ (t : List ℕ). at_digit (t ++ s) ≡ true) (ltb n 10) (λ small. ground arith)
      (λ _.
        ap at_digit (append_snoc (digits (suc fuel) (n / 10)) s (48 + n % 10))
        ∙ at_digit-digits fuel (n / 10) ((48 + n % 10) ∷ s))

scan_positive : (s : List ℕ) → at_digit s ≡ true → scan_int (32 ∷ s) ≡ to_positive s
unfolding scan_int skip_space signed_digits
scan_positive [] h = ground arith
scan_positive (c ∷ s) h =
    let word : is_space c ≡ false = ground arith in
    let unsigned : (c == 45) ≡ false = ground arith in
    let plus : (c == 43) ≡ false = ground arith in rw (word, unsigned, plus) refl

scan_negative : (s : List ℕ) → scan_int (32 ∷ 45 ∷ s) ≡ to_negative s
unfolding scan_int skip_space signed_digits
scan_negative s = refl

read_printed : (n : ℕ) → n < 10 ^ 10 → read_digits 0 (digits 10 n ++ 10 ∷ []) ≡ n
unfolding read_digits
read_printed n h = read_digits-digits 10 n (10 ∷ []) h

-- An `int` that was printed after a space, at the end of a line, is read as it was.
pub scan_int-print_int : (v : ℤ) → IsInt32 v → scan_int (32 ∷ print_int v ++ 10 ∷ []) ≡ some v
unfolding print_int
scan_int-print_int (pos n) h =
    let first = at_digit-digits 9 n (10 ∷ []) in
    let small : ltb n (2 ^ 31) ≡ true = ground arith in
    scan_positive (digits 10 n ++ 10 ∷ []) first
    ∙ rw (first, read_printed n (omega arith), small) refl
scan_int-print_int (negsuc n) h =
    let first = at_digit-digits 9 (n + 1) (10 ∷ []) in
    let large : leb (n + 1) (2 ^ 31) ≡ true = ground arith in
    let some_digits : (n + 1 == 0) ≡ false = ground arith in
    rw
      (
        scan_negative (digits 10 (n + 1) ++ 10 ∷ []),
        first,
        read_printed (n + 1) (omega arith),
        some_digits,
        large,
      )
      (ap (λ (k : ℕ). some (negsuc k)) (omega arith))

pub print_int-is_plain : (v : ℤ) → is_plain (print_int v) ≡ true
unfolding print_int
print_int-is_plain (pos n) = digits-is_plain 10 n
print_int-is_plain (negsuc n) = digits-is_plain 10 (n + 1)

pub length-print_int : (v : ℤ) → length (print_int v) ≤ 11
unfolding print_int
length-print_int (pos n) = omega (arith, length-digits 10 n)
length-print_int (negsuc n) = omega (arith, length-digits 10 (n + 1))
