-- ===== src/Prelude/Text/Lines.antt =====
-- Lines and words that were written are read as they were.
use Prim.Native.Nat.{ℕ, zero, suc, ◌-◌, ◌≤◌, ◌<◌}
use mathlib.Core.Path.{◌≡◌, refl, ap, ◌∙◌}
use mathlib.Core.Bool.{Bool, true, false, not, ◌&&◌, false≢true}
use mathlib.Core.List.{List, [], ◌∷◌, ◌++◌, map}
use mathlib.Core.Option.{some}
use native.Mathlib.Omega.{arith}
use zombie_shooter_ps_vita_p.Prelude.Lists.{length, length-append}
use zombie_shooter_ps_vita_p.Prelude.Tests.{ltb, ◌==◌}
use zombie_shooter_ps_vita_p.Prelude.Text.{
  is_space, take_line, lines_from, fgets_lines, c_string, skip_space, span_word, scan_word,
}

-- No byte ends a line or a string.
abbrev pub is_plain : List ℕ → Bool
is_plain [] = true
is_plain (c ∷ s) = not (c == 0) && (not (c == 10) && is_plain s)

abbrev no_space : List ℕ → Bool
no_space [] = true
no_space (c ∷ s) = not (is_space c) && no_space s

abbrev pub is_word : List ℕ → Bool
is_word [] = false
is_word (c ∷ s) = not (is_space c) && no_space s

abbrev pub line : List ℕ → List ℕ
line s = s ++ 10 ∷ []

abbrev pub concat_lines : List (List ℕ) → List ℕ
concat_lines [] = []
concat_lines (l ∷ ls) = line l ++ concat_lines ls

abbrev pub all_plain : ℕ → List (List ℕ) → Bool
all_plain n [] = true
all_plain n (l ∷ ls) = is_plain l && (ltb (length l) n && all_plain n ls)

pub is_plain-append :
    (s t : List ℕ) → is_plain s ≡ true → is_plain t ≡ true → is_plain (s ++ t) ≡ true
is_plain-append [] t p q = q
is_plain-append (c ∷ s) t p q = ground (arith, is_plain-append s t)

pub append_snoc : (xs ys : List ℕ) (x : ℕ) → (xs ++ x ∷ []) ++ ys ≡ xs ++ x ∷ ys
append_snoc [] ys x = refl
append_snoc (y ∷ xs) ys x = ap (◌∷◌ y) (append_snoc xs ys x)

take_line-line :
    (n : ℕ) (s t : List ℕ)
    → is_plain s ≡ true
    → length s < n
    → take_line n (s ++ 10 ∷ t) ≡ (line s, t)
unfolding take_line
take_line-line zero s t p lt = absurd (omega arith)
take_line-line (suc n) [] t p lt = refl
take_line-line (suc n) (c ∷ s) t p lt =
    let rest = take_line-line n s t (ground arith) (omega arith) in
    let plain : (c == 10) ≡ false = ground arith in rw (plain, rest) refl

more_lines :
    (fuel n : ℕ) (s t : List ℕ)
    → is_plain s ≡ true
    → length s < n
    → lines_from (suc fuel) n (line s ++ t) ≡ line s ∷ lines_from fuel n t
unfolding lines_from take_line
more_lines fuel n s t p lt = rw (append_snoc s t 10) (start s p lt)
  where
    start :
        (s : List ℕ)
        → is_plain s ≡ true
        → length s < n
        → lines_from (suc fuel) n (s ++ 10 ∷ t) ≡ line s ∷ lines_from fuel n t
    start [] p lt = rw (take_line-line n [] t p lt) refl
    start (c ∷ s) p lt = rw (take_line-line n (c ∷ s) t p lt) refl

lines_from-concat_lines :
    (fuel n : ℕ) (ls : List (List ℕ))
    → all_plain n ls ≡ true
    → length (concat_lines ls) ≤ fuel
    → lines_from fuel n (concat_lines ls) ≡ map line ls
unfolding lines_from
lines_from-concat_lines zero n [] p enough = refl
lines_from-concat_lines (suc fuel) n [] p enough = refl
lines_from-concat_lines zero n (l ∷ ls) p enough =
    absurd
      (omega (arith, enough, length-append (line l) (concat_lines ls), length-append l (10 ∷ [])))
lines_from-concat_lines (suc fuel) n (l ∷ ls) p enough =
    more_lines fuel n l (concat_lines ls) (ground arith) (ground arith)
    ∙ ap (◌∷◌ (line l)) (
        lines_from-concat_lines fuel n ls (ground arith) (
          omega
            (arith, enough, length-append (line l) (concat_lines ls), length-append l (10 ∷ []))))

-- Lines that fit in the buffer with their end are read one by one.
pub fgets_lines-concat_lines :
    (size : ℕ) (ls : List (List ℕ))
    → all_plain (size - 1) ls ≡ true
    → fgets_lines size (concat_lines ls) ≡ map line ls
unfolding fgets_lines
fgets_lines-concat_lines size ls p =
    lines_from-concat_lines (length (concat_lines ls)) (size - 1) ls p (omega arith)

pub c_string-line : (s : List ℕ) → is_plain s ≡ true → c_string (line s) ≡ line s
unfolding c_string
c_string-line [] p = refl
c_string-line (c ∷ s) p =
    let plain : (c == 0) ≡ false = ground arith in rw (plain, c_string-line s (ground arith)) refl

module _ (e : ℕ) (h : is_space e ≡ true) where
  span_word-word :
      (n : ℕ) (s t : List ℕ)
      → no_space s ≡ true
      → length s ≤ n
      → span_word n (s ++ e ∷ t) ≡ (s, e ∷ t)
  unfolding span_word
  span_word-word zero [] t p k = refl
  span_word-word zero (c ∷ s) t p k = absurd (omega arith)
  span_word-word (suc n) [] t p k = rw h refl
  span_word-word (suc n) (c ∷ s) t p k =
      let rest = span_word-word n s t (ground arith) (omega arith) in
      let word : is_space c ≡ false = ground arith in rw (word, rest) refl

  -- A word and the space after it are read as the word.
  pub scan_word-word :
      (n : ℕ) (s t : List ℕ)
      → is_word s ≡ true
      → length s ≤ n
      → scan_word n (s ++ e ∷ t) ≡ some (s, e ∷ t)
  unfolding scan_word skip_space
  scan_word-word n [] t p k = absurd (false≢true p)
  scan_word-word n (c ∷ s) t p k =
      let word : is_space c ≡ false = ground arith in rw (word, span_word-word n (c ∷ s) t p k) refl

pub scan_word-space : (n : ℕ) (s : List ℕ) → scan_word n (32 ∷ s) ≡ scan_word n s
unfolding scan_word skip_space
scan_word-space n s = refl
