-- ===== src/Errno/Lookup.antt =====
-- Searches in the table of error numbers.
use zombie_shooter_ps_vita_p.Prelude.{
  ℕ, zero, suc, ◌+◌, ◌<◌, ◌≡◌, ◌≢◌, refl, ap, ◌∙◌, Bool, true, false, not, ◌&&◌, ◌||◌, Option, none,
  some, List, [], ◌∷◌, map, arith, length, get_or, ◌==◌, if_cases, if◌then◌else◌, Bool-cases, ◌⊎◌,
  inl, inr,
}
use zombie_shooter_ps_vita_p.Errno.{ErrnoRow, no_row, find_newlib, set_bionic, find_text, last_text}

abbrev pub contains : ℕ → List ℕ → Bool
contains n [] = false
contains n (x ∷ xs) = n == x || contains n xs

abbrev pub distinct : List ℕ → Bool
distinct [] = true
distinct (x ∷ xs) = not (contains x xs) && distinct xs

-- The number `n` occurs at most once.
abbrev pub is_single : ℕ → List ℕ → Bool
is_single n [] = true
is_single n (x ∷ xs) = if n == x then not (contains n xs) else is_single n xs

module _ (e : ℕ) where
  absent :
      (rows : List ErrnoRow) (i : ℕ)
      → contains e (map (λ r. r.errno_newlib) rows) ≡ false
      → i < length rows
      → (get_or rows i no_row).errno_newlib ≢ e
  absent [] i h lt k = absurd (omega arith)
  absent (r ∷ rs) zero h lt k = ground arith
  absent (r ∷ rs) (suc i) h lt k = absent rs i (ground arith) (omega arith) k

  pub find_newlib-at :
      (rows : List ErrnoRow) (i j : ℕ)
      → distinct (map (λ r. r.errno_newlib) rows) ≡ true
      → i < length rows
      → (get_or rows i no_row).errno_newlib ≡ e
      → find_newlib j e rows ≡ j + i
  unfolding find_newlib
  find_newlib-at [] i j d lt k = absurd (omega arith)
  find_newlib-at (r ∷ rs) zero j d lt k = ground arith
  find_newlib-at (r ∷ rs) (suc i) j d lt k =
      if_cases (λ (t : ℕ). t ≡ j + suc i) (e == r.errno_newlib)
        (λ same.
          let this : e ≡ r.errno_newlib = ground arith in
          absurd (absent rs i (rw this (ground arith)) (omega arith) k))
        (λ _. find_newlib-at rs i (suc j) (ground arith) (omega arith) k ∙ omega arith)

  pub find_newlib-set_bionic :
      (rows : List ErrnoRow) (i j v : ℕ)
      → find_newlib j e (set_bionic i v rows) ≡ find_newlib j e rows
  unfolding find_newlib set_bionic
  find_newlib-set_bionic [] i j v = refl
  find_newlib-set_bionic (r ∷ rs) zero j v = refl
  find_newlib-set_bionic (r ∷ rs) (suc i) j v =
      ground (arith, find_newlib-set_bionic rs i (suc j) v)

  pub find_newlib-absent :
      (rows : List ErrnoRow) (j : ℕ)
      → contains e (map (λ r. r.errno_newlib) rows) ≡ false
      → find_newlib j e rows ≡ 0
  unfolding find_newlib
  find_newlib-absent [] j h = refl
  find_newlib-absent (r ∷ rs) j h = ground (arith, find_newlib-absent rs (suc j))

  pub find_newlib_small :
      (rows : List ErrnoRow) (j : ℕ)
      → (find_newlib j e rows ≡ 0) ⊎ (find_newlib j e rows < j + length rows)
  unfolding find_newlib
  find_newlib_small [] j = inl refl
  find_newlib_small (r ∷ rs) j = ground (arith, find_newlib_small rs (suc j))

pub set_bionic_self :
    (rows : List ErrnoRow) (i v : ℕ)
    → i < length rows
    → (get_or (set_bionic i v rows) i no_row).errno_bionic ≡ v
unfolding set_bionic
set_bionic_self [] i v lt = absurd (omega arith)
set_bionic_self (r ∷ rs) zero v lt = refl
set_bionic_self (r ∷ rs) (suc i) v lt = set_bionic_self rs i v (omega arith)

pub set_bionic_other :
    (rows : List ErrnoRow) (i j v : ℕ)
    → i ≢ j
    → get_or (set_bionic i v rows) j no_row ≡ get_or rows j no_row
unfolding set_bionic
set_bionic_other [] i j v ne = refl
set_bionic_other (r ∷ rs) zero zero v ne = absurd (ne refl)
set_bionic_other (r ∷ rs) zero (suc j) v ne = refl
set_bionic_other (r ∷ rs) (suc i) zero v ne = refl
set_bionic_other (r ∷ rs) (suc i) (suc j) v ne = set_bionic_other rs i j v (λ k. ne (ap suc k))

last_text-absent :
    (n : ℕ) (rows : List ErrnoRow) (err : Option (List ℕ))
    → contains n (map (λ r. r.errno_bionic) rows) ≡ false
    → last_text n rows err ≡ err
unfolding last_text
last_text-absent n [] err h = refl
last_text-absent n (r ∷ rs) err h = ground (arith, last_text-absent n rs err)

-- Where a number occurs once, the first and the last text for it are the same.
pub last_text-find_text :
    (n : ℕ) (rows : List ErrnoRow)
    → is_single n (map (λ r. r.errno_bionic) rows) ≡ true
    → last_text n rows none ≡ find_text n rows
unfolding last_text find_text
last_text-find_text n [] d = refl
last_text-find_text n (r ∷ rs) d = elim (Bool-cases (n == r.errno_bionic)) [
  | inl same ↦ rw same (last_text-absent n rs (some r.strerror) (ground arith))
  | inr other ↦ rw other (last_text-find_text n rs (ground arith))
]
