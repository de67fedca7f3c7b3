-- ===== src/Errno/Methods.antt =====
-- What the game reads for an error and its text, and what its writes do to the table.
use zombie_shooter_ps_vita_p.Prelude.{
  ℕ, zero, suc, ◌<◌, ◌≤◌, ◌≡◌, ◌≢◌, refl, sym, ap, ◌∙◌, Bool, true, false, none, List, [], ◌∷◌,
  ◌++◌, map, arith, length, length-append, get_or, take, ◌==◌, ◌||◌, ◌&&◌, not, Bool-cases, inl,
  inr,
}
use zombie_shooter_ps_vita_p.Errno.{
  Errno, ErrnoRow, errno_translation, no_row, find_newlib, errno_soloader, read_errno, set_bionic,
  write_errno, find_text, or_success, strerror_soloader, last_text, strlcpy_bytes,
  strerror_r_soloader,
}
use zombie_shooter_ps_vita_p.Errno.Android.{android, row_of}
use zombie_shooter_ps_vita_p.Errno.Table.{eperm, enotsup, eopnotsupp}
use zombie_shooter_ps_vita_p.Errno.Lookup.{
  contains, distinct, is_single, find_newlib-at, find_newlib-set_bionic, find_newlib-absent,
  find_newlib_small, set_bionic_self, set_bionic_other, last_text-find_text,
}

read_errno-row :
    (rows : List ErrnoRow) (i : ℕ)
    → distinct (map (λ r. r.errno_newlib) rows) ≡ true
    → i < length rows
    → read_errno (get_or rows i no_row).errno_newlib rows ≡ (get_or rows i no_row).errno_bionic
unfolding read_errno errno_soloader
read_errno-row rows i d lt =
    ap (λ (j : ℕ). (get_or rows j no_row).errno_bionic)
      (find_newlib-at (get_or rows i no_row).errno_newlib rows i 0 d lt refl ∙ omega arith)

module _ (newlib : Errno → ℕ) where
  row_of-small : (e : Errno) → row_of e < length (errno_translation newlib)
  row_of-small eperm = omega arith
  row_of-small e = omega arith

  row_of-newlib :
      (e : Errno) → (get_or (errno_translation newlib) (row_of e) no_row).errno_newlib ≡ newlib e
  row_of-newlib eperm = refl
  row_of-newlib e = refl

  row_of-android :
      (e : Errno) → (get_or (errno_translation newlib) (row_of e) no_row).errno_bionic ≡ android e
  row_of-android eperm = refl
  row_of-android e = refl

  -- ENOTSUP has the number of EOPNOTSUPP, whose row stands first.
  abbrev pub shown : Errno → Errno
  shown enotsup = eopnotsupp
  shown e = e

  strerror_soloader-android :
      (e : Errno)
      → strerror_soloader (android e) (errno_translation newlib)
        ≡ (get_or (errno_translation newlib) (row_of (shown e)) no_row).strerror
  unfolding strerror_soloader find_text
  strerror_soloader-android eperm = refl
  strerror_soloader-android e = refl

  -- As long as the game has written nothing through its pointer, each error that the table has
  -- reaches the game as the number that Linux has for it, and the text that the game gets for that
  -- number is the one beside the error, except that ENOTSUP has the text of EOPNOTSUPP. The numbers
  -- of newlib are assumed to be distinct and not 0.
  pub strerror_soloader-read_errno :
      (e : Errno)
      → distinct (map (λ r. r.errno_newlib) (errno_translation newlib)) ≡ true
      → (read_errno (newlib e) (errno_translation newlib) ≡ android e)
        × (strerror_soloader (android e) (errno_translation newlib)
            ≡ (get_or (errno_translation newlib) (row_of (shown e)) no_row).strerror)
  strerror_soloader-read_errno e d =
      let rows = errno_translation newlib in
      (
        ap (λ (n : ℕ). read_errno n rows) (sym (row_of-newlib e))
            ∙ read_errno-row rows (row_of e) d (row_of-small e)
            ∙ row_of-android e,
        strerror_soloader-android e,
      )

-- An error that the table does not have reads as the number of the first row, which is 0 until the
-- game writes there.
read_errno-absent :
    (e : ℕ) (rows : List ErrnoRow)
    → contains e (map (λ r. r.errno_newlib) rows) ≡ false
    → read_errno e rows ≡ (get_or rows 0 no_row).errno_bionic
unfolding read_errno errno_soloader
read_errno-absent e rows h =
    ap (λ (j : ℕ). (get_or rows j no_row).errno_bionic) (find_newlib-absent e rows 0 h)

found_small : (e : ℕ) (rows : List ErrnoRow) → 1 ≤ length rows → errno_soloader e rows < length rows
unfolding errno_soloader
found_small e rows some_rows = ground (arith, find_newlib_small e rows 0)

-- What the game writes through the pointer stays in the table: while the same error is set, and
-- whenever it occurs again, the game reads what it wrote and not the number of the error. Errors
-- with other rows read as before.
pub read_errno-write_errno :
    (e v : ℕ) (rows : List ErrnoRow)
    → 1 ≤ length rows
    → (read_errno e (write_errno e v rows) ≡ v)
      × ((f : ℕ)
          → errno_soloader f rows ≢ errno_soloader e rows
          → read_errno f (write_errno e v rows) ≡ read_errno f rows)
unfolding read_errno write_errno errno_soloader
read_errno-write_errno e v rows some_rows =
    let i = find_newlib 0 e rows in
    (
      ap (λ (j : ℕ). (get_or (set_bionic i v rows) j no_row).errno_bionic)
            (find_newlib-set_bionic e rows i 0 v)
          ∙ set_bionic_self rows i v (found_small e rows some_rows),
      λ f ne.
          ap (λ (j : ℕ). (get_or (set_bionic i v rows) j no_row).errno_bionic)
            (find_newlib-set_bionic f rows i 0 v)
          ∙ ap (λ (r : ErrnoRow). r.errno_bionic)
              (set_bionic_other rows i (find_newlib 0 f rows) v (λ k. ne (sym k))),
    )

take_all : (n : ℕ) (s : List ℕ) → length s ≤ n → take n s ≡ s
take_all zero [] h = refl
take_all zero (x ∷ s) h = absurd (omega arith)
take_all (suc n) [] h = refl
take_all (suc n) (x ∷ s) h = ap (◌∷◌ x) (take_all n s (omega arith))

length-take : (n : ℕ) (s : List ℕ) → n ≤ length s → length (take n s) ≡ n
length-take zero s h = refl
length-take (suc n) [] h = absurd (omega arith)
length-take (suc n) (x ∷ s) h = ap suc (length-take n s (omega arith))

strlcpy_fits : (n : ℕ) (s : List ℕ) → length s < n → strlcpy_bytes n s ≡ s ++ 0 ∷ []
unfolding strlcpy_bytes
strlcpy_fits zero s h = absurd (omega arith)
strlcpy_fits (suc n) s h = ap (λ (t : List ℕ). t ++ 0 ∷ []) (take_all n s (omega arith))

length-strlcpy_bytes : (n : ℕ) (s : List ℕ) → n ≤ length s → length (strlcpy_bytes n s) ≡ n
unfolding strlcpy_bytes
length-strlcpy_bytes zero s h = refl
length-strlcpy_bytes (suc n) s h =
    length-append (take n s) (0 ∷ []) ∙ omega (arith, length-take n s (omega arith))

-- Also after the game has written to the table, for a number that no two rows have:
-- strerror_r_soloader returns 0 where the text of strerror_soloader has room in the buffer with its
-- NUL, which then holds both, and else ERANGE, with no byte beyond the buffer written.
pub strerror_r_soloader-strerror_soloader :
    (n buf_len : ℕ) (rows : List ErrnoRow)
    → is_single n (map (λ r. r.errno_bionic) rows) ≡ true
    → (length (strerror_soloader n rows) < buf_len
        → strerror_r_soloader n buf_len rows ≡ (strerror_soloader n rows ++ 0 ∷ [], 0))
      × (buf_len ≤ length (strerror_soloader n rows)
          → ((strerror_r_soloader n buf_len rows).1 ≡ 34)
            × (length (strerror_r_soloader n buf_len rows).0 ≡ buf_len))
unfolding strerror_r_soloader strerror_soloader
strerror_r_soloader-strerror_soloader n buf_len rows single =
    let s = or_success rows (find_text n rows) in
    let same : or_success rows (last_text n rows none) ≡ s =
      ap (or_success rows) (last_text-find_text n rows single) in
    rw same (
      (λ h. rw (strlcpy_fits buf_len s h) (ap (λ (c : ℕ). (s ++ 0 ∷ [], c)) (ground arith))),
      λ h. (ground arith, length-strlcpy_bytes buf_len s h),
    )

-- In the table as it starts no number but 95 stands twice.
abbrev distinct_but_95 : List ℕ → Bool
distinct_but_95 [] = true
distinct_but_95 (x ∷ xs) = (x == 95 || not (contains x xs)) && distinct_but_95 xs

single_of : (n : ℕ) (xs : List ℕ) → n ≢ 95 → distinct_but_95 xs ≡ true → is_single n xs ≡ true
single_of n [] ne d = refl
single_of n (x ∷ xs) ne d = elim (Bool-cases (n == x)) [
  | inl same ↦
      let this : n ≡ x = ground arith in
      rw same (rw this (let far : x ≢ 95 = λ k. ne (this ∙ k) in ground arith))
  | inr other ↦ rw other (single_of n xs ne (ground arith))
]

single_but_95 :
    (newlib : Errno → ℕ) (n : ℕ)
    → n ≢ 95
    → is_single n (map (λ r. r.errno_bionic) (errno_translation newlib)) ≡ true
single_but_95 newlib n ne =
    single_of n (map (λ r. r.errno_bionic) (errno_translation newlib)) ne refl
