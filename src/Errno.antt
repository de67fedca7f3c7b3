-- ===== src/Errno.antt =====
-- reimpl/errno.c: newlib's error numbers as Android's, and their texts. The function that the game
-- calls gives out a pointer into the table, so the table is state, and a pointer is the number of a
-- row.
mod Bionic
mod Table
pub mod Android
pub mod Lookup
pub mod Methods
mod Tests
use zombie_shooter_ps_vita_p.Prelude.{
  ℕ, zero, suc, ◌-◌, ◌∷◌, ◌++◌, Option, none, some, List, [], length, get_or, take, leb, ◌==◌,
  if◌then◌else◌,
}
pub use Bionic.{ErrnoBionic, bionic, erange_bionic}
pub use Table.{Errno, ErrnoRow, errno_translation}

abbrev pub no_row : ErrnoRow
no_row = record { errno_newlib = 0; errno_bionic = 0; strerror = [] }

-- The loop of __errno_soloader from row `i` on.
unfoldable pub find_newlib : ℕ → ℕ → List ErrnoRow → ℕ
find_newlib i e [] = 0
find_newlib i e (r ∷ rs) = if e == r.errno_newlib then i else find_newlib (suc i) e rs

-- The row whose `errno_bionic` the game gets to read and to write, while `errno` is `e`.
unfoldable pub errno_soloader : ℕ → List ErrnoRow → ℕ
errno_soloader e rows = find_newlib 0 e rows

-- The game reads through the pointer, and writes through it.
unfoldable pub read_errno : ℕ → List ErrnoRow → ℕ
read_errno e rows = (get_or rows (errno_soloader e rows) no_row).errno_bionic

unfoldable pub set_bionic : ℕ → ℕ → List ErrnoRow → List ErrnoRow
set_bionic i v [] = []
set_bionic zero v (r ∷ rs) = record r { errno_bionic = v } ∷ rs
set_bionic (suc i) v (r ∷ rs) = r ∷ set_bionic i v rs

unfoldable pub write_errno : ℕ → ℕ → List ErrnoRow → List ErrnoRow
write_errno e v rows = set_bionic (errno_soloader e rows) v rows

unfoldable pub success_text : List ErrnoRow → List ℕ
success_text rows = (get_or rows 0 no_row).strerror

-- The loop of strerror_soloader, which stops at the first row.
unfoldable pub find_text : ℕ → List ErrnoRow → Option (List ℕ)
find_text n [] = none
find_text n (r ∷ rs) = if n == r.errno_bionic then some r.strerror else find_text n rs

abbrev pub or_success : List ErrnoRow → Option (List ℕ) → List ℕ
or_success rows none = success_text rows
or_success rows (some s) = s

unfoldable pub strerror_soloader : ℕ → List ErrnoRow → List ℕ
strerror_soloader n rows = or_success rows (find_text n rows)

-- The loop of strerror_r_soloader, which goes on to the last row.
unfoldable pub last_text : ℕ → List ErrnoRow → Option (List ℕ) → Option (List ℕ)
last_text n [] err = err
last_text n (r ∷ rs) err = last_text n rs (if n == r.errno_bionic then some r.strerror else err)

-- What strlcpy writes to the buffer: as much of the text as there is room for, and a NUL.
unfoldable pub strlcpy_bytes : ℕ → List ℕ → List ℕ
strlcpy_bytes zero s = []
strlcpy_bytes (suc n) s = take n s ++ 0 ∷ []

-- The bytes written to the buffer, and the result.
unfoldable pub strerror_r_soloader : ℕ → ℕ → List ErrnoRow → List ℕ × ℕ
strerror_r_soloader n buf_len rows =
    let err = or_success rows (last_text n rows none) in
    (strlcpy_bytes buf_len err, if leb buf_len (length err) then bionic erange_bionic else 0)
