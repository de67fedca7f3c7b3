-- ===== src/Prelude/Text.antt =====
-- What the configuration files are read and written with: fgets, sscanf with %s and %d, and the %d
-- of fprintf.
pub mod Lines
pub mod Numbers
use Prim.Native.Nat.{ℕ, zero, suc, ◌+◌, ◌-◌, ◌*◌, ◌/◌, ◌%◌, ◌^◌}
use mathlib.Core.Bool.{Bool, true, false, not, ◌&&◌, ◌||◌}
use mathlib.Core.List.{List, [], ◌∷◌, ◌++◌}
use mathlib.Core.Option.{Option, none, some}
use mathlib.Core.Option
use zombie_shooter_ps_vita_p.Prelude.Int.{ℤ, pos, negsuc}
use zombie_shooter_ps_vita_p.Prelude.Lists.{length}
use zombie_shooter_ps_vita_p.Prelude.Tests.{ltb, leb, ◌==◌, if◌then◌else◌}

abbrev pub is_space : ℕ → Bool
is_space c = c == 32 || leb 9 c && leb c 13

abbrev pub is_digit : ℕ → Bool
is_digit c = leb 48 c && leb c 57

-- At most `n` bytes, to the end of the line.
unfoldable pub take_line : ℕ → List ℕ → List ℕ × List ℕ
take_line zero s = ([], s)
take_line (suc n) [] = ([], [])
take_line (suc n) (c ∷ s) =
    let (line, rest) = take_line n s in if c == 10 then (c ∷ [], s) else (c ∷ line, rest)

-- The lines that fgets gives with a buffer of `n + 1` bytes, until the end of the file.
unfoldable pub lines_from : ℕ → ℕ → List ℕ → List (List ℕ)
lines_from zero n s = []
lines_from (suc fuel) n [] = []
lines_from (suc fuel) n (c ∷ s) =
    let (line, rest) = take_line n (c ∷ s) in line ∷ lines_from fuel n rest

unfoldable pub fgets_lines : ℕ → List ℕ → List (List ℕ)
fgets_lines size s = lines_from (length s) (size - 1) s

-- What is in front of the first NUL.
unfoldable pub c_string : List ℕ → List ℕ
c_string [] = []
c_string (c ∷ s) = if c == 0 then [] else c ∷ c_string s

unfoldable pub skip_space : List ℕ → List ℕ
skip_space [] = []
skip_space (c ∷ s) = if is_space c then skip_space s else c ∷ s

-- At most `n` bytes that are no spaces, and what follows them.
unfoldable pub span_word : ℕ → List ℕ → List ℕ × List ℕ
span_word zero s = ([], s)
span_word (suc n) [] = ([], [])
span_word (suc n) (c ∷ s) =
    let (word, rest) = span_word n s in if is_space c then ([], c ∷ s) else (c ∷ word, rest)

abbrev pub some_word : List ℕ × List ℕ → Option (List ℕ × List ℕ)
some_word ([], rest) = none
some_word (c ∷ word, rest) = some (c ∷ word, rest)

-- %s with a width.
unfoldable pub scan_word : ℕ → List ℕ → Option (List ℕ × List ℕ)
scan_word width s = some_word (span_word width (skip_space s))

-- The number that digits add to `n`.
unfoldable pub read_digits : ℕ → List ℕ → ℕ
read_digits n [] = n
read_digits n (c ∷ s) = if is_digit c then read_digits (n * 10 + (c - 48)) s else n

abbrev pub at_digit : List ℕ → Bool
at_digit [] = false
at_digit (c ∷ s) = is_digit c

-- Digits with their sign; what does not fit in an `int` stops at its bounds.
abbrev pub to_positive : List ℕ → Option ℤ
to_positive s =
    let n = read_digits 0 s in
    if at_digit s then some (pos (if ltb n (2 ^ 31) then n else 2 ^ 31 - 1)) else none

abbrev pub to_negative : List ℕ → Option ℤ
to_negative s =
    let n = read_digits 0 s in
    if not (at_digit s)
    then none
    else if n == 0
    then some (pos 0)
    else some (negsuc (if leb n (2 ^ 31) then n - 1 else 2 ^ 31 - 1))

unfoldable pub signed_digits : List ℕ → Option ℤ
signed_digits [] = none
signed_digits (c ∷ s) =
    if c == 45 then to_negative s else if c == 43 then to_positive s else to_positive (c ∷ s)

-- %d
unfoldable pub scan_int : List ℕ → Option ℤ
scan_int s = signed_digits (skip_space s)

-- The last `fuel` decimal digits of a number, without leading zeros.
unfoldable pub digits : ℕ → ℕ → List ℕ
digits zero n = []
digits (suc fuel) n =
    let front = digits fuel (n / 10) in
    if ltb n 10 then (48 + n) ∷ [] else front ++ (48 + n % 10) ∷ []

-- %d of fprintf; an `int` has at most ten digits.
unfoldable pub print_int : ℤ → List ℕ
print_int (pos n) = digits 10 n
print_int (negsuc n) = 45 ∷ digits 10 (n + 1)
