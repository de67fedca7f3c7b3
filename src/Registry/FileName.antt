-- ===== src/Registry/FileName.antt =====
-- preferences_store.inc: the file of a key. Its name is the key in hexadecimal and an extension.
pub mod RoundTrip
use zombie_shooter_ps_vita_p.Prelude.{
  ℕ, zero, suc, ◌+◌, ◌-◌, ◌*◌, ◌/◌, ◌%◌, Bool, true, false, not, ◌&&◌, ◌||◌, Option, none, some,
  List, [], ◌∷◌, ◌++◌, length, take, drop, get_or, ltb, leb, ◌==◌, if◌then◌else◌, str_eq,
}
use zombie_shooter_ps_vita_p.Registry.Table.{Str, max_key}

-- `PREFS_EXT`, and the other two extensions.
abbrev pub dat : Str
dat = b'.' ∷ b'd' ∷ b'a' ∷ b't' ∷ []

abbrev pub tmp : Str
tmp = b'.' ∷ b't' ∷ b'm' ∷ b'p' ∷ []

abbrev pub bak : Str
bak = b'.' ∷ b'b' ∷ b'a' ∷ b'k' ∷ []

-- `hex[d]`
unfoldable pub hex_digit : ℕ → ℕ
hex_digit d = if ltb d 10 then b'0' + d else b'a' + (d - 10)

-- The loop over the bytes of the key.
unfoldable pub hex_bytes : Str → Str
unfolding hex_digit
hex_bytes [] = []
hex_bytes (c ∷ k) = hex_digit (c / 16) ∷ hex_digit (c % 16) ∷ hex_bytes k

-- `dir` is PREFS_DIR, and `cap` the size of the caller's buffer.
unfoldable pub pref_path_for_key : Str → ℕ → Str → Str → Option Str
unfolding hex_bytes
pref_path_for_key dir cap k suffix =
    if length k == 0
      || ltb max_key (length k)
      || ltb cap (length dir + 1 + length k * 2 + length suffix + 1)
    then none
    else some (dir ++ b'/' ∷ (hex_bytes k ++ suffix))

-- `none` is -1.
unfoldable pub pref_hex_value : ℕ → Option ℕ
pref_hex_value c =
    if leb b'0' c && leb c b'9'
    then some (c - b'0')
    else if leb b'a' c && leb c b'f'
    then some (c - b'a' + 10)
    else if leb b'A' c && leb c b'F'
    then some (c - b'A' + 10)
    else none

unfoldable pub is_hex : ℕ → Bool
unfolding pref_hex_value
is_hex c = elim (pref_hex_value c) [ some _ ↦ true | none ↦ false ]

unfoldable pub all_hex : Str → Bool
unfolding is_hex
all_hex [] = true
all_hex (c ∷ s) = is_hex c && all_hex s

unfoldable pub pref_hex_basename : Str → Bool
unfolding all_hex
pref_hex_basename s =
    not (length s == 0 || length s % 2 == 1 || ltb max_key (length s / 2)) && all_hex s

unfoldable pub hex_nibble : ℕ → ℕ
unfolding pref_hex_value
hex_nibble c = elim (pref_hex_value c) [ some d ↦ d | none ↦ 0 ]

-- The loop that reads two digits into a byte; its digits were tested before.
unfoldable pub bytes_of_hex : Str → Str
unfolding hex_nibble
bytes_of_hex [] = []
bytes_of_hex (a ∷ []) = []
bytes_of_hex (a ∷ b ∷ s) = (hex_nibble a * 16 + hex_nibble b) ∷ bytes_of_hex s

-- `memchr(k, 0, n)`
unfoldable pub has_nul : Str → Bool
has_nul [] = false
has_nul (c ∷ s) = c == 0 || has_nul s

-- `n > m && !strcmp(name + n - m, suffix)`, and the name before the suffix.
unfoldable pub strip_suffix : Str → Str → Option Str
strip_suffix suffix name =
    if ltb (length suffix) (length name) && str_eq (drop (length name - length suffix) name) suffix
    then some (take (length name - length suffix) name)
    else none

unfoldable pub decode_basename : Option Str → Option Str
decode_basename none = none
decode_basename (some s) =
    if pref_hex_basename s
    then (if has_nul (bytes_of_hex s) then none else some (bytes_of_hex s))
    else none

-- The key of a directory entry; `copied` says whether malloc succeeds.
unfoldable pub pref_key_from_filename : Bool → Str → Option Str
pref_key_from_filename copied name =
    if copied then decode_basename (strip_suffix dat name) else none

unfoldable pub is_generated : Option Str → Bool
is_generated none = false
is_generated (some s) = pref_hex_basename s

unfoldable pub pref_generated_filename : Str → Bool
pref_generated_filename name =
    is_generated (strip_suffix dat name)
    || is_generated (strip_suffix tmp name)
    || is_generated (strip_suffix bak name)
