-- ===== src/Registry/FileName/RoundTrip.antt =====
-- A key survives the way into a file name and back.
use zombie_shooter_ps_vita_p.Prelude.{
  ℕ, ◌-◌, ◌*◌, ◌/◌, ◌%◌, ◌≤◌, ◌<◌, ◌≡◌, refl, sym, ◌∙◌, ap, true, false, none, some, [], ◌∷◌, ◌++◌,
  length, take, drop, arith, str_eq, str_eq_refl, length-append,
}
use zombie_shooter_ps_vita_p.Registry.Table.{Str, max_key}
use zombie_shooter_ps_vita_p.Registry.FileName.{
  dat, tmp, bak, hex_digit, hex_bytes, pref_path_for_key, pref_hex_value, is_hex, all_hex,
  pref_hex_basename, hex_nibble, bytes_of_hex, has_nul, strip_suffix, decode_basename,
  pref_key_from_filename, is_generated, pref_generated_filename,
}

-- A C string: bytes, none of them zero.
abbrev pub IsCString : Str → Type 0
IsCString [] = Unit {0}
IsCString (c ∷ s) = (0 < c) × (c < 256) × IsCString s

digit_value : (d : ℕ) → d < 16 → pref_hex_value (hex_digit d) ≡ some d
unfolding pref_hex_value hex_digit
digit_value d h = ground arith

is_hex-digit : (d : ℕ) → d < 16 → is_hex (hex_digit d) ≡ true
unfolding is_hex
is_hex-digit d h = rw (digit_value d h, is_hex)

nibble-digit : (d : ℕ) → d < 16 → hex_nibble (hex_digit d) ≡ d
unfolding hex_nibble
nibble-digit d h = rw (digit_value d h, hex_nibble)

pub length-hex_bytes : (k : Str) → length (hex_bytes k) ≡ length k * 2
unfolding hex_bytes
length-hex_bytes [] = refl
length-hex_bytes (c ∷ k) = omega (arith, length-hex_bytes k)

all_hex-hex_bytes : (k : Str) → IsCString k → all_hex (hex_bytes k) ≡ true
unfolding all_hex hex_bytes
all_hex-hex_bytes [] h = refl
all_hex-hex_bytes (c ∷ k) h = rw (
  is_hex-digit (c / 16) (omega arith),
  is_hex-digit (c % 16) (omega arith),
  all_hex-hex_bytes k h.2,
)

pub bytes_of_hex-hex_bytes : (k : Str) → IsCString k → bytes_of_hex (hex_bytes k) ≡ k
unfolding bytes_of_hex hex_bytes
bytes_of_hex-hex_bytes [] h = refl
bytes_of_hex-hex_bytes (c ∷ k) h =
    rw
      (
        nibble-digit (c / 16) (omega arith),
        nibble-digit (c % 16) (omega arith),
        bytes_of_hex-hex_bytes k h.2,
      )
      (ap (λ (t : ℕ). t ∷ k) (omega arith))

no_nul : (k : Str) → IsCString k → has_nul k ≡ false
unfolding has_nul
no_nul [] h = refl
no_nul (c ∷ k) h = ground (arith, no_nul k h.2)

drop-append : (xs ys : Str) → drop (length xs) (xs ++ ys) ≡ ys
drop-append [] ys = refl
drop-append (x ∷ xs) ys = drop-append xs ys

take-append : (xs ys : Str) → take (length xs) (xs ++ ys) ≡ xs
take-append [] ys = refl
take-append (x ∷ xs) ys = ap (◌∷◌ x) (take-append xs ys)

split_point : (s suffix : Str) → length (s ++ suffix) - length suffix ≡ length s
split_point s suffix = omega (arith, length-append s suffix)

pub strip-append : (s suffix : Str) → 0 < length s → strip_suffix suffix (s ++ suffix) ≡ some s
unfolding strip_suffix
strip-append s suffix h =
    rw (split_point s suffix, drop-append s suffix, take-append s suffix, str_eq_refl suffix)
      (ground (arith, length-append s suffix))

-- A name with one of the other extensions of the same length.
pub strip_other :
    (s suffix other : Str)
    → length suffix ≡ length other
    → str_eq other suffix ≡ false
    → strip_suffix suffix (s ++ other) ≡ none
unfolding strip_suffix
strip_other s suffix other e h = rw (e, split_point s other, drop-append s other, h) (ground arith)

hex_basename :
    (k : Str)
    → IsCString k
    → 1 ≤ length k
    → length k ≤ max_key
    → pref_hex_basename (hex_bytes k) ≡ true
unfolding pref_hex_basename
hex_basename k h lo hi = rw (all_hex-hex_bytes k h, length-hex_bytes k) (ground arith)

module _ (k : Str) (h : IsCString k) (lo : 1 ≤ length k) (hi : length k ≤ max_key) where
  basename_long : 0 < length (hex_bytes k)
  basename_long = omega (arith, length-hex_bytes k)

  generated_at : (suffix : Str) → is_generated (strip_suffix suffix (hex_bytes k ++ suffix)) ≡ true
  unfolding is_generated
  generated_at suffix =
      rw (strip-append (hex_bytes k) suffix basename_long, is_generated) (hex_basename k h lo hi)

  decoded : pref_key_from_filename true (hex_bytes k ++ dat) ≡ some k
  unfolding pref_key_from_filename decode_basename
  decoded = rw (
    strip-append (hex_bytes k) dat basename_long,
    decode_basename,
    hex_basename k h lo hi,
    bytes_of_hex-hex_bytes k h,
    no_nul k h,
  )

  not_decoded :
      (other : Str)
      → length dat ≡ length other
      → str_eq other dat ≡ false
      → pref_key_from_filename true (hex_bytes k ++ other) ≡ none
  unfolding pref_key_from_filename decode_basename
  not_decoded other e ne = rw (strip_other (hex_bytes k) dat other e ne, decode_basename)

  -- The name of a key's data file decodes to the key, and those of its temporary and its backup
  -- file decode to no key; all three count as generated names.
  pub pref_key_from_filename-hex_bytes :
      (pref_key_from_filename true (hex_bytes k ++ dat) ≡ some k)
      × (pref_key_from_filename true (hex_bytes k ++ tmp) ≡ none)
      × (pref_key_from_filename true (hex_bytes k ++ bak) ≡ none)
      × (pref_generated_filename (hex_bytes k ++ dat) ≡ true)
      × (pref_generated_filename (hex_bytes k ++ tmp) ≡ true)
      × (pref_generated_filename (hex_bytes k ++ bak) ≡ true)
  unfolding pref_generated_filename str_eq
  pref_key_from_filename-hex_bytes = (
    decoded,
    not_decoded tmp refl refl,
    not_decoded bak refl refl,
    ground (arith, generated_at dat),
    ground (arith, generated_at tmp),
    ground (arith, generated_at bak),
  )

-- What stands between the directory's slash and the extension, read back as a key.
key_of_path : Str → Str → Str → Str
key_of_path dir suffix path =
    let name = drop 1 (drop (length dir) path) in
    bytes_of_hex (take (length name - length suffix) name)

key_of_path_lem :
    (dir suffix k : Str)
    → IsCString k
    → key_of_path dir suffix (dir ++ b'/' ∷ (hex_bytes k ++ suffix)) ≡ k
unfolding key_of_path
key_of_path_lem dir suffix k h = rw (
  drop-append dir (b'/' ∷ (hex_bytes k ++ suffix)),
  split_point (hex_bytes k) suffix,
  take-append (hex_bytes k) suffix,
  bytes_of_hex-hex_bytes k h,
)

pub path_shape :
    (dir : Str) (cap : ℕ) (k suffix : Str) {path : Str}
    → pref_path_for_key dir cap k suffix ≡ some path
    → path ≡ dir ++ b'/' ∷ (hex_bytes k ++ suffix)
unfolding pref_path_for_key
path_shape dir cap k suffix p = ground arith

-- Different keys have different files: a path gives its key back, whatever the extension.
pub pref_path_for_key-injective :
    (dir : Str) (cap : ℕ) (k j suffix path : Str)
    → IsCString k
    → IsCString j
    → pref_path_for_key dir cap k suffix ≡ some path
    → pref_path_for_key dir cap j suffix ≡ some path
    → k ≡ j
pref_path_for_key-injective dir cap k j suffix path hk hj p q =
    sym (key_of_path_lem dir suffix k hk)
    ∙ ap (key_of_path dir suffix)
        (sym (path_shape dir cap k suffix p) ∙ path_shape dir cap j suffix q)
    ∙ key_of_path_lem dir suffix j hj
