-- ===== src/AssetIndex/Names.antt =====
-- utils/asset_index.c: the hash of a name, the hashes of a directory as they are read and sorted,
-- and the binary search in them.
use zombie_shooter_ps_vita_p.Prelude.{
  ℕ, zero, suc, ◌+◌, ◌-◌, ◌*◌, ◌/◌, bit_xor, Bool, not, ◌&&◌, ◌||◌, Option, none, some, List, [],
  ◌∷◌, ◌++◌, ◌==◌, if◌then◌else◌, ltb, leb, length, get_or, codes, str_eq, u64,
}

abbrev pub index_max_entries : ℕ
index_max_entries = 8192

unfoldable pub is_upper : ℕ → Bool
is_upper c = leb b'A' c && leb c b'Z'

-- The bytes that a name may have.
unfoldable pub is_leaf : ℕ → Bool
is_leaf c =
    (leb b'a' c && leb c b'z')
    || is_upper c
    || (leb b'0' c && leb c b'9')
    || c == b'_'
    || c == b'-'
    || c == b'.'

unfoldable pub fold_case : ℕ → ℕ
fold_case c = if is_upper c then c + 32 else c

unfoldable pub hash_step : ℕ → ℕ → ℕ
hash_step h c = u64 (bit_xor h (fold_case c) * 1099511628211)

-- The loop of name_hash: n bytes have been read, `last` is the last of them.
unfoldable pub hash_loop : List ℕ → ℕ → ℕ → ℕ → Option ℕ
hash_loop [] n last h = if n == 0 || n == 256 || last == b'.' then none else some h
hash_loop (c ∷ cs) n last h =
    let rest = hash_loop cs (n + 1) c (hash_step h c) in
    if n == 256 then none else if is_leaf c then rest else none

unfoldable pub name_hash : List ℕ → Option ℕ
name_hash name = hash_loop name 0 0 14695981039346656037

-- qsort by compare_hash.
unfoldable pub insert_hash : ℕ → List ℕ → List ℕ
insert_hash h [] = h ∷ []
insert_hash h (x ∷ xs) = if leb h x then h ∷ x ∷ xs else x ∷ insert_hash h xs

unfoldable pub sort_hashes : List ℕ → List ℕ
sort_hashes [] = []
sort_hashes (h ∷ hs) = insert_hash h (sort_hashes hs)

-- The capacity for one more hash, or none; `grows` is realloc.
unfoldable pub room_for : (ℕ → Bool) → ℕ → ℕ → Option ℕ
room_for grows count capacity =
    let next = if capacity == 0 then 64 else capacity * 2 in
    if count == capacity then (if grows next then some next else none) else some capacity

unfoldable pub push_hash : ℕ → List ℕ → Option ℕ → Option (List ℕ × ℕ)
push_hash h hashes none = none
push_hash h hashes (some capacity) = some (hashes ++ h ∷ [], capacity)

unfoldable pub store_hash : (ℕ → Bool) → Option ℕ → List ℕ × ℕ → Option (List ℕ × ℕ)
store_hash grows none s = none
store_hash grows (some h) (hashes, capacity) =
    if length hashes == index_max_entries
    then none
    else push_hash h hashes (room_for grows (length hashes) capacity)

-- One entry of the loop of build_index.
unfoldable pub read_entry : (ℕ → Bool) → List ℕ → List ℕ × ℕ → Option (List ℕ × ℕ)
read_entry grows name s =
    if str_eq name (codes ".") || str_eq name (codes "..")
    then some s
    else store_hash grows (name_hash name) s

unfoldable pub read_entries : (ℕ → Bool) → List (List ℕ) → List ℕ × ℕ → Option (List ℕ × ℕ)
read_entries grows [] s = some s
read_entries grows (name ∷ names) s = elim (read_entry grows name s) [
  | none ↦ none
  | some t ↦ read_entries grows names t
]

-- The loop of the binary search, from fuel of at least hi - lo.
unfoldable pub lower_bound : ℕ → List ℕ → ℕ → ℕ → ℕ → ℕ
lower_bound zero hashes hash lo hi = lo
lower_bound (suc f) hashes hash lo hi =
    let mid = lo + (hi - lo) / 2 in
    let right_half = lower_bound f hashes hash (mid + 1) hi in
    let left_half = lower_bound f hashes hash lo mid in
    if ltb lo hi then (if ltb (get_or hashes mid 0) hash then right_half else left_half) else lo

unfoldable pub is_absent : List ℕ → ℕ → Bool
is_absent hashes hash =
    let lo = lower_bound (length hashes) hashes hash 0 (length hashes) in
    lo == length hashes || not (get_or hashes lo 0 == hash)

-- What follows the prefix, where the name starts with it: strncmp.
unfoldable pub strip_prefix : List ℕ → List ℕ → Option (List ℕ)
strip_prefix [] name = some name
strip_prefix (c ∷ cs) [] = none
strip_prefix (c ∷ cs) (b ∷ bs) = if c == b then strip_prefix cs bs else none

abbrev pub hash_after : Option (List ℕ) → Option ℕ
hash_after none = none
hash_after (some rest) = name_hash rest
