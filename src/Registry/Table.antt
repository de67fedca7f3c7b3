-- ===== src/Registry/Table.antt =====
-- preferences_store.inc: the table in memory. `pref_count` is the length of the table; an argument
-- of type `Alloc` says which of an operation's allocations succeed.
pub mod Distinct
pub mod Laws
pub mod Methods
use zombie_shooter_ps_vita_p.Prelude.{
  ℕ, zero, suc, ◌+◌, ◌-◌, ◌*◌, ◌^◌, Bool, true, false, not, ◌&&◌, ◌||◌, Option, none, some, List,
  [], ◌∷◌, ◌++◌, length, set, take, ltb, leb, ◌==◌, if◌then◌else◌, str_eq,
}
use mathlib.Core.Option

-- A C string, without its NUL.
abbrev pub Str : Type 0
Str = List ℕ

pub record PrefEntry : Type 0 where
  pub key : Str
  pub value : Str

pub record Prefs : Type 0 where
  pub entries : List PrefEntry
  pub capacity : ℕ
  pub loaded : Bool
  pub dirty : Bool

pub record Alloc : Type 0 where
  pub value_copy : Bool
  pub key_copy : Bool
  pub table : Bool

abbrev pub max_key : ℕ
max_key = 120

abbrev pub max_value : ℕ
max_value = 2 ^ 20

abbrev pub max_count : ℕ
max_count = 4096

-- The loop of pref_find from entry `i` on; `none` is -1.
unfoldable pub find_from : ℕ → Str → List PrefEntry → Option ℕ
find_from i k [] = none
find_from i k (e ∷ es) = if str_eq e.key k then some i else find_from (suc i) k es

unfoldable pub pref_find : Str → Prefs → Option ℕ
unfolding find_from
pref_find k s = find_from 0 k s.entries

unfoldable pub pref_grow : Bool → Prefs → Prefs × Bool
pref_grow ok s =
    if ltb (length s.entries) s.capacity
    then (s, true)
    else if ok
    then (record s { capacity = (if s.capacity == 0 then 32 else s.capacity * 2) }, true)
    else (s, false)

-- `pref_entries[x].value = v`
unfoldable pub set_value : List PrefEntry → ℕ → Str → List PrefEntry
set_value [] x v = []
set_value (e ∷ es) zero v = record e { value = v } ∷ es
set_value (e ∷ es) (suc x) v = e ∷ set_value es x v

unfoldable pub append_entry : Str → Str → Prefs → Prefs
append_entry k v s = record s {
  entries = s.entries ++ record { key = k; value = v } ∷ [];
  dirty = true;
}

unfoldable pub replace_value : ℕ → Str → Prefs → Prefs
replace_value x v s = record s { entries = set_value s.entries x v; dirty = true }

-- The last lines of pref_set: the table is full, or grows and takes the entry.
unfoldable pub add_entry : Alloc → Str → Str → Prefs → Prefs × Bool
add_entry ok k v s =
    if not ok.key_copy || leb max_count (length s.entries)
    then (s, false)
    else (let (s', grown) = pref_grow ok.table s in
        if grown then (append_entry k v s', true) else (s', false))

-- pref_set, once pref_find has answered.
unfoldable pub store_value : Alloc → Str → Str → Prefs → Option ℕ → Prefs × Bool
store_value ok k v s (some x) = (replace_value x v s, true)
store_value ok k v s none = add_entry ok k v s

unfoldable pub is_storable : Str → Str → Bool
is_storable k v = ltb 0 (length k) && leb (length k) max_key && leb (length v) max_value

unfoldable pub pref_set : Alloc → Str → Str → Prefs → Prefs × Bool
pref_set ok k v s =
    if not (is_storable k v) || not ok.value_copy
    then (s, false)
    else store_value ok k v s (pref_find k s)

last_entry : PrefEntry → List PrefEntry → PrefEntry
last_entry d [] = d
last_entry d (e ∷ es) = last_entry e es

-- `pref_entries[x] = pref_entries[--pref_count]`
unfoldable pub swap_remove : List PrefEntry → ℕ → List PrefEntry
unfolding last_entry
swap_remove [] x = []
swap_remove (e ∷ es) x = take (length es) (set (e ∷ es) x (last_entry e es))

unfoldable pub pref_remove_key : Str → Prefs → Prefs × Bool
unfolding pref_find swap_remove
pref_remove_key k s = elim (pref_find k s) [
  | some x ↦ (record s { entries = swap_remove s.entries x; dirty = true }, true)
  | none ↦ (s, false)
]

unfoldable pub pref_free_all : Prefs → Prefs
pref_free_all s = record s { entries = []; capacity = 0 }

unfoldable pub value_at : List PrefEntry → Option ℕ → Option Str
value_at [] x = none
value_at (e ∷ es) none = none
value_at (e ∷ es) (some zero) = some e.value
value_at (e ∷ es) (some (suc x)) = value_at es (some x)

-- What a read returns: pref_find, then `pref_entries[x].value`.
unfoldable pub pref_value : Str → Prefs → Option Str
unfolding pref_find value_at
pref_value k s = value_at s.entries (pref_find k s)

-- `pref_entries[x]`
unfoldable pub entry_at : List PrefEntry → Option ℕ → Option PrefEntry
entry_at [] x = none
entry_at (e ∷ es) none = none
entry_at (e ∷ es) (some zero) = some e
entry_at (e ∷ es) (some (suc x)) = entry_at es (some x)
