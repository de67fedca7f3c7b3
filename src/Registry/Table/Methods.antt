-- ===== src/Registry/Table/Methods.antt =====
-- pref_set, pref_remove_key and pref_free_all: the invariant of the table, and what every branch
-- does to later reads.
use zombie_shooter_ps_vita_p.Prelude.{
  ℕ, ◌*◌, ◌≤◌, ◌<◌, ◌≡◌, ◌≢◌, ◌⊎◌, ◌↔◌, refl, Bool, true, false, none, some, [], ◌∷◌, arith, length,
  if◌then◌else◌, str_eq, str_eq→eq, length-append, Option-cases, Bool-cases, inl, inr, ltb, leb,
  not, ◌||◌, ◌==◌,
}
use zombie_shooter_ps_vita_p.Registry.Table.{
  Str, Prefs, Alloc, max_key, max_value, max_count, pref_grow, pref_set, pref_remove_key,
  pref_value, swap_remove, append_entry, replace_value, add_entry, store_value, is_storable,
}
use zombie_shooter_ps_vita_p.Registry.Table.Laws.{
  lookup, position, IsDistinct, pref_find-position, pref_value-lookup, lookup_of_position,
  position_of_lookup, lookup-set_value, lookup-append, lookup-swap_remove,
}
use zombie_shooter_ps_vita_p.Registry.Table.Distinct.{
  InLimits, IsDistinct-set_value, IsDistinct-append, IsDistinct-swap_remove, InLimits-set_value,
  InLimits-append, InLimits-swap_remove, length-set_value, length-swap_remove,
}

pub record IsWellFormed (s : Prefs) : Type 0 where
  pub distinct : IsDistinct s.entries
  pub limits : InLimits s.entries
  pub count : length s.entries ≤ max_count
  pub room : length s.entries ≤ s.capacity

-- The three ways in which pref_set ends.
data SetOutcome (k v : Str) (s : Prefs) (r : Prefs × Bool) : Type 0 where
  refused : r ≡ (s, false) → SetOutcome k v s r
  replaced :
      (x : ℕ)
      → position k s.entries ≡ some x
      → is_storable k v ≡ true
      → r ≡ (replace_value x v s, true)
      → SetOutcome k v s r
  added :
      (capacity : ℕ)
      → position k s.entries ≡ none
      → is_storable k v ≡ true
      → length s.entries < max_count
      → s.capacity ≤ capacity
      → length s.entries < capacity
      → r ≡ (append_entry k v (record s { capacity = capacity }), true)
      → SetOutcome k v s r

pub grow_cases :
    (ok : Bool) (s : Prefs)
    → length s.entries ≤ s.capacity
    → (pref_grow ok s ≡ (s, false))
      ⊎ ((c : ℕ) × (s.capacity ≤ c)
          × (length s.entries < c)
          × (pref_grow ok s ≡ (record s { capacity = c }, true)))
unfolding pref_grow
grow_cases ok s room = elim (Bool-cases (ltb (length s.entries) s.capacity)) [
  | inl free ↦ inr (s.capacity, omega arith, ground arith, rw free refl)
  | inr full ↦ elim (Bool-cases ok) [
    | inl able ↦ inr (
      (if s.capacity == 0 then 32 else s.capacity * 2),
      ground arith,
      ground arith,
      rw (full, able) refl,
    )
    | inr failed ↦ inl (rw (full, failed) refl)
  ]
]

add_outcome :
    (ok : Alloc) (k v : Str) (s : Prefs)
    → position k s.entries ≡ none
    → is_storable k v ≡ true
    → length s.entries ≤ s.capacity
    → SetOutcome k v s (add_entry ok k v s)
unfolding add_entry
add_outcome ok k v s missing fits room =
    elim (Bool-cases (not ok.key_copy || leb max_count (length s.entries))) [
      | inl bad ↦ rw bad (refused refl)
      | inr good ↦ rw good (elim (grow_cases ok.table s room) [
        | inl stuck ↦ rw stuck (refused refl)
        | inr (c, grows, fits', e) ↦ rw e (added c missing fits (ground arith) grows fits' refl)
      ])
    ]

set_outcome :
    (ok : Alloc) (k v : Str) (s : Prefs)
    → length s.entries ≤ s.capacity
    → SetOutcome k v s (pref_set ok k v s)
unfolding pref_set store_value
set_outcome ok k v s room = elim (Bool-cases (not (is_storable k v) || not ok.value_copy)) [
  | inl bad ↦ rw bad (refused refl)
  | inr good ↦
      rw (good, pref_find-position)
        (elim (Option-cases (position k s.entries)) [
          | inl missing ↦ rw missing (add_outcome ok k v s missing (ground arith) room)
          | inr (x, found) ↦ rw found (replaced x found (ground arith) refl)
        ])
]

storable_limits :
    (k v : Str)
    → is_storable k v ≡ true
    → (1 ≤ length k) × (length k ≤ max_key) × (length v ≤ max_value)
unfolding is_storable
storable_limits k v h = ground arith

-- The table stays well formed, whichever allocations fail.
pub pref_set-IsWellFormed :
    (ok : Alloc) (k v : Str) {s : Prefs} → IsWellFormed s → IsWellFormed (pref_set ok k v s).0
unfolding replace_value append_entry
pref_set-IsWellFormed ok k v {s} w = go (pref_set ok k v s) (set_outcome ok k v s w.room)
  where
    go : (r : Prefs × Bool) → SetOutcome k v s r → IsWellFormed r.0
    go r (refused e) = rw e w
    go r (replaced x found fits e) = rw e (record {
      distinct = IsDistinct-set_value v s.entries x w.distinct;
      limits = InLimits-set_value v s.entries x (storable_limits k v fits).2 w.limits;
      count = omega (arith, length-set_value s.entries x v, w.count);
      room = omega (arith, length-set_value s.entries x v, w.room);
    })
    go r (added c missing fits below grows room e) = rw e (record {
      distinct =
          IsDistinct-append s.entries (record { key = k; value = v }) w.distinct
            (lookup_of_position k s.entries missing);
      limits =
          let (some_key, short_key, short_value) = storable_limits k v fits in
          InLimits-append s.entries (record { key = k; value = v }) w.limits
            (some_key, short_key, short_value, tt);
      count = omega (arith, length-append s.entries (record { key = k; value = v } ∷ []));
      room = omega (arith, length-append s.entries (record { key = k; value = v } ∷ []));
    })

-- A pref_set that returns 1 changes the value of its key and of no other; one that returns 0
-- changes nothing.
pub pref_value-pref_set :
    (ok : Alloc) (k v j : Str) {s : Prefs}
    → IsWellFormed s
    → (((pref_set ok k v s).1 ≡ true)
        × (pref_value j (pref_set ok k v s).0 ≡ (if str_eq k j then some v else pref_value j s)))
      ⊎ (((pref_set ok k v s).1 ≡ false) × ((pref_set ok k v s).0 ≡ s))
unfolding replace_value append_entry
pref_value-pref_set ok k v j {s} w =
    rw (pref_value-lookup j s, pref_value-lookup j (pref_set ok k v s).0)
      (go (pref_set ok k v s) (set_outcome ok k v s w.room))
  where
    go :
        (r : Prefs × Bool)
        → SetOutcome k v s r
        → ((r.1 ≡ true)
            × (lookup j r.0.entries ≡ (if str_eq k j then some v else lookup j s.entries)))
          ⊎ ((r.1 ≡ false) × (r.0 ≡ s))
    go r (refused e) = inr (rw e (refl, refl))
    go r (replaced x found fits e) = inl (rw e (refl, lookup-set_value k j v s.entries x found))
    go r (added c missing fits below grows room e) = inl (
        rw e (
          refl,
          lookup-append j s.entries (record { key = k; value = v })
              (lookup_of_position k s.entries missing),
        ))

-- With enough memory, a value is stored exactly if its key has 1 to 120 bytes, it has at most
-- 2 ^ 20, and the key is there already or the table has fewer than 4096 entries.
pub pref_set-accepts :
    (k v : Str) (s : Prefs)
    → ((pref_set (record { value_copy = true; key_copy = true; table = true }) k v s).1 ≡ true) ↔ (
        (1 ≤ length k)
        × (length k ≤ max_key)
        × (length v ≤ max_value)
        × ((pref_value k s ≢ none) ⊎ (length s.entries < max_count)))
unfolding pref_set is_storable store_value add_entry pref_grow
pref_set-accepts k v s = ground (
  arith,
  pref_value-lookup k s,
  pref_find-position k s,
  lookup_of_position k s.entries,
  position_of_lookup k s.entries,
)

removed-IsWellFormed :
    {s : Prefs} (x : ℕ)
    → IsWellFormed s
    → IsWellFormed (record s { entries = swap_remove s.entries x; dirty = true })
removed-IsWellFormed {s} x w = record {
  distinct = IsDistinct-swap_remove s.entries x w.distinct;
  limits = InLimits-swap_remove s.entries x w.limits;
  count = omega (arith, length-swap_remove s.entries x, w.count);
  room = omega (arith, length-swap_remove s.entries x, w.room);
}

-- pref_remove_key forgets its key, keeps every other value and keeps the table well formed; it
-- returns 0 exactly if the key is not there.
pub pref_value-pref_remove_key :
    (k j : Str) {s : Prefs}
    → IsWellFormed s
    → IsWellFormed (pref_remove_key k s).0
      × (pref_value j (pref_remove_key k s).0 ≡ (if str_eq k j then none else pref_value j s))
      × (((pref_remove_key k s).1 ≡ false) ↔ (pref_value k s ≡ none))
unfolding pref_remove_key
pref_value-pref_remove_key k j {s} w =
    rw (pref_value-lookup j s, pref_value-lookup k s, pref_value-lookup j (pref_remove_key k s).0)
      (elim (Option-cases (position k s.entries)) [
        | inl missing ↦
            rw (pref_find-position k s, missing, pref_remove_key)
              (
                w,
                ground (arith, lookup_of_position k s.entries missing, str_eq→eq k j),
                ((λ _. lookup_of_position k s.entries missing), (λ _. refl)),
              )
        | inr (x, found) ↦
            rw (pref_find-position k s, found, pref_remove_key)
              (
                removed-IsWellFormed x w,
                lookup-swap_remove k j s.entries x w.distinct found,
                ((λ h. cc), (λ h. cc (position_of_lookup k s.entries h))),
              )
      ])

pub pref_set_loaded : (ok : Alloc) (k v : Str) (s : Prefs) → (pref_set ok k v s).0.loaded ≡ s.loaded
unfolding pref_set store_value add_entry pref_grow append_entry replace_value
pref_set_loaded ok k v s = ground arith

pub pref_remove_key_loaded : (k : Str) (s : Prefs) → (pref_remove_key k s).0.loaded ≡ s.loaded
unfolding pref_remove_key
pref_remove_key_loaded k s = ground arith
