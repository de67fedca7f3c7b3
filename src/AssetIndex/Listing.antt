-- ===== src/AssetIndex/Listing.antt =====
-- What the hashes of a directory keep of its names, utils/asset_index.c.
use zombie_shooter_ps_vita_p.Prelude.{
  ℕ, ◌+◌, ◌≡◌, refl, sym, ap, ◌∙◌, Bool, true, false, ◌&&◌, ◌||◌, Option, none, some, List, [], ◌∷◌,
  ◌++◌, map, ◌==◌, if◌then◌else◌, leb, arith, length, codes, str_eq, str_eq→eq, Bool-cases,
  Option-cases, inl, inr, if_both,
}
use zombie_shooter_ps_vita_p.AssetIndex.{
  complete, uncertain, DirectoryIndex, Directory, finish_build, build_index,
}
use zombie_shooter_ps_vita_p.AssetIndex.Names.{
  is_upper, is_leaf, fold_case, hash_step, hash_loop, name_hash, room_for, push_hash, store_hash,
  read_entry, read_entries,
}
use zombie_shooter_ps_vita_p.AssetIndex.Search.{
  contains_hash, are_sorted, are_sorted-sort_hashes, contains_hash-sort_hashes,
}

fold_case-fold_case : (c : ℕ) → fold_case (fold_case c) ≡ fold_case c
unfolding fold_case is_upper
fold_case-fold_case c = ground arith

is_leaf-fold_case : (c : ℕ) → is_leaf (fold_case c) ≡ is_leaf c
unfolding fold_case is_upper is_leaf
is_leaf-fold_case c = ground arith

is_dot-fold_case : (c : ℕ) → (fold_case c == b'.') ≡ (c == b'.')
unfolding fold_case is_upper
is_dot-fold_case c = ground arith

hash_step-fold_case : (h c : ℕ) → hash_step h (fold_case c) ≡ hash_step h c
unfolding hash_step
hash_step-fold_case h c = rw (fold_case-fold_case c)

hash_loop-fold_case :
    (name : List ℕ) (n last last' h : ℕ)
    → (last == b'.') ≡ (last' == b'.')
    → hash_loop (map fold_case name) n last h ≡ hash_loop name n last' h
unfolding hash_loop
hash_loop-fold_case [] n last last' h e = rw e
hash_loop-fold_case (c ∷ cs) n last last' h e = ground (
  arith,
  is_leaf-fold_case c,
  hash_step-fold_case h c,
  hash_loop-fold_case cs (n + 1) (fold_case c) c (hash_step h c) (is_dot-fold_case c),
)

-- The case of its letters does not change the hash of a name.
pub name_hash-fold_case : (name : List ℕ) → name_hash (map fold_case name) ≡ name_hash name
unfolding name_hash
name_hash-fold_case name = hash_loop-fold_case name 0 0 0 _ refl

-- The names have one that differs from `name` in the case of letters only.
unfoldable pub has_name : List ℕ → List (List ℕ) → Bool
has_name name [] = false
has_name name (x ∷ xs) =
    if str_eq (map fold_case x) (map fold_case name) then true else has_name name xs

same_hash :
    (x name : List ℕ)
    → str_eq (map fold_case x) (map fold_case name) ≡ true
    → name_hash x ≡ name_hash name
same_hash x name e =
    sym (name_hash-fold_case x)
    ∙ ap name_hash (str_eq→eq (map fold_case x) (map fold_case name) e)
    ∙ name_hash-fold_case name

contains_hash-append :
    (h x : ℕ) (hs : List ℕ) → contains_hash h (hs ++ x ∷ []) ≡ (contains_hash h hs || x == h)
unfolding contains_hash
contains_hash-append h x [] = ground arith
contains_hash-append h x (y ∷ ys) = ground (arith, contains_hash-append h x ys)

module _ (grows : ℕ → Bool) where
  -- A stored hash is there, and so are those before it.
  push_hash-contains :
      (x h : ℕ) (hs : List ℕ) (o : Option ℕ) (t : List ℕ × ℕ)
      → push_hash x hs o ≡ some t
      → contains_hash h t.0 ≡ (contains_hash h hs || x == h)
  unfolding push_hash
  push_hash-contains x h hs none t e = cc
  push_hash-contains x h hs (some c) t e =
      let f : t.0 ≡ hs ++ x ∷ [] = cc in ap (contains_hash h) f ∙ contains_hash-append h x hs

  store_hash-contains :
      (o : Option ℕ) (h : ℕ) (s t : List ℕ × ℕ)
      → store_hash grows o s ≡ some t
      → (contains_hash h s.0 ≡ true → contains_hash h t.0 ≡ true)
        × (o ≡ some h → contains_hash h t.0 ≡ true)
  unfolding store_hash
  store_hash-contains none h s t e = absurd (cc)
  store_hash-contains (some x) h (hs, c) t e =
      let pushed : push_hash x hs (room_for grows (length hs) c) ≡ some t = ground arith in
      let f = push_hash-contains x h hs (room_for grows (length hs) c) t pushed in
      ((λ here. ground arith), (λ same. let k : x ≡ h = cc in ground arith))

  dots_have_none :
      (x : List ℕ) → (str_eq x (codes ".") || str_eq x (codes "..")) ≡ true → name_hash x ≡ none
  unfolding name_hash hash_loop is_leaf is_upper hash_step fold_case
  dots_have_none x e = elim (Bool-cases (str_eq x (codes "."))) [
    | inl one ↦ ap name_hash (str_eq→eq x (codes ".") one) ∙ refl
    | inr other ↦ ap name_hash (str_eq→eq x (codes "..") (ground arith)) ∙ refl
  ]

  read_entry-contains :
      (x : List ℕ) (h : ℕ) (s t : List ℕ × ℕ)
      → read_entry grows x s ≡ some t
      → (contains_hash h s.0 ≡ true → contains_hash h t.0 ≡ true)
        × (name_hash x ≡ some h → contains_hash h t.0 ≡ true)
  unfolding read_entry
  read_entry-contains x h s t e =
      elim (Bool-cases (str_eq x (codes ".") || str_eq x (codes ".."))) [
        | inl dots ↦
            let none_now = dots_have_none x dots in
            let same : s ≡ t = ground arith in
            (
              (λ here. ap (λ (u : List ℕ × ℕ). contains_hash h u.0) (sym same) ∙ here),
              (λ has. absurd (cc)),
            )
        | inr name ↦ store_hash-contains (name_hash x) h s t (ground arith)
      ]

  pub read_entries-contains :
      (xs : List (List ℕ)) (name : List ℕ) (h : ℕ) (s t : List ℕ × ℕ)
      → name_hash name ≡ some h
      → read_entries grows xs s ≡ some t
      → (contains_hash h s.0 || has_name name xs) ≡ true
      → contains_hash h t.0 ≡ true
  unfolding read_entries has_name
  read_entries-contains [] name h s t n e p =
      let same : s ≡ t = cc in
      ap (λ (u : List ℕ × ℕ). contains_hash h u.0) (sym same) ∙ ground arith
  read_entries-contains (x ∷ xs) name h s t n e p = elim (Option-cases (read_entry grows x s)) [
    | inl failed ↦ absurd (let f : ◌≡◌ {A = Option (List ℕ × ℕ)} none (some t) = ground arith in cc)
    | inr (u, read) ↦
        let one = read_entry-contains x h s u read in
        let rest : read_entries grows xs u ≡ some t = ground arith in
        let hash = same_hash x name in
        read_entries-contains xs name h u t n rest (ground (arith, one.0, one.1))
  ]

-- The directory opened, its reads ended without an error, and it closed.
abbrev pub is_read : Directory → Bool
is_read dir = dir.opens && dir.reads && dir.closes

-- A directory that is complete has been read whole, and has the hashes of all its names, sorted.
pub record IsListed (card : List ℕ → Directory) (d : DirectoryIndex) : Type 0 where
  pub sorted : d.state ≡ complete → are_sorted d.hashes ≡ true
  pub read : d.state ≡ complete → is_read (card d.prefix) ≡ true
  pub all :
      d.state ≡ complete
      → (name : List ℕ) (h : ℕ) → name_hash name ≡ some h
      → has_name name (card d.prefix).names ≡ true
      → contains_hash h d.hashes ≡ true

module _ (card : List ℕ → Directory) where
  -- A directory that is not complete promises nothing.
  pub other-IsListed : (d : DirectoryIndex) → d.state ≡ uncertain → IsListed card d
  other-IsListed d u = record {
    sorted = λ c. absurd (cc);
    read = λ c. absurd (cc);
    all = λ c name h n p. absurd (cc);
  }

  finish_build-IsListed :
      (read : Bool) (o : Option (List ℕ × ℕ)) (d : DirectoryIndex)
      → (read ≡ true → is_read (card d.prefix) ≡ true)
      → ((t : List ℕ × ℕ) (name : List ℕ) (h : ℕ)
          → o ≡ some t
          → name_hash name ≡ some h
          → has_name name (card d.prefix).names ≡ true
          → contains_hash h t.0 ≡ true)
      → IsListed card (finish_build read o d)
  unfolding finish_build
  finish_build-IsListed true (some (hs, c)) d r f = record {
    sorted = λ e. are_sorted-sort_hashes hs;
    read = λ e. r refl;
    all = λ e name h n p. contains_hash-sort_hashes h hs ∙ f (hs, c) name h refl n p;
  }
  finish_build-IsListed false (some (hs, c)) d r f = other-IsListed _ refl
  finish_build-IsListed true none d r f = other-IsListed _ refl
  finish_build-IsListed false none d r f = other-IsListed _ refl

  pub build_index-IsListed :
      (grows : ℕ → Bool) (base : List ℕ) (d : DirectoryIndex)
      → IsListed card (build_index grows base card d)
  unfolding build_index
  build_index-IsListed grows base d =
      if_both (IsListed card) (leb 257 (length base + length d.prefix + 1)) (other-IsListed _ refl)
        (let dir = card d.prefix in
          finish_build-IsListed (is_read dir) (read_entries grows dir.names (d.hashes, d.capacity))
            d (λ r. r)
            (λ t name h e n p.
              read_entries-contains grows dir.names name h (d.hashes, d.capacity) t n e
                (ground arith)))

finish_build-prefix :
    (read : Bool) (o : Option (List ℕ × ℕ)) (d : DirectoryIndex)
    → (finish_build read o d).prefix ≡ d.prefix
unfolding finish_build
finish_build-prefix true (some s) d = refl
finish_build-prefix false (some s) d = refl
finish_build-prefix true none d = refl
finish_build-prefix false none d = refl

pub build_index-prefix :
    (grows : ℕ → Bool) (base : List ℕ) (card : List ℕ → Directory) (d : DirectoryIndex)
    → (build_index grows base card d).prefix ≡ d.prefix
unfolding build_index
build_index-prefix grows base card d =
    if_both (λ (x : DirectoryIndex). x.prefix ≡ d.prefix)
      (leb 257 (length base + length d.prefix + 1)) refl
      (let dir = card d.prefix in
        finish_build-prefix (is_read dir) (read_entries grows dir.names (d.hashes, d.capacity)) d)
