-- ===== src/AssetIndex/Found.antt =====
-- The directory that utils/asset_index.c finds for a path, and its lists of directories and paths.
use zombie_shooter_ps_vita_p.Prelude.{
  ℕ, zero, suc, ◌+◌, ◌-◌, ◌≤◌, ◌≡◌, refl, sym, ap, subst, ◌||◌, Option, none, some, List, [], ◌∷◌,
  ◌++◌, arith, get_or, set, str_eq, Option-cases, inl, inr,
}
use zombie_shooter_ps_vita_p.AssetIndex.{
  DirectoryIndex, find_directory, no_directory, negative_find,
}
use zombie_shooter_ps_vita_p.AssetIndex.Names.{name_hash, strip_prefix, hash_after}

pub strip_prefix_lem : (p name rest : List ℕ) → strip_prefix p name ≡ some rest → name ≡ p ++ rest
unfolding strip_prefix
strip_prefix_lem [] name rest e = cc
strip_prefix_lem (c ∷ cs) [] rest e = cc
strip_prefix_lem (c ∷ cs) (b ∷ bs) rest e = ground (arith, strip_prefix_lem cs bs rest)

-- The directory that is found has the name, and the hash is that of the rest.
abbrev pub IsFound : List ℕ → ℕ → DirectoryIndex → Type 0
IsFound name h d =
    (rest : List ℕ) × (strip_prefix d.prefix name ≡ some rest) × (name_hash rest ≡ some h)

after_prefix :
    (name : List ℕ) (h : ℕ) (d : DirectoryIndex) (o : Option (List ℕ))
    → strip_prefix d.prefix name ≡ o
    → hash_after o ≡ some h
    → IsFound name h d
after_prefix name h d none s e = absurd (cc)
after_prefix name h d (some rest) s e = (rest, s, e)

pub find_directory-IsFound :
    (name : List ℕ) (ds : List DirectoryIndex) (i j h : ℕ)
    → find_directory name ds i ≡ some (j, h)
    → (i ≤ j) × IsFound name h (get_or ds (j - i) no_directory)
unfolding find_directory
find_directory-IsFound name [] i j h e = absurd (cc)
find_directory-IsFound name (d ∷ ds) i j h e =
    elim (Option-cases (hash_after (strip_prefix d.prefix name))) [
      | inl next ↦
          let rest : find_directory name ds (i + 1) ≡ some (j, h) = ground arith in
          let found = find_directory-IsFound name ds (i + 1) j h rest in
          let le = found.0 in
          let at : get_or (d ∷ ds) (j - i) no_directory ≡ get_or ds (j - (i + 1)) no_directory =
            get_or-suc d ds (j - i) (j - (i + 1)) (omega arith) in
          (omega arith, subst (IsFound name h) (sym at) found.1)
      | inr (k, here) ↦
          let same : ◌≡◌ {A = Option (ℕ × ℕ)} (some (i, k)) (some (j, h)) = ground arith in
          let ij : i ≡ j = cc in
          let at : get_or (d ∷ ds) (j - i) no_directory ≡ d =
            get_or-zero d ds (j - i) (omega arith) in
          (
            omega arith,
            subst (IsFound name h) (sym at)
                (after_prefix name h d (strip_prefix d.prefix name) refl (cc)),
          )
    ]
  where
    get_or-suc :
        (d : DirectoryIndex) (ds : List DirectoryIndex) (n m : ℕ)
        → n ≡ suc m
        → get_or (d ∷ ds) n no_directory ≡ get_or ds m no_directory
    get_or-suc d ds n m e = ap (λ (k : ℕ). get_or (d ∷ ds) k no_directory) e

    get_or-zero :
        (d : DirectoryIndex) (ds : List DirectoryIndex) (n : ℕ)
        → n ≡ 0
        → get_or (d ∷ ds) n no_directory ≡ d
    get_or-zero d ds n e = ap (λ (k : ℕ). get_or (d ∷ ds) k no_directory) e

pub get_or-set-all :
    (P : DirectoryIndex → Type 0) (ds : List DirectoryIndex) (i : ℕ) (v : DirectoryIndex)
    → P v
    → ((j : ℕ) → P (get_or ds j no_directory))
    → (j : ℕ) → P (get_or (set ds i v) j no_directory)
get_or-set-all P [] i v pv all j = all j
get_or-set-all P (d ∷ ds) zero v pv all zero = pv
get_or-set-all P (d ∷ ds) zero v pv all (suc j) = all (suc j)
get_or-set-all P (d ∷ ds) (suc i) v pv all zero = all zero
get_or-set-all P (d ∷ ds) (suc i) v pv all (suc j) = get_or-set-all P ds i v pv (λ k. all (suc k)) j

pub negative_find-append :
    (name x : List ℕ) (ps : List (List ℕ))
    → negative_find name (ps ++ x ∷ []) ≡ (negative_find name ps || str_eq name x)
unfolding negative_find
negative_find-append name x [] = ground arith
negative_find-append name x (p ∷ ps) = ground (arith, negative_find-append name x ps)
