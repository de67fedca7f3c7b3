-- ===== src/AssetIndex/Tests.antt =====
-- A card with one directory of two files.
use Prim.Native.String.{String}
use zombie_shooter_ps_vita_p.Prelude.{
  ℕ, zero, suc, ◌≡◌, refl, Bool, true, false, not, some, List, [], ◌∷◌, ◌++◌, if◌then◌else◌, codes,
  str_eq, ◌&&◌, get_or, ap, sym, subst, ◌∙◌, arith, str_eq→eq, Bool-cases, inl, inr,
}
use zombie_shooter_ps_vita_p.AssetIndex.{
  State, unbuilt, complete, uncertain, AssetIndex, Directory, DirectoryIndex, initial_directories,
  no_directory, no_stats, enoent, negative_find, asset_index_missing, find_directory, look_up,
  ask_directory, build_if, build_index, finish_build,
}
use zombie_shooter_ps_vita_p.AssetIndex.Names.{
  name_hash, hash_loop, hash_step, fold_case, is_upper, is_leaf, is_absent, lower_bound,
  sort_hashes, insert_hash, strip_prefix, read_entries, read_entry, store_hash, push_hash, room_for,
}
use zombie_shooter_ps_vita_p.AssetIndex.Search.{
  contains_hash, are_sorted, are_at_least, is_absent-contains_hash,
}
use zombie_shooter_ps_vita_p.AssetIndex.Listing.{has_name, IsListed}
use zombie_shooter_ps_vita_p.AssetIndex.Methods.{
  Event, configure, record_missing, missing, report, run_events, Lists, IsTruthful,
  asset_index_missing-exists,
}

is_absent-contains_hash_example :
    is_absent (3 ∷ 7 ∷ 9 ∷ []) 7 ≡ not (contains_hash 7 (3 ∷ 7 ∷ 9 ∷ []))
unfolding are_sorted are_at_least
is_absent-contains_hash_example = is_absent-contains_hash (3 ∷ 7 ∷ 9 ∷ []) 7 refl

abbrev base : List ℕ
base = codes "ux0:data/zombie/assets/"

-- "music/" has two files; the other directories cannot be opened.
abbrev card : List ℕ → Directory
card p = record {
  opens = str_eq p (codes "music/");
  names = codes "." ∷ codes ".." ∷ codes "Boss.ogg" ∷ codes "menu.ogg" ∷ [];
  reads = true;
  closes = true;
}

abbrev is_file : List ℕ → Bool
is_file p = if str_eq p (codes "music/boss.ogg") then true else str_eq p (codes "music/menu.ogg")

abbrev start : AssetIndex
start = record {
  directories = initial_directories;
  negative_paths = [];
  negative_bytes = 0;
  negative_hits = 0;
  negative_enabled = false;
  stats = no_stats;
  errno = 0;
}

abbrev asked : String → AssetIndex → Bool
asked p s = (asset_index_missing (λ n. true) base card (some (codes p)) s).1

asks :
    (asked "music/boss.ogg" start ≡ false)
    × (asked "music/menu.OGG" start ≡ false)
    × (asked "music/none.ogg" start ≡ true)
    × (asked "vid/none.ogg" start ≡ false)
    × (asked "music/a b" start ≡ false)
unfolding asset_index_missing find_directory look_up ask_directory build_if build_index finish_build
    name_hash hash_loop hash_step fold_case is_upper is_leaf is_absent lower_bound sort_hashes
    insert_hash strip_prefix read_entries read_entry store_hash push_hash room_for str_eq
    negative_find
asks = (refl, refl, refl, refl, refl)

no_directory-IsListed : (d : DirectoryIndex) → d.state ≡ unbuilt → IsListed card d
no_directory-IsListed d u = record {
  sorted = λ c. absurd (cc);
  read = λ c. absurd (cc);
  all = λ c name h n p. absurd (cc);
}

uncertain-IsListed : IsListed card no_directory
uncertain-IsListed = record {
  sorted = λ c. absurd (cc);
  read = λ c. absurd (cc);
  all = λ c name h n p. absurd (cc);
}

abbrev is_unbuilt : State → Bool
is_unbuilt unbuilt = true
is_unbuilt complete = false
is_unbuilt uncertain = false

is_unbuilt-eq : (st : State) → is_unbuilt st ≡ true → st ≡ unbuilt
is_unbuilt-eq unbuilt e = refl
is_unbuilt-eq complete e = cc
is_unbuilt-eq uncertain e = cc

abbrev are_unbuilt : List DirectoryIndex → Bool
are_unbuilt [] = true
are_unbuilt (d ∷ ds) = is_unbuilt d.state && are_unbuilt ds

initial-IsListed :
    (ds : List DirectoryIndex)
    → are_unbuilt ds ≡ true
    → (j : ℕ) → IsListed card (get_or ds j no_directory)
initial-IsListed [] u j = uncertain-IsListed
initial-IsListed (d ∷ ds) u zero = no_directory-IsListed d (is_unbuilt-eq d.state (ground arith))
initial-IsListed (d ∷ ds) u (suc j) = initial-IsListed ds (ground arith) j

start-IsTruthful : IsTruthful base card is_file start
unfolding negative_find
start-IsTruthful = record {
  listed = initial-IsListed initial_directories refl;
  gone = λ name f. absurd (cc);
}

abbrev music : List ℕ
music = codes "music/"

music_lists :
    (name : List ℕ) → is_file (music ++ name) ≡ true → has_name name (card music).names ≡ true
unfolding str_eq has_name fold_case is_upper
music_lists name x = elim (Bool-cases (str_eq name (codes "boss.ogg"))) [
  | inl boss ↦
      subst (λ (n : List ℕ). has_name n (card music).names ≡ true)
        (sym (str_eq→eq name (codes "boss.ogg") boss)) refl
  | inr other ↦
      subst (λ (n : List ℕ). has_name n (card music).names ≡ true)
        (sym (str_eq→eq name (codes "menu.ogg") (ground arith))) refl
]

card_lists : Lists base card is_file
card_lists p name h read n x =
    let e = str_eq→eq p music (ground arith) in
    subst (λ (q : List ℕ). has_name name (card q).names ≡ true) (sym e)
      (music_lists name (ap (λ (q : List ℕ). is_file (q ++ name)) (sym e) ∙ x))

abbrev calls : List Event
calls =
    configure true
    ∷ record_missing (some (codes "vid/none.ogg")) enoent true
    ∷ missing (some (codes "music/other.ogg")) (λ n. true)
    ∷ report
    ∷ []

asset_index_missing-exists_example :
    (asset_index_missing
      (λ n. true)
      base
      card
      (some (codes "music/boss.ogg"))
      (run_events base card is_file calls start)).1
    ≡ false
unfolding str_eq
asset_index_missing-exists_example =
    asset_index_missing-exists base card is_file calls start (λ n. true) (codes "music/boss.ogg")
      card_lists start-IsTruthful (tt, ((λ e. refl), (tt, (tt, tt)))) refl
