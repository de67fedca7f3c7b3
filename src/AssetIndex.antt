-- ===== src/AssetIndex.antt =====
-- utils/asset_index.c: which files the game need not open, since they are not there. A name is its
-- bytes, with no NUL. The directories of the card and what realloc answers are arguments. The log
-- lines and the time that a build takes are left out.
pub mod Names
pub mod Search
pub mod Found
pub mod Listing
pub mod Methods
mod Tests
use zombie_shooter_ps_vita_p.Prelude.{
  ℕ, zero, suc, ◌+◌, ◌-◌, ◌*◌, ◌/◌, ◌%◌, ◌^◌, bit_xor, Bool, true, false, not, ◌&&◌, ◌||◌, Option,
  none, some, List, [], ◌∷◌, ◌++◌, ◌==◌, if◌then◌else◌, ltb, leb, length, get_or, set, codes,
  str_eq, u32, u64,
}
use Names.{
  fold_case, hash_after, hash_loop, hash_step, index_max_entries, insert_hash, is_absent, is_leaf,
  is_upper, lower_bound, name_hash, push_hash, read_entries, read_entry, room_for, sort_hashes,
  store_hash, strip_prefix,
}

-- A directory is unbuilt, has all its names, or is uncertain: then the files are opened.
pub data State : Type 0 where
  unbuilt complete uncertain : State

pub record DirectoryIndex : Type 0 where
  pub prefix : List ℕ
  pub hashes : List ℕ
  pub capacity : ℕ
  pub state : State

pub record Stats : Type 0 where
  pub lookups : ℕ
  pub present : ℕ
  pub absent : ℕ
  pub fallback : ℕ
  pub builds : ℕ
  pub failed : ℕ
  pub listed : ℕ

-- The last path recorded stands last in negative_paths.
pub record AssetIndex : Type 0 where
  pub directories : List DirectoryIndex
  pub negative_paths : List (List ℕ)
  pub negative_bytes : ℕ
  pub negative_hits : ℕ
  pub negative_enabled : Bool
  pub stats : Stats
  pub errno : ℕ

-- What a directory of the card answers: whether it opens, its names, whether the reads end without
-- an error, and whether it closes.
pub record Directory : Type 0 where
  pub opens : Bool
  pub names : List (List ℕ)
  pub reads : Bool
  pub closes : Bool

abbrev pub negative_capacity : ℕ
negative_capacity = 256

abbrev pub enoent : ℕ
enoent = 2

abbrev empty_directory : List ℕ → DirectoryIndex
empty_directory p = record { prefix = p; hashes = []; capacity = 0; state = unbuilt }

abbrev pub initial_directories : List DirectoryIndex
initial_directories =
    empty_directory (codes "vid/")
    ∷ empty_directory (codes "menus/img/")
    ∷ empty_directory (codes "menus/items/")
    ∷ empty_directory (codes "music/")
    ∷ empty_directory (codes "menus/")
    ∷ empty_directory (codes "menus/rpg/")
    ∷ empty_directory (codes "menus/img/supply_boxes/")
    ∷ []

unfoldable pub asset_index_configure_negative : Bool → AssetIndex → AssetIndex
asset_index_configure_negative enabled s = record s {
  negative_paths = [];
  negative_bytes = 0;
  negative_hits = 0;
  negative_enabled = enabled;
}

unfoldable pub negative_find : List ℕ → List (List ℕ) → Bool
negative_find name [] = false
negative_find name (p ∷ ps) = if str_eq name p then true else negative_find name ps

unfoldable pub record_copy : List ℕ → AssetIndex → AssetIndex
record_copy name s = record s {
  negative_paths = s.negative_paths ++ name ∷ [];
  negative_bytes = s.negative_bytes + length name + 1;
}

-- `copies` says whether the path can be copied; a null path is none.
unfoldable pub asset_index_record_missing : Option (List ℕ) → ℕ → Bool → AssetIndex → AssetIndex
asset_index_record_missing none error copies s = s
asset_index_record_missing (some name) error copies s =
    if not (error == enoent) || length name == 0 || leb 256 (length name)
    then s
    else if s.negative_enabled
        && ltb (length s.negative_paths) negative_capacity
        && not (negative_find name s.negative_paths)
        && copies
    then record_copy name s
    else s

abbrev pub fail_build : DirectoryIndex → DirectoryIndex
fail_build d = record d { hashes = []; capacity = 0; state = uncertain }

unfoldable pub finish_build : Bool → Option (List ℕ × ℕ) → DirectoryIndex → DirectoryIndex
finish_build true (some (hashes, capacity)) d = record d {
  hashes = sort_hashes hashes;
  capacity = capacity;
  state = complete;
}
finish_build false (some s) d = fail_build d
finish_build closed none d = fail_build d

-- build_index; `base` is the path of the assets.
unfoldable pub build_index :
    (ℕ → Bool) → List ℕ → (List ℕ → Directory) → DirectoryIndex → DirectoryIndex
build_index grows base card d =
    if leb 257 (length base + length d.prefix + 1)
    then record d { state = uncertain }
    else let dir = card d.prefix in
      finish_build (dir.opens && dir.reads && dir.closes)
        (read_entries grows dir.names (d.hashes, d.capacity)) d

-- The first directory that the name is in, with the hash of the rest.
unfoldable pub find_directory : List ℕ → List DirectoryIndex → ℕ → Option (ℕ × ℕ)
find_directory name [] i = none
find_directory name (d ∷ ds) i =
    let rest = find_directory name ds (i + 1) in
    elim (hash_after (strip_prefix d.prefix name)) [ none ↦ rest | some h ↦ some (i, h) ]

abbrev pub no_directory : DirectoryIndex
no_directory = record { prefix = []; hashes = []; capacity = 0; state = uncertain }

abbrev pub bump : ℕ → ℕ
bump n = u32 (n + 1)

abbrev pub fall_back : Stats → Stats
fall_back t = record t { fallback = bump t.fallback }

abbrev pub count_answer : Bool → Stats → Stats
count_answer true t = record t { absent = bump t.absent }
count_answer false t = record t { present = bump t.present }

-- The builds, and what is listed or failed.
abbrev pub count_build : State → ℕ → Stats → Stats
count_build complete n t = record t { builds = bump t.builds; listed = u32 (t.listed + n) }
count_build unbuilt n t = record t { builds = bump t.builds; failed = bump t.failed }
count_build uncertain n t = record t { builds = bump t.builds; failed = bump t.failed }

-- A directory that is ready to be asked, with its answer for a hash.
abbrev pub ask : State → ℕ → DirectoryIndex → Stats → Stats × Bool
ask complete h d t = let missing = is_absent d.hashes h in (count_answer missing t, missing)
ask unbuilt h d t = (fall_back t, false)
ask uncertain h d t = (fall_back t, false)

module _ (grows : ℕ → Bool) (base : List ℕ) (card : List ℕ → Directory) where
  -- `if (!d->state) build_index(d)`.
  unfoldable pub build_if : State → DirectoryIndex → Stats → DirectoryIndex × Stats
  build_if unbuilt d t =
      let b = build_index grows base card d in (b, count_build b.state (length b.hashes) t)
  build_if complete d t = (d, t)
  build_if uncertain d t = (d, t)

  unfoldable pub ask_directory : ℕ × ℕ → AssetIndex → AssetIndex × Bool
  ask_directory (i, h) s =
      let d = get_or s.directories i no_directory in
      let counted = (let t = s.stats in record t { lookups = bump t.lookups }) in
      let built = build_if d.state d counted in
      let answer = ask built.0.state h built.0 built.1 in
      (
        record s {
          directories = set s.directories i built.0;
          stats = answer.0;
          errno = if answer.1 then enoent else s.errno;
        },
        answer.1,
      )

  unfoldable pub look_up : Option (ℕ × ℕ) → AssetIndex → AssetIndex × Bool
  look_up none s = (record s { stats = fall_back s.stats }, false)
  look_up (some found) s = ask_directory found s

  -- A null path is none.
  unfoldable pub asset_index_missing : Option (List ℕ) → AssetIndex → AssetIndex × Bool
  asset_index_missing none s = look_up none s
  asset_index_missing (some name) s =
      if s.negative_enabled && negative_find name s.negative_paths
      then (record s { negative_hits = bump s.negative_hits; errno = enoent }, true)
      else look_up (find_directory name s.directories 0) s

abbrev pub no_stats : Stats
no_stats = record {
  lookups = 0;
  present = 0;
  absent = 0;
  fallback = 0;
  builds = 0;
  failed = 0;
  listed = 0;
}

-- asset_index_report, without the line that it logs.
unfoldable pub asset_index_report : AssetIndex → AssetIndex
asset_index_report s = record s { negative_hits = 0; stats = no_stats }
