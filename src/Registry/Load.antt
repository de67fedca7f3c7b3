-- ===== src/Registry/Load.antt =====
-- preferences_store.inc: pref_load, which fills the table from the files when the game starts.
pub mod Restart
pub mod Shape
use mathlib.Core.Option
use zombie_shooter_ps_vita_p.Prelude.{
  ℕ, ◌^◌, Bool, true, false, not, ◌&&◌, ◌||◌, Option, none, some, List, [], ◌∷◌, ◌++◌, length, ltb,
  leb, if◌then◌else◌,
}
use zombie_shooter_ps_vita_p.Registry.Table.{
  Str, PrefEntry, Prefs, max_value, max_count, pref_find, pref_grow,
}
use zombie_shooter_ps_vita_p.Registry.FileName.{
  dat, has_nul, pref_path_for_key, pref_key_from_filename,
}
use zombie_shooter_ps_vita_p.Registry.Files.{Files, path_size}

-- The outcomes of the calls that a load makes. `reads` tells of the file at a path whether
-- it can be read, the others of a directory entry whether an allocation for it succeeds.
pub record LoadFaults : Type 0 where
  pub dir : Bool
  pub names : Option (List Str)
  pub key_copy : Str → Bool
  pub reads : Str → Bool
  pub table : Str → Bool

-- The contents of the file, if they are at most 2 ^ 20 bytes without NUL.
unfoldable pub pref_read_value_file : Bool → Option Str → Option Str
pref_read_value_file ok none = none
pref_read_value_file ok (some v) =
    if ok && leb (length v) max_value && not (has_nul v) then some v else none

-- The end of one round: the entry is added if its key is new and the table has room.
unfoldable pub load_value : Bool → Str → Option Str → Prefs → Prefs
load_value table k none s = s
load_value table k (some v) s = elim (pref_find k s) [
  | some _ ↦ s
  | none ↦
      if leb max_count (length s.entries)
      then s
      else (let (s', grown) = pref_grow table s in
          if grown
          then record s' { entries = s'.entries ++ record { key = k; value = v } ∷ [] }
          else s')
]

unfoldable pub load_path : LoadFaults → Bool → Str → Option Str → Files → Prefs → Prefs
load_path f table k none fs s = s
load_path f table k (some path) fs s =
    load_value table k (pref_read_value_file (f.reads path) (fs path)) s

unfoldable pub load_key : LoadFaults → Str → Bool → Option Str → Files → Prefs → Prefs
load_key f dir table none fs s = s
load_key f dir table (some k) fs s =
    load_path f table k (pref_path_for_key dir path_size k dat) fs s

-- The loop over the directory.
unfoldable pub load_names : LoadFaults → Str → List Str → Files → Prefs → Prefs
load_names f dir [] fs s = s
load_names f dir (n ∷ names) fs s =
    load_names f dir names fs
      (load_key f dir (f.table n) (pref_key_from_filename (f.key_copy n) n) fs s)

unfoldable pub load_dir : LoadFaults → Str → Option (List Str) → Files → Prefs → Prefs
load_dir f dir none fs s = s
load_dir f dir (some names) fs s = load_names f dir names fs s

unfoldable pub pref_load : LoadFaults → Str → Files → Prefs → Prefs
pref_load f dir fs s =
    if s.loaded
    then s
    else if not f.dir
    then record s { loaded = true; dirty = false }
    else record (load_dir f dir f.names fs (record s { loaded = true })) { dirty = false }
