-- ===== src/Registry/Tests/Run.antt =====
-- Runs of the registry that write, delete and load files.
use zombie_shooter_ps_vita_p.Prelude.{
  ◌≡◌, ◌≤◌, ◌↔◌, length, refl, true, false, Option, none, some, List, [], ◌∷◌, ◌++◌, subst, str_eq,
  Bool-cases, inl, inr, arith, sym,
}
use zombie_shooter_ps_vita_p.Registry.Table.{
  Str, pref_set, pref_value, is_storable, store_value, add_entry, pref_grow, entry_at, append_entry,
  find_from, pref_find, value_at,
}
use zombie_shooter_ps_vita_p.Registry.Table.Methods.{IsWellFormed}
use zombie_shooter_ps_vita_p.Registry.FileName.{
  dat, tmp, bak, hex_bytes, pref_path_for_key, has_nul, hex_digit,
}
use zombie_shooter_ps_vita_p.Registry.Queue.{
  put, key_job, enqueue_key, run_job, run_queue, match_from, merge_or_append,
}
use zombie_shooter_ps_vita_p.Registry.Files.{
  Files, WriteFaults, ClearFaults, IoFaults, put_file, pref_write_key_value_now, pref_io_process,
  process_op, write_paths, write_tmp, rotate_file, install_file, rename_file, remove_file,
}
use zombie_shooter_ps_vita_p.Registry.Files.Atomic.{
  WriteResult, path_of, pref_write_key_value_now-atomic, slash_prefix,
}
use zombie_shooter_ps_vita_p.Registry.Files.Process.{
  card_of, IsFileKey, IsFaultless, IsListing, contains, card_of-pref_io_process,
}
use zombie_shooter_ps_vita_p.Registry.Load.{LoadFaults, pref_load, load_dir, load_names}
use zombie_shooter_ps_vita_p.Registry.Load.Restart.{
  fresh, IsFaultlessLoad, IsText, pref_value-pref_load,
}
use zombie_shooter_ps_vita_p.Registry.Api.{
  Registry, Env, zombie_registry_direct_put, worker_take, worker_finish, take_job, put_value,
  is_value, loaded, set_and_persist, pref_persist_current_key, persist_entry, pref_write_entry,
  settle, finish_job,
}
use zombie_shooter_ps_vita_p.Registry.Api.Sync.{IsSynced}
use zombie_shooter_ps_vita_p.Registry.Api.Reach.{
  IsValue, direct_put, take, finish, Reaches, here, andthen, started, Step-IsSynced,
  pref_load-Reaches,
}
use zombie_shooter_ps_vita_p.Registry.Tests.{lang, volume, one, two, dir, all_allocated}

abbrev good_write : WriteFaults
good_write = record {
  dir = true;
  open_tmp = true;
  written = 1;
  flush = true;
  close = true;
  remove_bak = true;
  rotate = true;
  install = true;
  restore = true;
  drop_bak = true;
  remove_tmp = true;
}

-- Both renames of the installation fail.
abbrev lost_write : WriteFaults
lost_write = record good_write { install = false; restore = false }

abbrev good_clear : ClearFaults
good_clear = record { dir = true; names = some []; missing = false; removes = λ p. true }

abbrev good_io : IoFaults
good_io = record {
  write = good_write;
  remove = record { main = true; temporary = true; backup = true };
  clear = good_clear;
}

abbrev no_files : Files
no_files p = none

abbrev one_file : Files
one_file = put_file (path_of dir lang dat) (some one) no_files

lang_file : IsFileKey dir lang
lang_file = ((omega arith, omega arith, tt), omega arith, omega arith, omega arith)

volume_file : IsFileKey dir volume
volume_file = ((omega arith, omega arith, tt), omega arith, omega arith, omega arith)

good_io-IsFaultless : IsFaultless good_io two
good_io-IsFaultless = record {
  dir = refl;
  open_tmp = refl;
  written = refl;
  flush = refl;
  close = refl;
  rotate = refl;
  install = refl;
  main = refl;
  temporary = refl;
  backup = refl;
  clear_dir = refl;
  removes = λ p. refl;
}

pref_write_key_value_now-atomic_example :
    WriteResult lost_write two
      (path_of dir lang dat)
      (path_of dir lang bak)
      one_file
      (pref_write_key_value_now lost_write dir lang two one_file)
unfolding pref_path_for_key
pref_write_key_value_now-atomic_example =
    pref_write_key_value_now-atomic lost_write dir lang two (path_of dir lang dat)
      (path_of dir lang bak) one_file refl refl

card_of-pref_io_process_example :
    card_of dir (pref_io_process good_io dir (key_job lang (put two)) one_file).0 lang
    ≡ run_job (key_job lang (put two)) (card_of dir one_file) lang
card_of-pref_io_process_example =
    card_of-pref_io_process good_io dir (key_job lang (put two)) one_file lang good_io-IsFaultless
      lang_file lang_file

-- One more file in a directory, or one less.
IsListing-put_file :
    (n : Str) (v : Option Str) (fs : Files) (names : List Str)
    → IsListing dir fs names
    → IsListing dir (put_file (dir ++ b'/' ∷ n) v fs) (n ∷ names)
unfolding contains put_file
IsListing-put_file n v fs names listed name there = elim (Bool-cases (str_eq n name)) [
  | inl same ↦ rw same refl
  | inr other ↦
      let there' = rw (slash_prefix dir n name, other) at there in rw other (listed name there')
]

no-IsListing : IsListing dir no_files []
no-IsListing name there = absurd (there refl)

lang_name : Str
lang_name = hex_bytes lang ++ dat

one-IsListing : IsListing dir one_file ((hex_bytes lang ++ dat) ∷ [])
one-IsListing = IsListing-put_file (hex_bytes lang ++ dat) (some one) no_files [] no-IsListing

abbrev load_of : List Str → LoadFaults
load_of names = record {
  dir = true;
  names = some names;
  key_copy = λ n. true;
  reads = λ p. true;
  table = λ n. true;
}

load_of-IsFaultlessLoad : (names : List Str) → IsFaultlessLoad (load_of names)
load_of-IsFaultlessLoad names = record {
  dir = refl;
  key_copy = λ n. refl;
  reads = λ p. refl;
  table = λ n. refl;
}

pref_value-pref_load_example :
    (pref_value lang (pref_load (load_of ((hex_bytes lang ++ dat) ∷ [])) dir one_file fresh)
      ≡ some one)
    ↔ ((card_of dir one_file lang ≡ some one) × (length one ≤ 1048576) × IsText one)
pref_value-pref_load_example =
    pref_value-pref_load (load_of ((hex_bytes lang ++ dat) ∷ [])) dir lang one_file
      ((hex_bytes lang ++ dat) ∷ []) one (load_of-IsFaultlessLoad ((hex_bytes lang ++ dat) ∷ []))
      refl one-IsListing (omega arith) lang_file

fresh-IsWellFormed : IsWellFormed fresh
fresh-IsWellFormed = record { distinct = tt; limits = tt; count = omega arith; room = omega arith }

abbrev env : Env
env = record {
  load = load_of [];
  alloc = all_allocated;
  queued = true;
  copied = true;
  io = good_io;
}

-- The game stores a value, and the worker writes it.
abbrev first : Registry
first = started (load_of []) dir no_files

abbrev stored : Registry
stored = (zombie_registry_direct_put dir env (some lang) (some two) first).0

abbrev taken : Registry
taken = worker_take stored

abbrev written : Registry
written = worker_finish dir env taken

lang_job : taken.busy ≡ some (key_job lang (put two))
unfolding worker_take take_job zombie_registry_direct_put put_value is_value pref_value loaded
    pref_load load_dir load_names set_and_persist pref_set is_storable store_value add_entry
    pref_grow pref_persist_current_key persist_entry pref_write_entry settle entry_at append_entry
    find_from pref_find value_at str_eq enqueue_key match_from merge_or_append has_nul
lang_job = refl

written_files :
    written.files
    ≡ put_file (path_of dir lang tmp) none (
        put_file
          (path_of dir lang dat)
          (some two)
          (put_file (path_of dir lang tmp) (some two) no_files))
unfolding worker_take take_job zombie_registry_direct_put put_value is_value pref_value loaded
    pref_load load_dir load_names set_and_persist pref_set is_storable store_value add_entry
    pref_grow pref_persist_current_key persist_entry pref_write_entry settle entry_at append_entry
    find_from pref_find value_at str_eq enqueue_key match_from merge_or_append has_nul worker_finish
    finish_job pref_io_process process_op pref_write_key_value_now write_paths write_tmp rotate_file
    install_file rename_file remove_file put_file hex_bytes hex_digit pref_path_for_key
written_files = refl

abbrev final_names : List Str
final_names = (hex_bytes lang ++ tmp) ∷ (hex_bytes lang ++ dat) ∷ (hex_bytes lang ++ tmp) ∷ []

written_run : Reaches dir first written
unfolding worker_take take_job zombie_registry_direct_put put_value is_value pref_value loaded
    pref_load load_dir load_names set_and_persist pref_set is_storable store_value add_entry
    pref_grow pref_persist_current_key persist_entry pref_write_entry settle entry_at append_entry
    find_from pref_find value_at str_eq enqueue_key match_from merge_or_append has_nul
written_run =
    andthen (andthen (andthen here (direct_put env lang two refl lang_file refl)) (take refl))
      (finish env (key_job lang (put two)) [] lang_job good_io-IsFaultless refl no-IsListing)

final-IsListing : IsListing dir written.files final_names
final-IsListing =
    subst (λ (fs : Files). IsListing dir fs final_names) (sym written_files)
      (IsListing-put_file (hex_bytes lang ++ tmp) none _ _ (
        IsListing-put_file (hex_bytes lang ++ dat) (some two) _ _
          (IsListing-put_file (hex_bytes lang ++ tmp) (some two) no_files [] no-IsListing)))

no_values : (j : Str) → IsFileKey dir j → IsValue (card_of dir no_files j)
no_values j h = tt

drained : (written.queue ≡ []) × (written.busy ≡ none)
unfolding worker_take take_job zombie_registry_direct_put put_value is_value pref_value loaded
    pref_load load_dir load_names set_and_persist pref_set is_storable store_value add_entry
    pref_grow pref_persist_current_key persist_entry pref_write_entry settle entry_at append_entry
    find_from pref_find value_at str_eq enqueue_key match_from merge_or_append has_nul worker_finish
    finish_job pref_io_process process_op pref_write_key_value_now write_paths write_tmp rotate_file
    install_file rename_file remove_file put_file hex_bytes hex_digit pref_path_for_key
drained = (refl, refl)

pref_load-Reaches_example :
    pref_value lang (pref_load (load_of final_names) dir written.files fresh)
    ≡ pref_value lang written.prefs
pref_load-Reaches_example =
    pref_load-Reaches (load_of []) (load_of final_names) [] final_names lang
      (load_of-IsFaultlessLoad []) refl no-IsListing (omega arith) no_values written_run drained.0
      drained.1 (load_of-IsFaultlessLoad final_names) refl final-IsListing (omega arith) lang_file

empty_first :
    IsSynced dir
      (record { prefs = record fresh { loaded = true }; queue = []; busy = none; files = no_files })
unfolding run_queue pref_value find_from pref_find value_at
empty_first = record {
  loaded = refl;
  table = record { distinct = tt; limits = tt; count = omega arith; room = omega arith };
  keys = tt;
  values = λ j v hj e. cc;
  agree = λ j hj. refl;
}

Step-IsSynced_example :
    IsSynced dir
      (zombie_registry_direct_put dir env (some lang) (some two) (record {
        prefs = record fresh { loaded = true };
        queue = [];
        busy = none;
        files = no_files;
      })).0
unfolding has_nul
Step-IsSynced_example = Step-IsSynced dir empty_first (direct_put env lang two refl lang_file refl)
