-- ===== src/Registry/Tests.antt =====
-- Runs of the registry on concrete tables, queues and files.
mod Run
use zombie_shooter_ps_vita_p.Prelude.{
  ℕ, ◌≡◌, ◌≢◌, ◌⊎◌, ◌↔◌, ◌≤◌, ◌<◌, refl, Bool, true, false, Option, none, some, List, [], ◌∷◌, ◌++◌,
  length, if◌then◌else◌, str_eq, Bool-cases, inl, inr, arith, ◌∙◌, sym,
}
use zombie_shooter_ps_vita_p.Registry.Table.{
  Str, PrefEntry, Prefs, Alloc, max_key, max_value, max_count, pref_set, pref_remove_key,
  pref_value,
}
use zombie_shooter_ps_vita_p.Registry.Table.Methods.{
  IsWellFormed, pref_set-IsWellFormed, pref_value-pref_set, pref_set-accepts,
  pref_value-pref_remove_key,
}
use zombie_shooter_ps_vita_p.Registry.Table.Laws.{lookup}
use zombie_shooter_ps_vita_p.Registry.FileName.{
  dat, tmp, bak, hex_bytes, pref_path_for_key, pref_key_from_filename, pref_generated_filename,
}
use zombie_shooter_ps_vita_p.Registry.FileName.RoundTrip.{
  pref_key_from_filename-hex_bytes, pref_path_for_key-injective,
}
use zombie_shooter_ps_vita_p.Registry.Queue.{
  KeyOp, put, delete, op_value, key_job, clear_job, enqueue_key, enqueue_clear, run_job, run_queue,
  Card, PrefIoJob,
}
use zombie_shooter_ps_vita_p.Registry.Queue.Coalesce.{
  run_queue-enqueue_key, enqueue_key-append, enqueue_clear-append,
}
use zombie_shooter_ps_vita_p.Registry.Files.{
  Files, WriteFaults, DeleteFaults, ClearFaults, IoFaults, put_file, pref_write_key_value_now,
  pref_io_process, path_size,
}
use zombie_shooter_ps_vita_p.Registry.Files.Atomic.{
  WriteResult, path_of, pref_write_key_value_now-atomic, pref_write_key_value_now-elsewhere,
  slash_prefix,
}
use zombie_shooter_ps_vita_p.Registry.Files.Process.{
  card_of, IsFileKey, IsFaultless, IsListing, contains, card_of-pref_io_process,
}
use zombie_shooter_ps_vita_p.Registry.Load.{LoadFaults, pref_load, pref_read_value_file}
use zombie_shooter_ps_vita_p.Registry.Load.Restart.{fresh, IsFaultlessLoad, pref_value-pref_load}
use zombie_shooter_ps_vita_p.Registry.Load.Shape.{pref_load-IsWellFormed}
use zombie_shooter_ps_vita_p.Registry.Api.{
  Registry, Env, zombie_registry_direct_put, prefs_remove, worker_take, worker_finish,
}
use zombie_shooter_ps_vita_p.Registry.Api.Sync.{IsSynced}
use zombie_shooter_ps_vita_p.Registry.Api.Reach.{
  Step, Reaches, started, Step-IsSynced, pref_load-Reaches,
}

abbrev pub lang : Str
lang = b'l' ∷ []

abbrev pub volume : Str
volume = b'v' ∷ []

abbrev pub one : Str
one = b'1' ∷ []

abbrev pub two : Str
two = b'2' ∷ []

abbrev pub dir : Str
dir = b's' ∷ []

abbrev pub all_allocated : Alloc
all_allocated = record { value_copy = true; key_copy = true; table = true }

abbrev one_entry : Prefs
one_entry = record {
  entries = record { key = lang; value = one } ∷ [];
  capacity = 32;
  loaded = true;
  dirty = false;
}

one_entry-IsWellFormed : IsWellFormed one_entry
unfolding lookup
one_entry-IsWellFormed = record {
  distinct = (refl, tt);
  limits = (omega arith, omega arith, omega arith, tt);
  count = omega arith;
  room = omega arith;
}

pref_path_for_key-injective_example : lang ≡ lang
unfolding pref_path_for_key
pref_path_for_key-injective_example =
    pref_path_for_key-injective dir path_size lang lang dat (path_of dir lang dat)
      (omega arith, omega arith, tt) (omega arith, omega arith, tt) refl refl

-- Two writes and a deletion, with one clear among them.
abbrev pub some_jobs : List PrefIoJob
some_jobs = key_job lang (put one) ∷ clear_job ∷ key_job volume delete ∷ []

abbrev empty_card : Card
empty_card j = none

run_queue-enqueue_key_example :
    run_queue (enqueue_key lang (put two) some_jobs) empty_card volume
    ≡ (if str_eq lang volume then op_value (put two) else run_queue some_jobs empty_card volume)
run_queue-enqueue_key_example = run_queue-enqueue_key lang volume (put two) some_jobs empty_card
