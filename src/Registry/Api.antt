-- ===== src/Registry/Api.antt =====
-- preferences_jni.inc and the end of preferences_store.inc: what the game calls. Each function
-- runs under pref_lock, so it is one step of the state.
pub mod Sync
pub mod Worker
pub mod Reach
use mathlib.Core.Option
use zombie_shooter_ps_vita_p.Prelude.{
  ℕ, Bool, true, false, not, ◌&&◌, ◌||◌, Option, none, some, List, [], ◌∷◌, ◌++◌, map,
  if◌then◌else◌, str_eq,
}
use zombie_shooter_ps_vita_p.Registry.Table.{
  Str, PrefEntry, Prefs, Alloc, pref_find, pref_set, pref_remove_key, pref_free_all, pref_value,
  entry_at,
}
use zombie_shooter_ps_vita_p.Registry.Queue.{
  PrefIoJob, KeyOp, put, delete, enqueue_key, enqueue_clear,
}
use zombie_shooter_ps_vita_p.Registry.Files.{
  Files, IoFaults, pref_write_key_value_now, pref_delete_key_file_now, pref_clear_files_now,
  pref_io_process,
}
use zombie_shooter_ps_vita_p.Registry.Load.{LoadFaults, pref_load}

-- `busy` is `j` of pref_io_worker_main: the job that it has taken from the queue and not finished.
pub record Registry : Type 0 where
  pub prefs : Prefs
  pub queue : List PrefIoJob
  pub busy : Option PrefIoJob
  pub files : Files

-- The outcomes of the calls that one function makes. `queued` says whether the worker runs and a
-- job could be allocated, `copied` whether the value that is returned could.
pub record Env : Type 0 where
  pub load : LoadFaults
  pub alloc : Alloc
  pub queued : Bool
  pub copied : Bool
  pub io : IoFaults

-- The start of a round of pref_io_worker_main, under its mutex.
unfoldable pub take_job : List PrefIoJob → Registry → Registry
take_job [] r = r
take_job (j ∷ q) r = record r { queue = q; busy = some j }

unfoldable pub worker_take : Registry → Registry
worker_take r = take_job r.queue r

module _ (dir : Str) where
  unfoldable pub loaded : Env → Registry → Registry
  loaded env r = record r { prefs = pref_load env.load dir r.files r.prefs }

  unfoldable pub pref_write_entry : Env → PrefEntry → Registry → Registry × Bool
  pref_write_entry env e r =
      if env.queued
      then (record r { queue = enqueue_key e.key (put e.value) r.queue }, true)
      else (let (fs, ok) = pref_write_key_value_now env.io.write dir e.key e.value r.files in
          (record r { files = fs }, ok))

  unfoldable pub pref_delete_key_file : Env → Str → Registry → Registry × Bool
  pref_delete_key_file env k r =
      if env.queued
      then (record r { queue = enqueue_key k delete r.queue }, true)
      else (let (fs, ok) = pref_delete_key_file_now env.io.remove dir k r.files in
          (record r { files = fs }, ok))

  unfoldable pub pref_clear_files : Env → Registry → Registry × Bool
  pref_clear_files env r =
      if env.queued
      then (record r { queue = enqueue_clear r.queue }, true)
      else (let (fs, ok) = pref_clear_files_now env.io.clear dir r.files in
          (record r { files = fs }, ok))

  -- `if (ok) pref_dirty = 0`
  unfoldable pub settle : Registry × Bool → Registry × Bool
  settle (r, ok) = ((if ok then record r { prefs = record r.prefs { dirty = false } } else r), ok)

  unfoldable pub persist_entry : Env → Option PrefEntry → Registry → Registry × Bool
  persist_entry env none r = (r, false)
  persist_entry env (some e) r = settle (pref_write_entry env e r)

  unfoldable pub pref_persist_current_key : Env → Str → Registry → Registry × Bool
  pref_persist_current_key env k r =
      persist_entry env (entry_at r.prefs.entries (pref_find k r.prefs)) r

  -- pref_set, and pref_persist_current_key if it returned 1.
  unfoldable pub set_and_persist : Env → Str → Str → Registry → Registry × Bool
  set_and_persist env k v r =
      let (s, ok) = pref_set env.alloc k v r.prefs in
      if ok
      then pref_persist_current_key env k (record r { prefs = s })
      else (record r { prefs = s }, false)

  unfoldable pub is_value : Str → Option Str → Bool
  is_value v none = false
  is_value v (some w) = str_eq w v

  -- A value that is there already is not written again.
  unfoldable pub put_value : Env → Str → Str → Registry → Registry × Bool
  put_value env k v r =
      if is_value v (pref_value k r.prefs) then (r, true) else set_and_persist env k v r

  unfoldable pub zombie_registry_direct_put :
      Env → Option Str → Option Str → Registry → Registry × Bool
  zombie_registry_direct_put env (some k) (some v) r = put_value env k v (loaded env r)
  zombie_registry_direct_put env none _ r = (r, false)
  zombie_registry_direct_put env (some k) none r = (r, false)

  unfoldable pub zombie_registry_direct_get : Env → Option Str → Registry → Registry × Option Str
  zombie_registry_direct_get env none r = (r, none)
  zombie_registry_direct_get env (some k) r =
      let r' = loaded env r in (r', (if env.copied then pref_value k r'.prefs else none))

  -- From the test `x >= 0` on.
  unfoldable pub remove_at : Env → Str → Option ℕ → Registry → Registry × Bool
  remove_at env k none r = (r, true)
  remove_at env k (some _) r =
      settle (pref_delete_key_file env k (record r { prefs = (pref_remove_key k r.prefs).0 }))

  unfoldable pub remove_value : Env → Str → Registry → Registry × Bool
  remove_value env k r = remove_at env k (pref_find k r.prefs) r

  -- A null value removes the key.
  unfoldable pub prefs_put_string : Env → Option Str → Option Str → Registry → Registry
  prefs_put_string env none v r = r
  prefs_put_string env (some k) (some v) r = (put_value env k v (loaded env r)).0
  prefs_put_string env (some k) none r = (remove_value env k (loaded env r)).0

  unfoldable pub prefs_remove : Env → Option Str → Registry → Registry
  prefs_remove env none r = r
  prefs_remove env (some k) r = (remove_value env k (loaded env r)).0

  unfoldable pub prefs_clear : Env → Registry → Registry
  prefs_clear env r =
      let (r', ok) = pref_clear_files env (loaded env r) in
      record r' { prefs = record (pref_free_all r'.prefs) { dirty = not ok } }

  unfoldable pub prefs_contains : Env → Option Str → Registry → Registry × Bool
  prefs_contains env none r = (r, false)
  prefs_contains env (some k) r =
      let r' = loaded env r in (r', elim (pref_find k r'.prefs) [ some _ ↦ true | none ↦ false ])

  -- The fallback of the caller is returned for a null key, a missing one, and if the value cannot be
  -- copied.
  unfoldable pub prefs_get_string : Env → Option Str → Str → Registry → Registry × Str
  prefs_get_string env none fallback r = (r, fallback)
  prefs_get_string env (some k) fallback r =
      let r' = loaded env r in
      (r', (if env.copied then Option.get_or (pref_value k r'.prefs) fallback else fallback))

  unfoldable pub pref_save : Env → Registry → Registry × Bool
  pref_save env r = let r' = loaded env r in (r', not r'.prefs.dirty)

  -- The rest of the round, outside the mutex: pref_io_process, and the job is freed.
  unfoldable pub finish_job : Env → Option PrefIoJob → Registry → Registry
  finish_job env none r = r
  finish_job env (some j) r = record r {
    busy = none;
    files = (pref_io_process env.io dir j r.files).0;
  }

  unfoldable pub worker_finish : Env → Registry → Registry
  worker_finish env r = finish_job env r.busy r
