-- ===== src/Registry/Api/Worker.antt =====
-- The worker's rounds keep the table and the files in step.
use mathlib.Core.Option
use zombie_shooter_ps_vita_p.Prelude.{◌≡◌, refl, sym, ◌∙◌, subst, Option, none, some, List, [], ◌∷◌}
use zombie_shooter_ps_vita_p.Registry.Table.{Str}
use zombie_shooter_ps_vita_p.Registry.Queue.{
  PrefIoOp, io_write, io_delete, io_clear, PrefIoJob, run_job, run_queue,
}
use zombie_shooter_ps_vita_p.Registry.Queue.Coalesce.{run_queue_local}
use zombie_shooter_ps_vita_p.Registry.Queue.Keys.{JobKey, EveryKey}
use zombie_shooter_ps_vita_p.Registry.Files.{Files, IoFaults, pref_io_process}
use zombie_shooter_ps_vita_p.Registry.Files.Process.{
  card_of, IsFileKey, IsFaultless, IsListing, IsRunnable, card_of-pref_io_process,
}
use zombie_shooter_ps_vita_p.Registry.Api.{
  Registry, Env, take_job, worker_take, finish_job, worker_finish,
}
use zombie_shooter_ps_vita_p.Registry.Api.Sync.{IsSynced}

module _ (dir : Str) where
  taken-IsSynced :
      (q : List PrefIoJob) {r : Registry}
      → r.queue ≡ q
      → r.busy ≡ none
      → IsSynced dir r
      → IsSynced dir (take_job q r)
  unfolding take_job
  taken-IsSynced [] e idle sync = sync
  taken-IsSynced (a ∷ q) {r} e idle sync = record {
    loaded = sync.loaded;
    table = sync.table;
    keys = rw (idle, e) at sync.keys;
    values = sync.values;
    agree = λ j hj. rw (idle, e) at sync.agree j hj;
  }

  pub take-IsSynced : {r : Registry} → IsSynced dir r → r.busy ≡ none → IsSynced dir (worker_take r)
  unfolding worker_take
  take-IsSynced {r} sync idle = taken-IsSynced r.queue refl idle sync

  runnable :
      (f : IoFaults) (fs : Files) (names : List Str) (op : PrefIoOp) (key : Option Str)
      → f.clear.names ≡ some names
      → IsListing dir fs names
      → JobKey (IsFileKey dir) op key
      → IsRunnable dir f fs op key
  runnable f fs names io_clear key n listed h = (names, n, listed)
  runnable f fs names io_write (some k) n listed h = h
  runnable f fs names io_write none n listed h = h
  runnable f fs names io_delete (some k) n listed h = h
  runnable f fs names io_delete none n listed h = h

  finished-IsSynced :
      (env : Env) (a : PrefIoJob) (names : List Str) {r : Registry}
      → r.busy ≡ some a
      → IsFaultless env.io (Option.get_or a.value [])
      → env.io.clear.names ≡ some names
      → IsListing dir r.files names
      → IsSynced dir r
      → IsSynced dir (finish_job dir env (some a) r)
  unfolding finish_job run_queue
  finished-IsSynced env a names {r} b ok n listed sync =
      let keys : EveryKey (IsFileKey dir) (a ∷ r.queue) = rw b at sync.keys in
      let can = runnable env.io r.files names a.op a.key n listed keys.0 in
      record {
        loaded = sync.loaded;
        table = sync.table;
        keys = keys.1;
        values = sync.values;
        agree = λ j hj.
            run_queue_local r.queue (card_of dir (pref_io_process env.io dir a r.files).0)
              (run_job a (card_of dir r.files)) j
              (card_of-pref_io_process env.io dir a r.files j ok can hj)
            ∙ (rw b at sync.agree j hj);
      }

  pub finish-IsSynced :
      (env : Env) (a : PrefIoJob) (names : List Str) {r : Registry}
      → IsSynced dir r
      → r.busy ≡ some a
      → IsFaultless env.io (Option.get_or a.value [])
      → env.io.clear.names ≡ some names
      → IsListing dir r.files names
      → IsSynced dir (worker_finish dir env r)
  unfolding worker_finish
  finish-IsSynced env a names {r} sync b ok n listed =
      subst (λ (x : Option PrefIoJob). IsSynced dir (finish_job dir env x r)) (sym b)
        (finished-IsSynced env a names b ok n listed sync)
