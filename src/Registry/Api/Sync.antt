-- ===== src/Registry/Api/Sync.antt =====
-- The table and the files agree, once the worker has run: for every sequence of calls of the game
-- and rounds of the worker.
use zombie_shooter_ps_vita_p.Prelude.{
  ℕ, ◌≡◌, refl, sym, ap, ◌∙◌, subst, Bool, true, false, Option, none, some, List, ◌∷◌, arith,
  if◌then◌else◌, str_eq, str_eq_refl, inl, inr, if_cases,
}
use zombie_shooter_ps_vita_p.Registry.Table.{
  Str, PrefEntry, Prefs, pref_find, pref_set, pref_remove_key, pref_free_all, pref_value, value_at,
}
use zombie_shooter_ps_vita_p.Registry.Table.Laws.{
  lookup, pref_find-position, pref_value-lookup, entry_at-position,
}
use zombie_shooter_ps_vita_p.Registry.Table.Methods.{
  IsWellFormed, pref_set-IsWellFormed, pref_value-pref_set, pref_value-pref_remove_key,
  pref_set_loaded, pref_remove_key_loaded,
}
use zombie_shooter_ps_vita_p.Registry.FileName.{has_nul}
use zombie_shooter_ps_vita_p.Registry.Queue.{
  PrefIoJob, KeyOp, put, delete, op_value, enqueue_key, enqueue_clear, Card, run_job, run_queue,
}
use zombie_shooter_ps_vita_p.Registry.Queue.Coalesce.{run_queue-enqueue_key, enqueue_clear-append}
use zombie_shooter_ps_vita_p.Registry.Queue.Keys.{
  EveryKey, EveryKey-enqueue_key, EveryKey-enqueue_clear,
}
use zombie_shooter_ps_vita_p.Registry.Files.Process.{card_of, IsFileKey}
use zombie_shooter_ps_vita_p.Registry.Load.Shape.{same_table, load_again}
use zombie_shooter_ps_vita_p.Registry.Api.{
  Registry, Env, loaded, settle, persist_entry, pref_persist_current_key, set_and_persist, is_value,
  put_value, remove_at, remove_value, pref_write_entry, pref_delete_key_file, pref_clear_files,
  zombie_registry_direct_put, prefs_put_string, prefs_remove, prefs_clear,
}

-- The jobs that are not finished, the one in the worker first.
abbrev pub pending_jobs : Option PrefIoJob → List PrefIoJob → List PrefIoJob
pending_jobs none q = q
pending_jobs (some a) q = a ∷ q

module _ (dir : Str) where
  -- What the files will hold once the worker has finished every job.
  abbrev pub final_card : Registry → Card
  final_card r = run_queue (pending_jobs r.busy r.queue) (card_of dir r.files)

  pub record IsSynced (r : Registry) : Type 0 where
    pub loaded : r.prefs.loaded ≡ true
    pub table : IsWellFormed r.prefs
    pub keys : EveryKey (IsFileKey dir) (pending_jobs r.busy r.queue)
    pub values : (j v : Str) → IsFileKey dir j → pref_value j r.prefs ≡ some v → has_nul v ≡ false
    pub agree : (j : Str) → IsFileKey dir j → final_card r j ≡ pref_value j r.prefs

  pending_enqueue :
      (busy : Option PrefIoJob) (k j : Str) (o : KeyOp) (q : List PrefIoJob) (c : Card)
      → run_queue (pending_jobs busy (enqueue_key k o q)) c j
        ≡ (if str_eq k j then op_value o else run_queue (pending_jobs busy q) c j)
  unfolding run_queue
  pending_enqueue none k j o q c = run_queue-enqueue_key k j o q c
  pending_enqueue (some a) k j o q c = run_queue-enqueue_key k j o q (run_job a c)

  pending_keys :
      (busy : Option PrefIoJob) (q q' : List PrefIoJob)
      → EveryKey (IsFileKey dir) (pending_jobs busy q)
      → (EveryKey (IsFileKey dir) q → EveryKey (IsFileKey dir) q')
      → EveryKey (IsFileKey dir) (pending_jobs busy q')
  pending_keys none q q' h step = step h
  pending_keys (some a) q q' h step = (h.0, step h.1)

  -- One key of the table changes, and a job says so.
  change_key :
      {r : Registry} (k : Str) (o : KeyOp) (s : Prefs)
      → IsSynced r
      → IsFileKey dir k
      → IsWellFormed s
      → s.loaded ≡ true
      → ((v : Str) → op_value o ≡ some v → has_nul v ≡ false)
      → ((j : Str) → pref_value j s ≡ (if str_eq k j then op_value o else pref_value j r.prefs))
      → IsSynced (record r { prefs = s; queue = enqueue_key k o r.queue })
  change_key {r} k o s sync hk w l nul h = record {
    loaded = l;
    table = w;
    keys =
        pending_keys r.busy r.queue _ sync.keys
          (EveryKey-enqueue_key (IsFileKey dir) k o r.queue hk);
    values = λ j v hj e. ground (arith, h j, sync.values j v hj, nul v);
    agree = λ j hj.
        pending_enqueue r.busy k j o r.queue (card_of dir r.files)
        ∙ ap (λ t. if str_eq k j then op_value o else t) (sync.agree j hj)
        ∙ sym (h j);
  }

  written :
      (env : Env) (e : PrefEntry) (r : Registry)
      → env.queued ≡ true
      → (settle dir (pref_write_entry dir env e r)).0 ≡ record r {
        prefs = record r.prefs { dirty = false };
        queue = enqueue_key e.key (put e.value) r.queue;
      }
  unfolding settle pref_write_entry
  written env e r q = rw q

  persist_queued :
      (env : Env) (k v : Str) (r : Registry)
      → env.queued ≡ true
      → pref_value k r.prefs ≡ some v
      → (pref_persist_current_key dir env k r).0 ≡ record r {
        prefs = record r.prefs { dirty = false };
        queue = enqueue_key k (put v) r.queue;
      }
  unfolding pref_persist_current_key persist_entry
  persist_queued env k v r q h =
      let found : lookup k r.prefs.entries ≡ some v = sym (pref_value-lookup k r.prefs) ∙ h in
      elim (entry_at-position k r.prefs.entries) [
        | inl gone ↦ cc
        | inr (e, there, key, value) ↦
            let same : e.value ≡ v = cc in
            rw (pref_find-position k r.prefs, there)
              (written env e r q
                ∙ ap
                    (λ (i : Str). record r {
                      prefs = record r.prefs { dirty = false };
                      queue = enqueue_key i (put e.value) r.queue;
                    })
                    key
                ∙ ap
                    (λ (w : Str). record r {
                      prefs = record r.prefs { dirty = false };
                      queue = enqueue_key k (put w) r.queue;
                    })
                    same)
      ]

  value_without_dirty :
      (j : Str) (d : Bool) (s : Prefs) → pref_value j (record s { dirty = d }) ≡ pref_value j s
  unfolding pref_value pref_find
  value_without_dirty j d s = refl

  stored-IsSynced :
      (env : Env) (k v : Str) {r : Registry} (s : Prefs)
      → IsSynced r
      → env.queued ≡ true
      → IsFileKey dir k
      → has_nul v ≡ false
      → IsWellFormed s
      → s.loaded ≡ true
      → ((j : Str) → pref_value j s ≡ (if str_eq k j then some v else pref_value j r.prefs))
      → IsSynced (pref_persist_current_key dir env k (record r { prefs = s })).0
  stored-IsSynced env k v {r} s sync q hk nul w l h =
      let own : pref_value k s ≡ some v = ground (arith, h k, str_eq_refl k) in
      subst IsSynced (sym (persist_queued env k v (record r { prefs = s }) q own)) (
        change_key k (put v) (record s { dirty = false }) sync hk (same_table s.loaded false w) l
          (λ u e. ground arith) (λ j. value_without_dirty j false s ∙ h j))

  put_value-IsSynced :
      (env : Env) (k v : Str) {r : Registry}
      → IsSynced r
      → env.queued ≡ true
      → IsFileKey dir k
      → has_nul v ≡ false
      → IsSynced (put_value dir env k v r).0
  unfolding put_value set_and_persist
  put_value-IsSynced env k v {r} sync q hk nul =
      let w = pref_set-IsWellFormed env.alloc k v sync.table in
      let l = pref_set_loaded env.alloc k v r.prefs ∙ sync.loaded in
      if_cases (λ (x : Registry × Bool). IsSynced x.0) (is_value dir v (pref_value k r.prefs))
        (λ same. sync)
        (λ other.
          if_cases (λ (x : Registry × Bool). IsSynced x.0) (pref_set env.alloc k v r.prefs).1
            (λ ok.
              stored-IsSynced env k v (pref_set env.alloc k v r.prefs).0 sync q hk nul w l (λ j.
                elim (pref_value-pref_set env.alloc k v j sync.table) [
                  | inl (done, e) ↦ e
                  | inr (failed, e) ↦ cc
                ]))
            (λ refused. elim (pref_value-pref_set env.alloc k v k sync.table) [
              | inl (done, e) ↦ cc
              | inr (failed, e) ↦
                  subst (λ (t : Prefs). IsSynced (record r { prefs = t })) (sym e) sync
            ]))

  deleted :
      (env : Env) (k : Str) (r : Registry)
      → env.queued ≡ true
      → (settle dir (pref_delete_key_file dir env k r)).0 ≡ record r {
        prefs = record r.prefs { dirty = false };
        queue = enqueue_key k delete r.queue;
      }
  unfolding settle pref_delete_key_file
  deleted env k r q = rw q

  remove_at-IsSynced :
      (env : Env) (k : Str) (x : Option ℕ) {r : Registry}
      → IsSynced r
      → env.queued ≡ true
      → IsFileKey dir k
      → IsSynced (remove_at dir env k x r).0
  unfolding remove_at
  remove_at-IsSynced env k none sync q hk = sync
  remove_at-IsSynced env k (some x) {r} sync q hk =
      let s = (pref_remove_key k r.prefs).0 in
      let l = pref_remove_key_loaded k r.prefs ∙ sync.loaded in
      let w = (pref_value-pref_remove_key k k sync.table).0 in
      subst IsSynced (sym (deleted env k (record r { prefs = s }) q)) (
        change_key k delete (record s { dirty = false }) sync hk (same_table s.loaded false w) l
          (λ u e. cc)
          (λ j. value_without_dirty j false s ∙ (pref_value-pref_remove_key k j sync.table).1))

  remove_value-IsSynced :
      (env : Env) (k : Str) {r : Registry}
      → IsSynced r
      → env.queued ≡ true
      → IsFileKey dir k
      → IsSynced (remove_value dir env k r).0
  unfolding remove_value
  remove_value-IsSynced env k {r} sync q hk =
      remove_at-IsSynced env k (pref_find k r.prefs) sync q hk

  pub loaded_same : (env : Env) {r : Registry} → IsSynced r → loaded dir env r ≡ r
  unfolding loaded
  loaded_same env {r} sync = rw (load_again env.load dir r.files r.prefs sync.loaded)

  pending_clear :
      (busy : Option PrefIoJob) (q : List PrefIoJob) (c : Card) (j : Str)
      → run_queue (pending_jobs busy (enqueue_clear q)) c j ≡ none
  unfolding run_queue
  pending_clear none q c j = (enqueue_clear-append j q c).0
  pending_clear (some a) q c j = (enqueue_clear-append j q (run_job a c)).0

  empty_value :
      (j : Str) (d : Bool) (s : Prefs)
      → pref_value j (record (pref_free_all s) { dirty = d }) ≡ none
  unfolding pref_value pref_find pref_free_all value_at
  empty_value j d s = refl

  empty_table : (d : Bool) (s : Prefs) → IsWellFormed (record (pref_free_all s) { dirty = d })
  unfolding pref_free_all
  empty_table d s = record { distinct = tt; limits = tt; count = omega arith; room = omega arith }

  emptied-IsSynced :
      {r : Registry}
      → IsSynced r
      → IsSynced (record r {
        prefs = record (pref_free_all r.prefs) { dirty = false };
        queue = enqueue_clear r.queue;
      })
  emptied-IsSynced {r} sync = record {
    loaded = unfold pref_free_all in sync.loaded;
    table = empty_table false r.prefs;
    keys =
        pending_keys r.busy r.queue _ sync.keys
          (λ h. EveryKey-enqueue_clear (IsFileKey dir) r.queue);
    values = λ j v hj e. cc (empty_value j false r.prefs);
    agree = λ j hj.
        pending_clear r.busy r.queue (card_of dir r.files) j ∙ sym (empty_value j false r.prefs);
  }

  cleared :
      (env : Env) (r : Registry)
      → env.queued ≡ true
      → loaded dir env r ≡ r
      → prefs_clear dir env r ≡ record r {
        prefs = record (pref_free_all r.prefs) { dirty = false };
        queue = enqueue_clear r.queue;
      }
  unfolding prefs_clear pref_clear_files
  cleared env r q l = rw (l, q)

  pub prefs_clear-IsSynced :
      (env : Env) {r : Registry} → IsSynced r → env.queued ≡ true → IsSynced (prefs_clear dir env r)
  prefs_clear-IsSynced env {r} sync q =
      subst IsSynced (sym (cleared env r q (loaded_same env sync))) (emptied-IsSynced sync)

  pub direct_put-IsSynced :
      (env : Env) (k v : Str) {r : Registry}
      → IsSynced r
      → env.queued ≡ true
      → IsFileKey dir k
      → has_nul v ≡ false
      → IsSynced (zombie_registry_direct_put dir env (some k) (some v) r).0
  unfolding zombie_registry_direct_put
  direct_put-IsSynced env k v sync q hk nul =
      rw (loaded_same env sync) (put_value-IsSynced env k v sync q hk nul)

  pub put_string-IsSynced :
      (env : Env) (k v : Str) {r : Registry}
      → IsSynced r
      → env.queued ≡ true
      → IsFileKey dir k
      → has_nul v ≡ false
      → IsSynced (prefs_put_string dir env (some k) (some v) r)
  unfolding prefs_put_string
  put_string-IsSynced env k v sync q hk nul =
      subst (λ (x : Registry). IsSynced (put_value dir env k v x).0) (sym (loaded_same env sync))
        (put_value-IsSynced env k v sync q hk nul)

  pub remove-IsSynced :
      (env : Env) (k : Str) {r : Registry}
      → IsSynced r
      → env.queued ≡ true
      → IsFileKey dir k
      → IsSynced (prefs_remove dir env (some k) r)
  unfolding prefs_remove
  remove-IsSynced env k sync q hk =
      subst (λ (x : Registry). IsSynced (remove_value dir env k x).0) (sym (loaded_same env sync))
        (remove_value-IsSynced env k sync q hk)
