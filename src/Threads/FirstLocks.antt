-- ===== src/Threads/FirstLocks.antt =====
-- Where two first locks of a mutex race in reimpl/pthr.c.
use zombie_shooter_ps_vita_p.Prelude.{
  ℕ, ◌≡◌, refl, true, false, none, List, [], ◌∷◌, ◌==◌, if◌then◌else◌, arith,
}
use zombie_shooter_ps_vita_p.Threads.Objects.{
  mutex, lock, init, apply, Threads, static_kind, has_object, is_object_initialized, set_word,
  remember_object,
}
use zombie_shooter_ps_vita_p.Threads.Race.{
  uses, Job, check, done, set_stage, after_check, is_unlock, is_rwunlock, kind_for, is_rwlock,
  after_init, use_now, step_stage, race_step, run_race,
}

-- Two first locks of a mutex, of which neither has reached the table when the other looks.
abbrev pub lock_job : ℕ → ℕ → Job
lock_job a p = record {
  object = mutex;
  attr = none;
  address = a;
  action = uses lock;
  answers = record { ptr = p; init_code = 0; code = 0 };
}

abbrev pub two_locks : ℕ → ℕ → ℕ → ℕ → Job
two_locks a p q i = if i == 0 then lock_job a p else lock_job a q

abbrev pub both_look : List ℕ
both_look = 0 ∷ 1 ∷ 0 ∷ 0 ∷ 0 ∷ 0 ∷ 0 ∷ 1 ∷ 1 ∷ 1 ∷ 1 ∷ 1 ∷ []

-- A mutex is not in the table, and two threads lock it. Both look at the table, then one finishes its
-- call and then the other; their initializations succeed. Each makes a mutex of the Vita and locks
-- its own, so that the two locks exclude nothing.
pub run_race-two_locks :
    (a p q : ℕ) (t : Threads)
    → has_object a t.objects ≡ false
    → let s = run_race (two_locks a p q) both_look (record { threads = t; stage = λ i. check }) in
      (s.stage 0 ≡ done p)
      × (s.stage 1 ≡ done q)
      × (s.threads.calls
          ≡ apply lock q
            ∷ init mutex (static_kind p) q
            ∷ apply lock p
            ∷ init mutex (static_kind (t.word a)) p
            ∷ t.calls)
unfolding run_race race_step step_stage set_stage after_check is_unlock is_rwunlock kind_for
    is_rwlock after_init use_now is_object_initialized set_word remember_object
run_race-two_locks a p q t absent =
    let self : (a == a) ≡ true = ground arith in rw (absent, self) (refl, refl, refl)
