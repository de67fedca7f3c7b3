-- ===== src/Threads/Alone.antt =====
-- A call of reimpl/pthr.c that no other one overlaps: its steps, one after the other, make the whole
-- call of Threads.Objects.
use zombie_shooter_ps_vita_p.Prelude.{ℕ, ◌≡◌, ◌≢◌, false, none, [], ◌∷◌, arith}
use zombie_shooter_ps_vita_p.Threads.Objects.{
  Object, mutex, cond, rwlock, use_rwlock, rwlock_static_init, Use, unlock, rwunlock,
  pthread_mutex_unlock_soloader, pthread_rwlock_unlock_soloader, Threads, Answers,
  is_object_initialized, set_word, remember_object, forget_object, use_mutex, use_cond,
  destroy_object, mutex_static_init, cond_static_init, static_init,
}
use zombie_shooter_ps_vita_p.Threads.Race.{
  Action, destroys_it, uses, Job, check, set_stage, after_check, is_unlock, is_rwunlock, kind_for,
  is_rwlock, after_init, use_now, after_failure, step_stage, race_step, run_race,
}

-- Six steps are the most that a call makes.
abbrev run_alone : Job → Threads → Threads
run_alone j t =
    (run_race (λ i. j) (0 ∷ 0 ∷ 0 ∷ 0 ∷ 0 ∷ 0 ∷ [])
      (record { threads = t; stage = λ i. check })).threads

abbrev job_for : Object → Action → ℕ → Answers → Job
job_for o act a r = record { object = o; attr = none; address = a; action = act; answers = r }

module _ (a : ℕ) (nz : a ≢ 0) (r : Answers) (t : Threads) where
  run_alone-use_mutex :
      (u : Use)
      → is_unlock u ≡ false
      → is_rwunlock u ≡ false
      → run_alone (job_for mutex (uses u) a r) t ≡ (use_mutex u a r t).0
  unfolding run_race race_step step_stage set_stage after_check kind_for is_rwlock after_init
      use_now after_failure is_object_initialized set_word remember_object use_mutex
      mutex_static_init static_init
  run_alone-use_mutex u n m = ground arith

  run_alone-use_cond :
      (u : Use)
      → is_unlock u ≡ false
      → is_rwunlock u ≡ false
      → run_alone (job_for cond (uses u) a r) t ≡ (use_cond u a r t).0
  unfolding run_race race_step step_stage set_stage after_check kind_for is_rwlock after_init
      use_now after_failure is_object_initialized set_word remember_object use_cond cond_static_init
      static_init
  run_alone-use_cond u n m = ground arith

  run_alone-use_rwlock :
      (u : Use)
      → is_unlock u ≡ false
      → is_rwunlock u ≡ false
      → run_alone (job_for rwlock (uses u) a r) t ≡ (use_rwlock u a r t).0
  unfolding run_race race_step step_stage set_stage after_check kind_for is_rwlock after_init
      use_now after_failure is_object_initialized set_word remember_object use_rwlock
      rwlock_static_init
  run_alone-use_rwlock u n m = ground arith

  run_alone-destroy_object :
      (o : Object) → run_alone (job_for o destroys_it a r) t ≡ (destroy_object o a r t).0
  unfolding run_race race_step step_stage set_stage after_check is_object_initialized set_word
      forget_object destroy_object
  run_alone-destroy_object o = ground arith

  run_alone-pthread_mutex_unlock_soloader :
      run_alone (job_for mutex (uses unlock) a r) t ≡ (pthread_mutex_unlock_soloader a r t).0
  unfolding run_race race_step step_stage set_stage after_check is_unlock use_now
      is_object_initialized pthread_mutex_unlock_soloader
  run_alone-pthread_mutex_unlock_soloader = ground arith

  run_alone-pthread_rwlock_unlock_soloader :
      run_alone (job_for rwlock (uses rwunlock) a r) t ≡ (pthread_rwlock_unlock_soloader a r t).0
  unfolding run_race race_step step_stage set_stage after_check is_unlock is_rwunlock use_now
      is_object_initialized pthread_rwlock_unlock_soloader
  run_alone-pthread_rwlock_unlock_soloader = ground arith
