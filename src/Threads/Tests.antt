-- ===== src/Threads/Tests.antt =====
-- Runs of the locks, of pthread_once_soloader and of attributes.
use zombie_shooter_ps_vita_p.Prelude.{
  ℕ, zero, suc, ◌≡◌, refl, true, false, none, ◌==◌, if◌then◌else◌, List, [], ◌∷◌, arith, inl,
}
use zombie_shooter_ps_vita_p.Threads.Objects.{
  forget_object, drop_object, mutex, cond, lock, unlock, apply, init, wait, normal, recursive,
  Threads, Answers, has_object, is_object_initialized, set_word, add_object, remember_object,
  static_kind, static_init, mutex_static_init, cond_static_init, use_mutex, wait_with,
  pthread_mutex_unlock_soloader, pthread_mutex_lock_soloader,
}
use zombie_shooter_ps_vita_p.Threads.Sound.{is_alive, IsSound, set_flag}
use zombie_shooter_ps_vita_p.Threads.Operations.{
  with_mutex, unlock_mutex, wait_for, destroy_it, run_operation, Event, run_event, run_events,
  touched, touched_all,
}
use zombie_shooter_ps_vita_p.Threads.Runs.{
  threads_init, no_flags, threads_init-IsSound, run_events-IsSound,
}
use zombie_shooter_ps_vita_p.Threads.Frame.{pthread_mutex_lock_soloader-full}
use zombie_shooter_ps_vita_p.Threads.Race.{
  Stage, Job, Race, check, act, destroying, done, destroys_it, race_step, run_race, step_stage,
  set_stage, after_check, use_now, is_unlock,
}
use zombie_shooter_ps_vita_p.Threads.Overlap.{IsCalm, logged, run_race-uses}
use zombie_shooter_ps_vita_p.Threads.FirstLocks.{lock_job, two_locks, both_look, run_race-two_locks}
use zombie_shooter_ps_vita_p.Threads.Once.{
  move, step_from, once_step, once_init, pthread_once_soloader,
}
use zombie_shooter_ps_vita_p.Threads.Order.{pthread_once_soloader-returned}
use zombie_shooter_ps_vita_p.Threads.Progress.{CanReturn, pthread_once_soloader-CanReturn}
use zombie_shooter_ps_vita_p.Threads.Attributes.{
  Attr, AttrAnswers, attr_static_init, pthread_attr_init_soloader, pthread_attr_destroy_soloader,
  pthread_attr_setdetachstate_soloader, pthread_attr_setstacksize_soloader, create_with,
  create_without, pthread_create_soloader,
}
use zombie_shooter_ps_vita_p.Threads.AttributeRuns.{
  is_attr_live, are_attr_legal, IsAttrSound, init_it, destroy_it, set_state, create_thread,
  AttrEvent, run_attr_operation, run_attr_event, run_attr_events, run_attr_events-IsAttrSound,
}

abbrev answers : ℕ → Answers
answers p = record { ptr = p; init_code = 0; code = 0 }

-- A recursive mutex at 8, a condition at 16 and a lock at 24.
abbrev words : ℕ → ℕ
words a = elim a [ suc (suc (suc (suc (suc (suc (suc (suc zero))))))) ↦ 0x4000 | _ ↦ 0 ]

abbrev start : Threads
start = threads_init words 2

abbrev session : List Event
session =
    record { operation = with_mutex lock 8; first = answers 100; second = answers 0 }
    ∷ record { operation = wait_for 16 8; first = answers 200; second = answers 300 }
    ∷ record { operation = unlock_mutex 8; first = answers 0; second = answers 0 }
    ∷ []

locked_once :
    (run_events session start).calls
    ≡ apply unlock 100
      ∷ wait 200 100
      ∷ init cond normal 200
      ∷ apply lock 100
      ∷ init mutex recursive 100
      ∷ []
unfolding run_events run_event run_operation use_mutex mutex_static_init cond_static_init
    static_init is_object_initialized has_object add_object remember_object set_word static_kind
    wait_with pthread_mutex_unlock_soloader
locked_once = refl

run_events-IsSound_example : IsSound (touched_all session no_flags start) (run_events session start)
unfolding touched set_flag run_events run_event run_operation use_mutex mutex_static_init
    cond_static_init static_init is_object_initialized has_object add_object remember_object
    set_word static_kind wait_with pthread_mutex_unlock_soloader is_alive
run_events-IsSound_example =
    run_events-IsSound session no_flags start (threads_init-IsSound words 2)
      ((refl, refl), (((refl, refl), (refl, refl)), (inl refl, tt)))

-- Two locks of the mutex at 8, and a thread that destroys the condition at 16, all in the middle.
abbrev locker : Job
locker = lock_job 8 300

abbrev destroyer : Job
destroyer = record {
  object = cond;
  attr = none;
  address = 16;
  action = destroys_it;
  answers = answers 0;
}

abbrev jobs : ℕ → Job
jobs (suc (suc zero)) = destroyer
jobs i = locker

abbrev stages : ℕ → Stage
stages zero = check
stages (suc zero) = act
stages (suc (suc zero)) = destroying
stages (suc (suc (suc i))) = check

abbrev both_in : Race
both_in = record {
  threads = record { objects = 8 ∷ 16 ∷ []; word = λ b. if b == 8 then 100 else 200; calls = [] };
  stage = stages;
}

both_in-IsCalm : (k : ℕ) → (jobs k).address ≡ 8 → IsCalm 100 (jobs k).action (both_in.stage k)
both_in-IsCalm (suc (suc zero)) e = absurd (omega arith)
both_in-IsCalm zero e = (refl, tt)
both_in-IsCalm (suc zero) e = (refl, tt)
both_in-IsCalm (suc (suc (suc k))) e = (refl, tt)

run_race-uses_example :
    let t = run_race jobs (2 ∷ 1 ∷ 2 ∷ 0 ∷ 2 ∷ []) both_in in
    ((run_race jobs (0 ∷ 0 ∷ []) t).stage 0 ≡ done 100)
    × ((race_step jobs 0 t).threads.calls ≡ apply lock 100 ∷ t.threads.calls)
unfolding has_object logged run_race race_step step_stage set_stage after_check
    is_object_initialized forget_object drop_object use_now is_unlock
run_race-uses_example =
    run_race-uses 8 100 jobs (2 ∷ 1 ∷ 2 ∷ 0 ∷ 2 ∷ []) both_in 0 lock (omega arith) (omega arith)
      (refl, refl) both_in-IsCalm refl refl

run_race-two_locks_example :
    let s =
      run_race (two_locks 8 100 200) both_look (record { threads = start; stage = λ i. check }) in
    (s.stage 0 ≡ done 100)
    × (s.stage 1 ≡ done 200)
    × (s.threads.calls
        ≡ apply lock 200
          ∷ init mutex (static_kind 100) 200
          ∷ apply lock 100
          ∷ init mutex (static_kind 0x4000) 100
          ∷ [])
unfolding has_object
run_race-two_locks_example = run_race-two_locks 8 100 200 start refl

abbrev full : Threads
full = record { objects = 8 ∷ 16 ∷ []; word = λ a. 0; calls = [] }

pthread_mutex_lock_soloader-full_example :
    (pthread_mutex_lock_soloader 24
      (answers 200)
      (pthread_mutex_lock_soloader 24 (answers 100) full).0).0.calls
    ≡ apply lock 200
      ∷ init mutex (static_kind 100) 200
      ∷ apply lock 100
      ∷ init mutex (static_kind 0) 100
      ∷ []
unfolding has_object
pthread_mutex_lock_soloader-full_example =
    pthread_mutex_lock_soloader-full 24 (answers 100) (answers 200) full (omega arith) refl refl
      refl refl

-- Thread 1 waits while thread 0 runs the initializer.
abbrev race : List ℕ
race = 0 ∷ 1 ∷ 0 ∷ 1 ∷ 1 ∷ 0 ∷ 1 ∷ 0 ∷ 1 ∷ []

pthread_once_soloader-returned_example :
    ((pthread_once_soloader race once_init).started ≡ 1)
    × ((pthread_once_soloader race once_init).completed ≡ 1)
unfolding pthread_once_soloader once_step step_from move
pthread_once_soloader-returned_example = pthread_once_soloader-returned race 1 refl

pthread_once_soloader-CanReturn_example :
    CanReturn 1 (pthread_once_soloader (0 ∷ 1 ∷ 0 ∷ 1 ∷ []) once_init)
pthread_once_soloader-CanReturn_example = pthread_once_soloader-CanReturn 1 (0 ∷ 1 ∷ 0 ∷ 1 ∷ [])

abbrev attr_answers : ℕ → AttrAnswers
attr_answers p = record { ptr = p; init_code = 0; local = 900; code = 0 }

abbrev attr_start : Attr
attr_start = record { magic = 0; real_ptr = 0; calls = [] }

abbrev attr_session : List AttrEvent
attr_session =
    record { operation = set_state 1; answers = attr_answers 100 }
    ∷ record { operation = create_thread 4 true 40 0; answers = attr_answers 200 }
    ∷ record { operation = create_thread 4 false 40 0; answers = attr_answers 200 }
    ∷ record { operation = destroy_it; answers = attr_answers 300 }
    ∷ record { operation = destroy_it; answers = attr_answers 300 }
    ∷ record { operation = init_it; answers = attr_answers 100 }
    ∷ []

attr_start-IsAttrSound : IsAttrSound attr_start
unfolding are_attr_legal
attr_start-IsAttrSound = record { live = λ m. absurd (omega arith); legal = refl }

run_attr_events-IsAttrSound_example : IsAttrSound (run_attr_events attr_session attr_start)
unfolding run_attr_event run_attr_operation attr_static_init pthread_attr_init_soloader
    pthread_attr_destroy_soloader pthread_attr_setdetachstate_soloader
    pthread_attr_setstacksize_soloader create_with create_without pthread_create_soloader
    is_attr_live
run_attr_events-IsAttrSound_example =
    run_attr_events-IsAttrSound attr_session attr_start attr_start-IsAttrSound (
      refl,
      refl,
      refl,
      (
        refl,
        refl,
        refl,
        (refl, refl, refl, (refl, refl, refl, (refl, refl, refl, (refl, refl, refl, tt)))),
      ),
    )
