-- ===== src/Threads/Operations.antt =====
-- A run of the game's calls of reimpl/pthr.c: each call is over before the next one starts.
use zombie_shooter_ps_vita_p.Prelude.{
  ℕ, ◌≡◌, true, false, Option, List, [], ◌∷◌, ◌==◌, ◌⊎◌, ◌||◌, if◌then◌else◌,
}
use zombie_shooter_ps_vita_p.Threads.Objects.{
  Object, Use, Threads, Answers, Result, has_object, cond_static_init, pthread_mutex_init_soloader,
  pthread_cond_init_soloader, pthread_rwlock_init_soloader, destroy_object, use_mutex,
  pthread_mutex_unlock_soloader, use_cond, use_rwlock, pthread_rwlock_unlock_soloader,
  pthread_cond_wait_soloader, pthread_cond_timedwait_soloader,
}
use zombie_shooter_ps_vita_p.Threads.Sound.{is_alive, Flags, set_flag}

pub data Operation : Type 0 where
  init_mutex : ℕ → Option ℕ → Operation
  init_cond init_rwlock : ℕ → Operation
  destroy_it : Object → ℕ → Operation
  with_mutex with_cond with_rwlock : Use → ℕ → Operation
  unlock_mutex unlock_rwlock : ℕ → Operation
  wait_for timedwait_for : ℕ → ℕ → Operation

-- `r` answers for the first object that a call initializes, `q` for the second.
unfoldable pub run_operation : Operation → Answers → Answers → Threads → Threads × Result
run_operation (init_mutex a attr) r q s = pthread_mutex_init_soloader a attr r s
run_operation (init_cond a) r q s = pthread_cond_init_soloader a r s
run_operation (init_rwlock a) r q s = pthread_rwlock_init_soloader a r s
run_operation (destroy_it o a) r q s = destroy_object o a r s
run_operation (with_mutex u a) r q s = use_mutex u a r s
run_operation (with_cond u a) r q s = use_cond u a r s
run_operation (with_rwlock u a) r q s = use_rwlock u a r s
run_operation (unlock_mutex a) r q s = pthread_mutex_unlock_soloader a r s
run_operation (unlock_rwlock a) r q s = pthread_rwlock_unlock_soloader a r s
run_operation (wait_for a m) r q s = pthread_cond_wait_soloader a m r q s
run_operation (timedwait_for a m) r q s = pthread_cond_timedwait_soloader a m r q s

-- The memory of a new object is none that lives.
abbrev pub IsFresh : Answers → Threads → Type 0
IsFresh r s = is_alive r.ptr s.calls ≡ false

-- Fresh memory, and an initialization that succeeds.
abbrev pub IsMade : Answers → Threads → Type 0
IsMade r s = IsFresh r s × (r.init_code ≡ 0)

-- The objects of the game after a call: `t` is the state that it leaves. A read-write lock counts
-- while the table has it, since its initialization may fail.
unfoldable pub touched : Operation → Threads → Flags → Flags
touched (init_mutex a attr) t g = set_flag a true g
touched (init_cond a) t g = set_flag a true g
touched (init_rwlock a) t g = set_flag a (has_object a t.objects) g
touched (destroy_it o a) t g = set_flag a (has_object a t.objects) g
touched (with_mutex u a) t g = set_flag a true g
touched (with_cond u a) t g = set_flag a true g
touched (with_rwlock u a) t g = set_flag a (has_object a t.objects) g
touched (unlock_mutex a) t g = g
touched (unlock_rwlock a) t g = g
touched (wait_for a m) t g = if a == 0 || m == 0 then g else set_flag m true (set_flag a true g)
touched (timedwait_for a m) t g =
    if a == 0 || m == 0 then g else set_flag m true (set_flag a true g)

-- What is asked of the library and of the game: the initialization of a mutex or a condition
-- succeeds, and the game unlocks a mutex that it has initialized or used and not destroyed since,
-- or one whose word is 0.
abbrev pub IsAllowed : Operation → Answers → Answers → Flags → Threads → Type 0
IsAllowed (init_mutex a attr) r q g s = IsMade r s
IsAllowed (init_cond a) r q g s = IsMade r s
IsAllowed (init_rwlock a) r q g s = IsFresh r s
IsAllowed (destroy_it o a) r q g s = Unit {0}
IsAllowed (with_mutex u a) r q g s = IsMade r s
IsAllowed (with_cond u a) r q g s = IsMade r s
IsAllowed (with_rwlock u a) r q g s = IsFresh r s
IsAllowed (unlock_mutex a) r q g s = (g a ≡ true) ⊎ (s.word a ≡ 0)
IsAllowed (unlock_rwlock a) r q g s = Unit {0}
IsAllowed (wait_for a m) r q g s = IsMade r s × IsMade q (cond_static_init a r s).0
IsAllowed (timedwait_for a m) r q g s = IsMade r s × IsMade q (cond_static_init a r s).0

pub record Event : Type 0 where
  pub operation : Operation
  pub first : Answers
  pub second : Answers

unfoldable pub run_event : Event → Threads → Threads
run_event e s = (run_operation e.operation e.first e.second s).0

unfoldable pub run_events : List Event → Threads → Threads
run_events [] s = s
run_events (e ∷ es) s = run_events es (run_event e s)

unfoldable pub touched_all : List Event → Flags → Threads → Flags
touched_all [] g s = g
touched_all (e ∷ es) g s = touched_all es (touched e.operation (run_event e s) g) (run_event e s)

abbrev pub AreAllowed : List Event → Flags → Threads → Type 0
AreAllowed [] g s = Unit {0}
AreAllowed (e ∷ es) g s =
    IsAllowed e.operation e.first e.second g s
    × AreAllowed es (touched e.operation (run_event e s) g) (run_event e s)
