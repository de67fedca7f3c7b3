-- ===== src/Threads/Race.antt =====
-- reimpl/pthr.c with its calls overlapping: one step is one look at the table under pthr_mutex, one
-- access to the first word of an object, or one call of the library. A thread makes one call; there
-- are as many threads as there are calls. The two waits are left out.
use zombie_shooter_ps_vita_p.Prelude.{
  ℕ, Bool, true, false, ◌&&◌, Option, List, [], ◌∷◌, ◌==◌, if◌then◌else◌,
}
use zombie_shooter_ps_vita_p.Threads.Objects.{
  Object, mutex, cond, rwlock, Kind, normal, Use, lock, trylock, unlock, signal, broadcast, rdlock,
  wrlock, rwunlock, init, init_failed, destroy, apply, freed, Threads, Answers, mutex_kind,
  is_object_initialized, log_call, write_word, remember_object, forget_object,
}

-- What a call does once its object is ready.
pub data Action : Type 0 where
  nothing destroys_it : Action
  uses : Use → Action

pub record Job : Type 0 where
  pub object : Object
  pub attr : Option ℕ
  pub address : ℕ
  pub action : Action
  pub answers : Answers

-- The next step of a call. `done` has the pointer that the call used, 0 for none.
pub data Stage : Type 0 where
  check choose remember act destroying dropping : Stage
  store initialize : Kind → Stage
  forgetting freeing clearing done : ℕ → Stage

pub record Race : Type 0 where
  pub threads : Threads
  pub stage : ℕ → Stage

unfoldable pub set_stage : ℕ → Stage → (ℕ → Stage) → ℕ → Stage
set_stage i p stage j = if i == j then p else stage j

abbrev pub goes : ℕ → Stage → Threads → Race → Race
goes i p t s = record { threads = t; stage = set_stage i p s.stage }

-- pthread_mutex_unlock_soloader, which looks at the word in place of the table.
unfoldable pub is_unlock : Use → Bool
is_unlock lock = false
is_unlock trylock = false
is_unlock unlock = true
is_unlock signal = false
is_unlock broadcast = false
is_unlock rdlock = false
is_unlock wrlock = false
is_unlock rwunlock = false

-- pthread_rwlock_unlock_soloader, which initializes nothing.
unfoldable pub is_rwunlock : Use → Bool
is_rwunlock lock = false
is_rwunlock trylock = false
is_rwunlock unlock = false
is_rwunlock signal = false
is_rwunlock broadcast = false
is_rwunlock rdlock = false
is_rwunlock wrlock = false
is_rwunlock rwunlock = true

-- The first look of a call, at the table and, for an unlock, at the word `w`. An object in the table
-- is used or destroyed, another one initialized; one that is not in the table is not destroyed.
unfoldable pub after_check : Action → Bool → ℕ → Stage
after_check nothing true w = done 0
after_check nothing false w = choose
after_check destroys_it true w = destroying
after_check destroys_it false w = done 0
after_check (uses u) true w = if is_unlock u && w == 0 then done 0 else act
after_check (uses u) false w =
    if is_unlock u then if w == 0 then done 0 else act else if is_rwunlock u then done 0 else choose

-- The kind that the word asks for, which only a mutex has.
unfoldable pub kind_for : Object → Option ℕ → ℕ → Kind
kind_for mutex attr w = mutex_kind attr w
kind_for cond attr w = normal
kind_for rwlock attr w = normal

unfoldable pub is_rwlock : Object → Bool
is_rwlock mutex = false
is_rwlock cond = false
is_rwlock rwlock = true

-- After an initialization or after the table has the object.
unfoldable pub after_init : Action → Stage
after_init nothing = done 0
after_init destroys_it = done 0
after_init (uses u) = act

-- The call itself, for the object that the word points to now.
unfoldable pub use_now : Action → ℕ → Threads → Threads
use_now nothing p t = t
use_now destroys_it p t = t
use_now (uses u) p t = log_call (apply u p) t

-- A failed initialization is an error for a read-write lock alone.
unfoldable pub after_failure : Object → Action → Stage
after_failure o action = if is_rwlock o then dropping else after_init action

unfoldable pub step_stage : Stage → Job → ℕ → Race → Race
step_stage check j i s =
    goes i
      (after_check j.action (is_object_initialized j.address s.threads) (s.threads.word j.address))
      s.threads s
step_stage choose j i s =
    goes i (store (kind_for j.object j.attr (s.threads.word j.address))) s.threads s
step_stage (store k) j i s =
    goes i (if is_rwlock j.object && j.answers.ptr == 0 then done 0 else initialize k)
      (write_word j.address j.answers.ptr s.threads) s
step_stage (initialize k) j i s =
    let p = s.threads.word j.address in
    if j.answers.init_code == 0
    then goes i remember (log_call (init j.object k p) s.threads) s
    else goes i (after_failure j.object j.action) (log_call (init_failed j.object k p) s.threads) s
step_stage remember j i s = goes i (after_init j.action) (remember_object j.address s.threads) s
step_stage act j i s =
    let p = s.threads.word j.address in goes i (done p) (use_now j.action p s.threads) s
step_stage destroying j i s =
    let p = s.threads.word j.address in
    goes i (if j.answers.code == 0 then forgetting p else done p)
      (log_call (destroy j.object p) s.threads) s
step_stage (forgetting p) j i s = goes i (freeing p) (forget_object j.address s.threads) s
step_stage dropping j i s =
    let p = s.threads.word j.address in goes i (clearing p) (log_call (freed p) s.threads) s
step_stage (freeing p) j i s = goes i (clearing p) (log_call (freed p) s.threads) s
step_stage (clearing p) j i s = goes i (done p) (write_word j.address 0 s.threads) s
step_stage (done p) j i s = s

module _ (job : ℕ → Job) where
  unfoldable pub race_step : ℕ → Race → Race
  race_step i s = step_stage (s.stage i) (job i) i s

  -- A schedule names the thread that makes each step.
  unfoldable pub run_race : List ℕ → Race → Race
  run_race [] s = s
  run_race (i ∷ is) s = run_race is (race_step i s)
