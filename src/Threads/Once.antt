-- ===== src/Threads/Once.antt =====
-- pthread_once_soloader of reimpl/pthr.c, as the threads that call it run it: one step is one access
-- to the control word, the initializer's end, or the store that publishes it.
use zombie_shooter_ps_vita_p.Prelude.{ℕ, ◌+◌, List, [], ◌∷◌, ◌==◌, if◌then◌else◌}

-- Where a thread is: before the load, after a load of 0, in the initializer, before the store of 2,
-- and after the return.
pub data Place : Type 0 where
  waiting saw_zero running ran returned : Place

-- `started` and `completed` count the calls of the initializer and its returns.
pub record Once : Type 0 where
  pub control : ℕ
  pub place : ℕ → Place
  pub started : ℕ
  pub completed : ℕ

unfoldable pub move : ℕ → Place → (ℕ → Place) → ℕ → Place
move i p place j = if i == j then p else place j

unfoldable pub step_from : Place → ℕ → Once → Once
step_from waiting i s =
    if s.control == 2
    then record s { place = move i returned s.place }
    else if s.control == 0
    then record s { place = move i saw_zero s.place }
    else s
step_from saw_zero i s =
    if s.control == 0
    then record s { control = 1; place = move i running s.place; started = s.started + 1 }
    else record s { place = move i waiting s.place }
step_from running i s = record s { place = move i ran s.place; completed = s.completed + 1 }
step_from ran i s = record s { control = 2; place = move i returned s.place }
step_from returned i s = s

unfoldable pub once_step : ℕ → Once → Once
once_step i s = step_from (s.place i) i s

-- A schedule names the thread that makes each step.
unfoldable pub pthread_once_soloader : List ℕ → Once → Once
pthread_once_soloader [] s = s
pthread_once_soloader (i ∷ is) s = pthread_once_soloader is (once_step i s)

abbrev pub once_init : Once
once_init = record { control = 0; place = λ i. waiting; started = 0; completed = 0 }
