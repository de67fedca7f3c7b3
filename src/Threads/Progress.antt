-- ===== src/Threads/Progress.antt =====
-- pthread_once_soloader does not deadlock.
use zombie_shooter_ps_vita_p.Prelude.{
  ℕ, zero, suc, ◌≡◌, refl, sym, subst, true, List, [], ◌∷◌, arith,
}
use zombie_shooter_ps_vita_p.Threads.Once.{
  Place, waiting, saw_zero, running, ran, returned, Once, step_from, once_step,
  pthread_once_soloader, once_init,
}
use zombie_shooter_ps_vita_p.Threads.Order.{
  place_facts, step_from-IsSafe, pthread_once_soloader-IsSafe,
}
use zombie_shooter_ps_vita_p.Threads.Safe.{IsSafe, is_busy, Says, move_self, once_init-IsSafe}

-- A schedule that lets thread i return.
abbrev pub CanReturn : ℕ → Once → Type 0
CanReturn i s = (schedule : List ℕ) × ((pthread_once_soloader schedule s).place i ≡ returned)

module _ (i : ℕ) where
  later : (j : ℕ) (s : Once) → CanReturn i (once_step j s) → CanReturn i s
  unfolding pthread_once_soloader
  later j s (schedule, e) = (j ∷ schedule, e)

  step_at :
      (j : ℕ) (s : Once) (q : Place) → s.place j ≡ q → CanReturn i (step_from q j s) → CanReturn i s
  unfolding once_step
  step_at j s q e h = later j s (subst (λ (p : Place). CanReturn i (step_from p j s)) (sym e) h)

  waiting_returns : (s : Once) → s.control ≡ 2 → s.place i ≡ waiting → CanReturn i s
  unfolding step_from pthread_once_soloader
  waiting_returns s c e =
      let there = move_self i returned s.place in step_at i s waiting e ([], ground arith)

  place_returns :
      (s : Once) (safe : IsSafe s) → s.control ≡ 2 → (q : Place) → s.place i ≡ q → CanReturn i s
  unfolding step_from pthread_once_soloader
  place_returns s safe c waiting e = waiting_returns s c e
  place_returns s safe c saw_zero e =
      let there = move_self i waiting s.place in
      step_at i s saw_zero e
        (let t = step_from saw_zero i s in waiting_returns t (ground arith) (ground arith))
  place_returns s safe c running e = absurd (let a = place_facts s safe i running e in omega arith)
  place_returns s safe c ran e = absurd (let a = place_facts s safe i ran e in omega arith)
  place_returns s safe c returned e = ([], e)

  complete_returns : (s : Once) → IsSafe s → s.control ≡ 2 → CanReturn i s
  complete_returns s safe c = place_returns s safe c (s.place i) refl

  ran_returns : (s : Once) → IsSafe s → (o : ℕ) → s.place o ≡ ran → CanReturn i s
  unfolding step_from
  ran_returns s safe o e =
      step_at o s ran e
        (complete_returns (step_from ran o s) (step_from-IsSafe s safe o ran e) refl)

  busy_returns :
      (s : Once) → IsSafe s → (o : ℕ) (q : Place) → s.place o ≡ q → is_busy q ≡ true → CanReturn i s
  unfolding step_from
  busy_returns s safe o waiting e b = absurd (cc)
  busy_returns s safe o saw_zero e b = absurd (cc)
  busy_returns s safe o running e b = step_at o s running e (
      ran_returns (step_from running o s) (step_from-IsSafe s safe o running e) o
        (move_self o ran s.place))
  busy_returns s safe o ran e b = ran_returns s safe o e
  busy_returns s safe o returned e b = absurd (cc)

  saw_zero_returns : (s : Once) → IsSafe s → s.control ≡ 0 → s.place i ≡ saw_zero → CanReturn i s
  unfolding step_from
  saw_zero_returns s safe c e =
      let t = step_from saw_zero i s in
      let there = move_self i running s.place in
      step_at i s saw_zero e
        (busy_returns t (step_from-IsSafe s safe i saw_zero e) i running (ground arith) refl)

  fresh_returns :
      (s : Once) → IsSafe s → s.control ≡ 0 → (q : Place) → s.place i ≡ q → CanReturn i s
  unfolding step_from pthread_once_soloader
  fresh_returns s safe c waiting e =
      let t = step_from waiting i s in
      let there = move_self i saw_zero s.place in
      step_at i s waiting e
        (saw_zero_returns t (step_from-IsSafe s safe i waiting e) (ground arith) (ground arith))
  fresh_returns s safe c saw_zero e = saw_zero_returns s safe c e
  fresh_returns s safe c running e = absurd (let a = place_facts s safe i running e in omega arith)
  fresh_returns s safe c ran e = absurd (let a = place_facts s safe i ran e in omega arith)
  fresh_returns s safe c returned e = ([], e)

  control_returns :
      (s : Once)
      → IsSafe s
      → (c : ℕ) → s.control ≡ c
      → Says c s.started s.completed s.place
      → CanReturn i s
  control_returns s safe zero e h = fresh_returns s safe e (s.place i) refl
  control_returns s safe (suc zero) e (n, (o, b)) = busy_returns s safe o (s.place o) refl b
  control_returns s safe (suc (suc c)) e h = complete_returns s safe (let k = h.0 in omega arith)

-- pthread_once_soloader never deadlocks: whatever the threads that call it have done so far, there
-- is a schedule after which any thread i has returned.
pub pthread_once_soloader-CanReturn :
    (i : ℕ) (schedule : List ℕ) → CanReturn i (pthread_once_soloader schedule once_init)
pthread_once_soloader-CanReturn i schedule =
    let s = pthread_once_soloader schedule once_init in
    let safe = pthread_once_soloader-IsSafe schedule once_init once_init-IsSafe in
    control_returns i s safe s.control refl safe.says
