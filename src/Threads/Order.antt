-- ===== src/Threads/Order.antt =====
-- What threads that call pthread_once_soloader can rely on.
use zombie_shooter_ps_vita_p.Prelude.{
  ℕ, zero, suc, ◌+◌, ◌≤◌, ◌≡◌, ◌≢◌, refl, sym, ap, subst, true, false, List, [], ◌∷◌, ◌==◌, arith,
  if_cases,
}
use zombie_shooter_ps_vita_p.Threads.Once.{
  Place, waiting, saw_zero, running, ran, returned, Once, move, step_from, once_step,
  pthread_once_soloader, once_init,
}
use zombie_shooter_ps_vita_p.Threads.Safe.{
  IsSafe, is_busy, Agrees, Says, move_self, move-all, Agrees-idle, Agrees-busy, not_true, Says-move,
  one_move, counts_le, counts_of_zero, once_init-IsSafe,
}

module _ (s : Once) (safe : IsSafe s) (i : ℕ) where
  quiet-IsSafe :
      (p : Place)
      → is_busy (s.place i) ≡ false
      → is_busy p ≡ false
      → Agrees p s.control s.started s.completed
      → IsSafe (record s { place = move i p s.place })
  quiet-IsSafe p before after a = record {
    agrees =
        move-all (λ (q : Place). Agrees q s.control s.started s.completed) i p s.place a
          (λ j ne. safe.agrees j);
    one = one_move i p s.place safe.one (λ b j bj. cc);
    says = Says-move s.control s.started s.completed i p s.place before safe.says;
  }

  le_two : s.control ≤ 2
  le_two = counts_le s.control s.started s.completed s.place safe.says

  -- No thread is in the initializer unless the control word is 1.
  idle : s.control ≢ 1 → (j : ℕ) → is_busy (s.place j) ≡ false
  idle ne j =
      not_true (is_busy (s.place j))
        (λ b. absurd (ne (Agrees-busy (s.place j) _ _ _ b (safe.agrees j))))

  enter-IsSafe :
      s.control ≡ 0
      → IsSafe (record s { control = 1; place = move i running s.place; started = s.started + 1 })
  enter-IsSafe zero_now =
      let counts = counts_of_zero s.control s.started s.completed s.place zero_now safe.says in
      record {
        agrees =
            move-all (λ (q : Place). Agrees q 1 (s.started + 1) s.completed) i running s.place
              (refl, omega arith, counts.1)
              (λ j ne.
                Agrees-idle (s.place j) s.control s.started s.completed 1 (s.started + 1)
                  s.completed (idle (omega arith) j) (safe.agrees j) (omega arith) (omega arith));
        one = one_move i running s.place safe.one (λ b j bj. let f = idle (omega arith) j in cc);
        says = (omega arith, (i, ap is_busy (move_self i running s.place)));
      }

  module _ (here : is_busy (s.place i) ≡ true) where
    others_idle : (j : ℕ) → i ≢ j → is_busy (s.place j) ≡ false
    others_idle j ne = not_true (is_busy (s.place j)) (λ b. absurd (ne (safe.one i j here b)))

    -- The thread in the initializer moves on, and the control word does not fall.
    leave-IsSafe :
        (p : Place) (c m : ℕ)
        → c ≤ 2
        → 1 ≤ c
        → Agrees p c s.started m
        → Says c s.started m (move i p s.place)
        → IsSafe (record s { control = c; place = move i p s.place; completed = m })
    leave-IsSafe p c m le ge a says =
        let one_now =
          Agrees-busy (s.place i) s.control s.started s.completed here (safe.agrees i) in
        record {
          agrees =
              move-all (λ (q : Place). Agrees q c s.started m) i p s.place a
                (λ j ne.
                  Agrees-idle (s.place j) s.control s.started s.completed c s.started m
                    (others_idle j ne) (safe.agrees j) le (omega arith));
          one = one_move i p s.place safe.one (λ b j bj. safe.one i j here bj);
          says = says;
        }

  pub place_facts : (q : Place) → s.place i ≡ q → Agrees q s.control s.started s.completed
  place_facts q e =
      subst (λ (p : Place). Agrees p s.control s.started s.completed) e (safe.agrees i)

  pub step_from-IsSafe : (q : Place) → s.place i ≡ q → IsSafe (step_from q i s)
  unfolding step_from
  step_from-IsSafe waiting e =
      if_cases IsSafe (s.control == 2)
        (λ h. quiet-IsSafe returned (ap is_busy e) refl (ground arith))
        (λ h.
          if_cases IsSafe (s.control == 0) (λ z. quiet-IsSafe saw_zero (ap is_busy e) refl le_two)
            (λ z. safe))
  step_from-IsSafe saw_zero e =
      if_cases IsSafe (s.control == 0) (λ z. enter-IsSafe (ground arith))
        (λ z. quiet-IsSafe waiting (ap is_busy e) refl le_two)
  step_from-IsSafe running e =
      let a = place_facts running e in
      leave-IsSafe (ap is_busy e) ran s.control (s.completed + 1) (omega arith) (omega arith)
        (a.0, a.1, omega arith)
        (subst (λ (c : ℕ). Says c s.started (s.completed + 1) (move i ran s.place)) (sym a.0)
          (a.1, (i, ap is_busy (move_self i ran s.place))))
  step_from-IsSafe ran e =
      let a = place_facts ran e in
      leave-IsSafe (ap is_busy e) returned 2 s.completed (omega arith) (omega arith) refl
        (refl, a.1, a.2)
  step_from-IsSafe returned e = safe

once_step-IsSafe : (i : ℕ) (s : Once) → IsSafe s → IsSafe (once_step i s)
unfolding once_step
once_step-IsSafe i s safe = step_from-IsSafe s safe i (s.place i) refl

pub pthread_once_soloader-IsSafe :
    (schedule : List ℕ) (s : Once) → IsSafe s → IsSafe (pthread_once_soloader schedule s)
unfolding pthread_once_soloader
pthread_once_soloader-IsSafe [] s safe = safe
pthread_once_soloader-IsSafe (i ∷ is) s safe =
    pthread_once_soloader-IsSafe is (once_step i s) (once_step-IsSafe i s safe)

counts_started : (c n m : ℕ) (f : ℕ → Place) → Says c n m f → n ≤ 1
counts_started zero n m f h = let e = h.0 in omega arith
counts_started (suc zero) n m f h = let e = h.0 in omega arith
counts_started (suc (suc c)) n m f h = let e = h.1 in omega arith

counts_of_two : (c n m : ℕ) (f : ℕ → Place) → c ≡ 2 → Says c n m f → (n ≡ 1) × (m ≡ 1)
counts_of_two zero n m f e h = absurd (omega arith)
counts_of_two (suc zero) n m f e h = absurd (omega arith)
counts_of_two (suc (suc c)) n m f e h = (h.1, h.2)

pub pthread_once_soloader_once :
    (schedule : List ℕ) → (pthread_once_soloader schedule once_init).started ≤ 1
pthread_once_soloader_once schedule =
    let s = pthread_once_soloader schedule once_init in
    counts_started s.control s.started s.completed s.place
      (pthread_once_soloader-IsSafe schedule once_init once_init-IsSafe).says

-- However the threads that call pthread_once_soloader are scheduled, when one of them has returned
-- the initializer has been started once and has completed.
pub pthread_once_soloader-returned :
    (schedule : List ℕ) (i : ℕ)
    → (pthread_once_soloader schedule once_init).place i ≡ returned
    → ((pthread_once_soloader schedule once_init).started ≡ 1)
      × ((pthread_once_soloader schedule once_init).completed ≡ 1)
pthread_once_soloader-returned schedule i e =
    let s = pthread_once_soloader schedule once_init in
    let safe = pthread_once_soloader-IsSafe schedule once_init once_init-IsSafe in
    counts_of_two s.control s.started s.completed s.place (place_facts s safe i returned e)
      safe.says
