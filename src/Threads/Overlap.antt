-- ===== src/Threads/Overlap.antt =====
-- What overlapping calls of reimpl/pthr.c can rely on: an object in the table keeps its object of
-- the Vita.
use zombie_shooter_ps_vita_p.Prelude.{
  ℕ, ◌≡◌, ◌≢◌, refl, sym, ap, subst, ◌∙◌, Bool, true, false, List, [], ◌∷◌, ◌==◌, arith, ◌⊎◌, inl,
  inr, if_both, Bool-cases,
}
use zombie_shooter_ps_vita_p.Threads.Objects.{
  Use, Call, apply, Threads, has_object, is_object_initialized, set_word, remember_object,
  forget_object,
}
use zombie_shooter_ps_vita_p.Threads.Table.{add_object-elsewhere, drop_object-elsewhere}
use zombie_shooter_ps_vita_p.Threads.Race.{
  Action, nothing, destroys_it, uses, Job, Stage, check, choose, remember, act, destroying, store,
  initialize, dropping, forgetting, freeing, clearing, done, Race, set_stage, after_check, use_now,
  step_stage, race_step, run_race,
}

-- The object at `a` stands in the table, and its word is `w`.
abbrev pub Stands : ℕ → ℕ → Threads → Type 0
Stands a w t = (has_object a t.objects ≡ true) × (t.word a ≡ w)

same_number : (a b : ℕ) → (a ≡ b) ⊎ (a ≢ b)
same_number a b = elim (Bool-cases (a == b)) [
  | inl e ↦ inl (ground arith)
  | inr e ↦ inr (λ q. ground arith)
]

-- The call is not in the middle of initializing or destroying its object, nor about to destroy it.
abbrev pub is_calm : Action → Stage → Bool
is_calm destroys_it st = false
is_calm nothing check = true
is_calm nothing act = true
is_calm nothing (done p) = true
is_calm nothing st = false
is_calm (uses u) check = true
is_calm (uses u) act = true
is_calm (uses u) (done p) = true
is_calm (uses u) st = false

-- If the call has used an object, then the one at `w`.
abbrev pub Used : ℕ → Action → Stage → Type 0
Used w (uses u) (done p) = p ≡ w
Used w action st = Unit {0}

step-others :
    (st : Stage) (j : Job) (i k : ℕ) (s : Race) → i ≢ k → (step_stage st j i s).stage k ≡ s.stage k
unfolding step_stage set_stage
step-others check j i k s ne = ground arith
step-others st j i k s ne = ground arith

set_stage_self : (i : ℕ) (p : Stage) (f : ℕ → Stage) → set_stage i p f i ≡ p
unfolding set_stage
set_stage_self i p f = ground arith

-- The log after a step of a call: it has the use of `w`, if the call was to use its object.
unfoldable pub logged : Use → ℕ → Stage → List Call → List Call
logged u w act calls = apply u w ∷ calls
logged u w st calls = calls

-- The call is calm, and has used no pointer but `w`.
abbrev pub IsCalm : ℕ → Action → Stage → Type 0
IsCalm w c st = (is_calm c st ≡ true) × Used w c st

after_check_act : (u : Use) (v w : ℕ) → v ≡ w → w ≢ 0 → after_check (uses u) true v ≡ act
unfolding after_check
after_check_act u v w e nz = ground arith

module _ (a : ℕ) (nz : a ≢ 0) (w : ℕ) (wz : w ≢ 0) where
  -- A step of a call for another object.
  step-Stands :
      (st : Stage) (j : Job) (i : ℕ) (s : Race)
      → j.address ≢ a
      → Stands a w s.threads
      → Stands a w (step_stage st j i s).threads
  unfolding step_stage set_word remember_object forget_object use_now
  step-Stands check j i s ne h = h
  step-Stands choose j i s ne h = h
  step-Stands (store k) j i s ne (here, same) = (here, ground arith)
  step-Stands (initialize k) j i s ne h =
      if_both (λ (r : Race). Stands a w r.threads) (j.answers.init_code == 0) h h
  step-Stands remember j i s ne (here, same) =
      (add_object-elsewhere j.address a s.threads.objects ne nz ∙ here, same)
  step-Stands act j i s ne h = use_now-Stands j.action (s.threads.word j.address) s.threads h
    where
      use_now-Stands :
          (c : Action) (p : ℕ) (t : Threads) → Stands a w t → Stands a w (use_now c p t)
      use_now-Stands nothing p t h = h
      use_now-Stands destroys_it p t h = h
      use_now-Stands (uses u) p t h = h
  step-Stands destroying j i s ne h = h
  step-Stands (forgetting p) j i s ne (here, same) =
      (drop_object-elsewhere j.address a s.threads.objects ne nz ∙ here, same)
  step-Stands dropping j i s ne h = h
  step-Stands (freeing p) j i s ne h = h
  step-Stands (clearing p) j i s ne (here, same) = (here, ground arith)
  step-Stands (done p) j i s ne h = h

  step-IsCalm :
      (c : Action) (st : Stage) (j : Job) (i : ℕ) (s : Race)
      → j.action ≡ c
      → j.address ≡ a
      → IsCalm w c st
      → s.stage i ≡ st
      → Stands a w s.threads
      → Stands a w (step_stage st j i s).threads × IsCalm w c ((step_stage st j i s).stage i)
  unfolding step_stage after_check use_now is_object_initialized
  step-IsCalm destroys_it st j i s ce ae m se h = absurd (let k = m.0 in cc)
  step-IsCalm nothing check j i s ce ae m se h =
      let found : has_object j.address s.threads.objects ≡ true =
        ap (λ (b : ℕ). has_object b s.threads.objects) ae ∙ h.0 in
      let next : after_check j.action (has_object j.address s.threads.objects)
            (s.threads.word j.address)
          ≡ done 0 =
        rw (ce, found) refl in
      (h, subst (IsCalm w nothing) (sym (set_stage_self i _ s.stage ∙ next)) (refl, tt))
  step-IsCalm (uses v) check j i s ce ae m se h =
      let found : has_object j.address s.threads.objects ≡ true =
        ap (λ (b : ℕ). has_object b s.threads.objects) ae ∙ h.0 in
      let next : after_check j.action (has_object j.address s.threads.objects)
            (s.threads.word j.address)
          ≡ act =
        rw (ce, found) (after_check_act v _ w (ap s.threads.word ae ∙ h.1) wz) in
      (h, subst (IsCalm w (uses v)) (sym (set_stage_self i _ s.stage ∙ next)) (refl, tt))
  step-IsCalm nothing act j i s ce ae m se h =
      (rw ce h, subst (IsCalm w nothing) (sym (set_stage_self i _ s.stage)) (refl, tt))
  step-IsCalm (uses v) act j i s ce ae m se h = (
    rw ce h,
    subst (IsCalm w (uses v)) (sym (set_stage_self i _ s.stage)) (refl, ap s.threads.word ae ∙ h.1),
  )
  step-IsCalm nothing (done p) j i s ce ae m se h = (h, subst (IsCalm w nothing) (sym se) m)
  step-IsCalm (uses v) (done p) j i s ce ae m se h = (h, subst (IsCalm w (uses v)) (sym se) m)
  step-IsCalm c st j i s ce ae m se h = absurd (let k = m.0 in cc)

  module _ (job : ℕ → Job) where
    -- The object stands, and each of its calls is calm and has used no other pointer.
    record IsHeld (s : Race) : Type 0 where
      stands : Stands a w s.threads
      calm : (i : ℕ) → (job i).address ≡ a → IsCalm w (job i).action (s.stage i)

    race_step-IsHeld : (k : ℕ) (s : Race) → IsHeld s → IsHeld (race_step job k s)
    unfolding race_step
    race_step-IsHeld k s held = elim (same_number (job k).address a) [
      | inl own ↦
          let next =
            step-IsCalm (job k).action (s.stage k) (job k) k s refl own (held.calm k own) refl
              held.stands in
          record {
            stands = next.0;
            calm = λ i e. elim (same_number k i) [
              | inl same ↦
                  subst (λ (m : ℕ). IsCalm w (job m).action ((race_step job k s).stage m)) same
                    next.1
              | inr ne ↦
                  subst (IsCalm w (job i).action) (sym (step-others (s.stage k) (job k) k i s ne))
                    (held.calm i e)
            ];
          }
      | inr other ↦ record {
        stands = step-Stands (s.stage k) (job k) k s other held.stands;
        calm = λ i e.
            let ne : k ≢ i = λ q. other (ap (λ (m : ℕ). (job m).address) q ∙ e) in
            subst (IsCalm w (job i).action) (sym (step-others (s.stage k) (job k) k i s ne))
              (held.calm i e);
      }
    ]

    run_race-IsHeld : (schedule : List ℕ) (s : Race) → IsHeld s → IsHeld (run_race job schedule s)
    unfolding run_race
    run_race-IsHeld [] s held = held
    run_race-IsHeld (k ∷ ks) s held =
        run_race-IsHeld ks (race_step job k s) (race_step-IsHeld k s held)

    module _ (i : ℕ) (u : Use) (own : (job i).address ≡ a) (call : (job i).action ≡ uses u) where
      next_stage : Stage → Stage
      next_stage check = act
      next_stage st = done w

      step-next_stage :
          (st : Stage) (s : Race)
          → IsHeld s
          → s.stage i ≡ st
          → is_calm (uses u) st ≡ true
          → Used w (uses u) st
          → (race_step job i s).stage i ≡ next_stage st
      unfolding next_stage race_step step_stage after_check is_object_initialized use_now
      step-next_stage check s held se m d =
          let found : has_object (job i).address s.threads.objects ≡ true =
            ap (λ (b : ℕ). has_object b s.threads.objects) own ∙ held.stands.0 in
          let next : after_check (job i).action (has_object (job i).address s.threads.objects)
                (s.threads.word (job i).address)
              ≡ act =
            rw (call, found) (after_check_act u _ w (ap s.threads.word own ∙ held.stands.1) wz) in
          rw se (set_stage_self i _ s.stage ∙ next)
      step-next_stage act s held se m d =
          rw se (set_stage_self i _ s.stage ∙ ap done (ap s.threads.word own ∙ held.stands.1))
      step-next_stage (done p) s held se m d = rw se (se ∙ ap done d)
      step-next_stage st s held se m d = absurd (cc)

      step-logged :
          (st : Stage) (s : Race)
          → IsHeld s
          → s.stage i ≡ st
          → is_calm (uses u) st ≡ true
          → (race_step job i s).threads.calls ≡ logged u w st s.threads.calls
      unfolding logged race_step step_stage use_now
      step-logged check s held se m = rw se refl
      step-logged act s held se m =
          rw (se, call)
            (ap (λ (p : ℕ). apply u p ∷ s.threads.calls) (ap s.threads.word own ∙ held.stands.1))
      step-logged (done p) s held se m = rw se refl
      step-logged st s held se m = absurd (cc)

      run-IsCalm : (s : Race) → IsHeld s → IsCalm w (uses u) (s.stage i)
      run-IsCalm s held = subst (λ (c : Action). IsCalm w c (s.stage i)) call (held.calm i own)

      next_twice : (st : Stage) → next_stage (next_stage st) ≡ done w
      unfolding next_stage
      next_twice check = refl
      next_twice st = refl

      completes : (s : Race) → IsHeld s → (run_race job (i ∷ i ∷ []) s).stage i ≡ done w
      unfolding run_race
      completes s held =
          let t = race_step job i s in
          let held' = race_step-IsHeld i s held in
          let m = run-IsCalm s held in
          let m' = run-IsCalm t held' in
          step-next_stage (t.stage i) t held' refl m'.0 m'.1
          ∙ ap next_stage (step-next_stage (s.stage i) s held refl m.0 m.1)
          ∙ next_twice (s.stage i)

-- A mutex, condition or read-write lock stands in the table, with the Vita's object `w`, which is
-- no null pointer. Calls that initialize, use or destroy an object run interleaved, in any number
-- and order, the waits left out; none destroys this object, none is in the middle of initializing
-- it at the start, and those that have used it have used `w`. Then after any steps a call that uses
-- it needs two of its own at most to have used `w`, and its next step makes no call of the library
-- but that use.
pub run_race-uses :
    (a w : ℕ) (job : ℕ → Job) (schedule : List ℕ) (s : Race) (i : ℕ) (u : Use)
    → a ≢ 0
    → w ≢ 0
    → Stands a w s.threads
    → ((k : ℕ) → (job k).address ≡ a → IsCalm w (job k).action (s.stage k))
    → (job i).address ≡ a
    → (job i).action ≡ uses u
    → let t = run_race job schedule s in
      ((run_race job (i ∷ i ∷ []) t).stage i ≡ done w)
      × ((race_step job i t).threads.calls ≡ logged u w (t.stage i) t.threads.calls)
run_race-uses a w job schedule s i u nz wz h calm own call =
    let start : IsHeld a nz w wz job s = record { stands = h; calm = calm } in
    let t = run_race job schedule s in
    let held = run_race-IsHeld a nz w wz job schedule s start in
    (
      completes a nz w wz job i u own call t held,
      step-logged a nz w wz job i u own call (t.stage i) t held refl
          (run-IsCalm a nz w wz job i u own call t held).0,
    )
