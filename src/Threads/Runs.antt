-- ===== src/Threads/Runs.antt =====
-- Every run of whole calls, one after the other, keeps the table, the words and the calls of reimpl/pthr.c sound.
use zombie_shooter_ps_vita_p.Prelude.{
  ℕ, zero, suc, ◌≡◌, ◌≢◌, refl, Bool, true, false, ◌||◌, none, if◌then◌else◌, List, [], ◌∷◌, ◌==◌,
  arith, if_cases, replicate,
}
use zombie_shooter_ps_vita_p.Threads.Objects.{
  Use, Call, wait, timedwait, Threads, Answers, Result, einval, enomem, returned, has_object,
  is_object_initialized, static_init, mutex, cond, rwlock, normal, mutex_kind, wait_with, apply_to,
  use_rwlock, remember_object, mutex_static_init, cond_static_init, rwlock_static_init, apply_if,
  pthread_rwlock_init_soloader,
}
use zombie_shooter_ps_vita_p.Threads.Sound.{
  is_alive, is_legal, are_legal, IsSound, is_use, use-IsSound, made-IsSound, refused-IsSound,
  cleared-IsSound, Flags, set_flag, known-IsSound, table_flag-IsSound, flag_twice-IsSound,
}
use zombie_shooter_ps_vita_p.Threads.Table.{are_distinct}
use zombie_shooter_ps_vita_p.Threads.Operations.{
  Operation, init_mutex, init_cond, init_rwlock, destroy_it, with_mutex, with_cond, with_rwlock,
  unlock_mutex, unlock_rwlock, wait_for, timedwait_for, run_operation, IsFresh, IsMade, IsAllowed,
  Event, run_event, run_events, AreAllowed, touched, touched_all,
}
use zombie_shooter_ps_vita_p.Threads.Legal.{
  IsReady, made_live, static_init-keeps, static_init-IsReady, apply_to-IsSound, unless_null,
  use_mutex-IsSound, use_cond-IsSound, init_mutex-IsSound, init_cond-IsSound,
  destroy_object-IsSound, unlock_rwlock-IsSound, unlock_mutex-IsSound,
}

-- Two tests of the same condition at once.
if_pair :
    {A B : Type 0}
    → (P : A → B → Type 0) (b : Bool) {x y : A} {u v : B} → (b ≡ true → P x u)
    → (b ≡ false → P y v)
    → P (if b then x else y) (if b then u else v)
if_pair P true t f = t refl
if_pair P false t f = f refl

-- A result 0 promises an object that lives, another one that the game has none.
abbrev IsKept : ℕ → Flags → Threads × Result → Type 0
IsKept a g (s, returned zero) = IsReady a g s
IsKept a g (s, returned (suc n)) = IsSound (set_flag a false g) s
IsKept a g (s, einval) = IsSound (set_flag a false g) s
IsKept a g (s, enomem) = IsSound (set_flag a false g) s

-- The objects of the game after a call for a read-write lock at `a`.
abbrev IsTabled : ℕ → Flags → Threads → Type 0
IsTabled a g s = IsSound (set_flag a (has_object a s.objects) g) s

IsKept-IsTabled : (a : ℕ) (g : Flags) (x : Threads × Result) → IsKept a g x → IsTabled a g x.0
IsKept-IsTabled a g (s, returned zero) h = flag_twice-IsSound g a true s h.0
IsKept-IsTabled a g (s, returned (suc n)) h = flag_twice-IsSound g a false s h
IsKept-IsTabled a g (s, einval) h = flag_twice-IsSound g a false s h
IsKept-IsTabled a g (s, enomem) h = flag_twice-IsSound g a false s h

returned-IsKept :
    (a n : ℕ) (g : Flags) (s : Threads)
    → n ≢ 0
    → IsSound (set_flag a false g) s
    → IsKept a g (s, returned n)
returned-IsKept a zero g s nz h = absurd (nz refl)
returned-IsKept a (suc n) g s nz h = h

apply_if-IsTabled :
    (u : Use) (a : ℕ) (r : Answers) (g : Flags) (x : Threads × Result)
    → IsKept a g x
    → IsTabled a g (apply_if u a r x).0
apply_if-IsTabled u a r g (s, returned zero) h =
    flag_twice-IsSound g a true (apply_to u a r s).0
      (apply_to-IsSound u a r (set_flag a true g) s h.0 h.1)
apply_if-IsTabled u a r g (s, returned (suc n)) h = flag_twice-IsSound g a false s h
apply_if-IsTabled u a r g (s, einval) h = flag_twice-IsSound g a false s h
apply_if-IsTabled u a r g (s, enomem) h = flag_twice-IsSound g a false s h

module _ (g : Flags) (s : Threads) (sound : IsSound g s) where
  rwlock_static_init-IsKept :
      (a : ℕ) (r : Answers) → a ≢ 0 → IsFresh r s → IsKept a g (rwlock_static_init a r s)
  unfolding rwlock_static_init is_object_initialized remember_object
  rwlock_static_init-IsKept a r nz dead =
      if_cases (IsKept a g) (has_object a s.objects)
        (λ h. (known-IsSound g s sound a nz h, sound.live a nz (sound.covers a nz h)))
        (λ h.
          if_cases (IsKept a g) (r.ptr == 0) (λ n. cleared-IsSound g s sound a nz h)
            (λ n.
              if_cases (IsKept a g) (r.init_code == 0)
                (λ z. (
                  made-IsSound g s sound a nz rwlock normal r.ptr dead h,
                  made_live s a r rwlock normal,
                ))
                (λ z.
                  returned-IsKept a r.init_code g _ (ground arith)
                    (refused-IsSound g s sound a nz rwlock normal r.ptr dead h))))

  use_rwlock-IsSound :
      (u : Use) (a : ℕ) (r : Answers) → IsFresh r s → IsTabled a g (use_rwlock u a r s).0
  unfolding use_rwlock
  use_rwlock-IsSound u a r dead =
      unless_null g s sound a r (λ t. set_flag a (has_object a t.objects) g) einval _
        (λ z. table_flag-IsSound g s sound a)
        (λ nz. apply_if-IsTabled u a r g _ (rwlock_static_init-IsKept a r nz dead))

  init_rwlock-IsSound :
      (a : ℕ) (r : Answers) → IsFresh r s → IsTabled a g (pthread_rwlock_init_soloader a r s).0
  unfolding pthread_rwlock_init_soloader
  init_rwlock-IsSound a r dead =
      unless_null g s sound a r (λ t. set_flag a (has_object a t.objects) g) einval _
        (λ z. table_flag-IsSound g s sound a)
        (λ nz. IsKept-IsTabled a g _ (rwlock_static_init-IsKept a r nz dead))

  -- Both waits: `c` is the call that they make.
  wait_with-IsSound :
      (c : ℕ → ℕ → Call)
      → ((p q : ℕ) → is_use (c p q) ≡ true)
      → ((p q : ℕ) (cs : List Call)
          → is_alive p cs ≡ true
          → is_alive q cs ≡ true
          → is_legal (c p q) cs ≡ true)
      → (a m : ℕ) (r q : Answers) → IsMade r s
      → IsMade q (cond_static_init a r s).0
      → IsSound
          (if a == 0 || m == 0 then g else set_flag m true (set_flag a true g))
          (wait_with c a m r q s).0
  unfolding wait_with cond_static_init mutex_static_init
  wait_with-IsSound c u l a m r q made next =
      if_pair (λ (f : Flags) (z : Threads × Result). IsSound f z.0) (a == 0 || m == 0) (λ h. sound)
        (λ h.
          let t = (static_init cond normal a r s).0 in
          let x = static_init-IsReady g s sound a (ground arith) r cond normal made in
          let k = mutex_kind none (t.word m) in
          let f = set_flag a true g in
          let y = static_init-IsReady f t x.0 m (ground arith) q mutex k next in
          use-IsSound (set_flag m true f) (static_init mutex k m q t).0 y.0 (c _ _) (u _ _)
            (l _ _ _ (static_init-keeps t m q mutex k a next.1 x.1) y.1))

run_operation-IsSound :
    (o : Operation) (r q : Answers) (g : Flags) (s : Threads)
    → IsSound g s
    → IsAllowed o r q g s
    → let t = (run_operation o r q s).0 in IsSound (touched o t g) t
unfolding run_operation is_legal touched
run_operation-IsSound (init_mutex a attr) r q g s h ok = init_mutex-IsSound g s h a r attr ok
run_operation-IsSound (init_cond a) r q g s h ok = init_cond-IsSound g s h a r ok
run_operation-IsSound (init_rwlock a) r q g s h ok = init_rwlock-IsSound g s h a r ok
run_operation-IsSound (destroy_it o a) r q g s h ok = destroy_object-IsSound g s h a r o
run_operation-IsSound (with_mutex u a) r q g s h ok = use_mutex-IsSound g s h a r u ok
run_operation-IsSound (with_cond u a) r q g s h ok = use_cond-IsSound g s h a r u ok
run_operation-IsSound (with_rwlock u a) r q g s h ok = use_rwlock-IsSound g s h u a r ok
run_operation-IsSound (unlock_mutex a) r q g s h ok = unlock_mutex-IsSound g s h a r ok
run_operation-IsSound (unlock_rwlock a) r q g s h ok = unlock_rwlock-IsSound g s h a r
run_operation-IsSound (wait_for a m) r q g s h ok =
    wait_with-IsSound g s h wait (λ x y. refl) (λ x y cs p w. ground arith) a m r q ok.0 ok.1
run_operation-IsSound (timedwait_for a m) r q g s h ok =
    wait_with-IsSound g s h timedwait (λ x y. refl) (λ x y cs p w. ground arith) a m r q ok.0 ok.1

-- Each run of whole calls on mutexes, conditions and read-write locks, none of which starts before
-- the last one is over, keeps these: a call of the library is given objects of the Vita that have
-- been initialized and not freed, and none is freed twice; a mutex or a condition that the game has
-- initialized or used and not destroyed since, and a read-write lock in the table, has one that
-- lives, and no two share one; the table has no other objects, and none twice. It is assumed that
-- malloc answers with no memory that lives, that the initialization of a mutex or a condition
-- succeeds, and that the game unlocks a mutex that it has initialized or used and not destroyed
-- since, or one whose word is 0.
pub run_events-IsSound :
    (es : List Event) (g : Flags) (s : Threads)
    → IsSound g s
    → AreAllowed es g s
    → IsSound (touched_all es g s) (run_events es s)
unfolding run_events run_event touched_all
run_events-IsSound [] g s h ok = h
run_events-IsSound (e ∷ es) g s h ok =
    run_events-IsSound es (touched e.operation (run_event e s) g) (run_event e s)
      (run_operation-IsSound e.operation e.first e.second g s h ok.0) ok.1

-- Before the game starts: an empty table.
abbrev pub threads_init : (ℕ → ℕ) → ℕ → Threads
threads_init word n = record { objects = replicate n 0; word = word; calls = [] }

has_object_empty : (n b : ℕ) → b ≢ 0 → has_object b (replicate n 0) ≡ false
unfolding has_object
has_object_empty zero b nz = refl
has_object_empty (suc n) b nz = ground (arith, has_object_empty n b nz)

are_distinct_empty : (n : ℕ) → are_distinct (replicate n 0) ≡ true
unfolding are_distinct
are_distinct_empty zero = refl
are_distinct_empty (suc n) = are_distinct_empty n

-- The game has no objects before it starts.
abbrev pub no_flags : Flags
no_flags b = false

pub threads_init-IsSound : (word : ℕ → ℕ) (n : ℕ) → IsSound no_flags (threads_init word n)
unfolding are_legal
threads_init-IsSound word n = record {
  live = λ b nz h. absurd (cc);
  apart = λ b c nb nc hb hc e. absurd (cc);
  covers = λ b nb h. let f = has_object_empty n b nb in absurd (cc);
  distinct = are_distinct_empty n;
  legal = refl;
}
