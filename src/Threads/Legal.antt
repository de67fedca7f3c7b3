-- ===== src/Threads/Legal.antt =====
-- The calls of reimpl/pthr.c use no object of the Vita that has been freed.
use zombie_shooter_ps_vita_p.Prelude.{
  ℕ, ◌≡◌, ◌≢◌, refl, true, not, ◌||◌, Option, none, ◌∷◌, ◌==◌, if◌then◌else◌, arith, ◌⊎◌, if_cases,
  Bool, false, subst, sym,
}
use zombie_shooter_ps_vita_p.Threads.Objects.{
  Object, Kind, Use, init, destroy, apply, Threads, Answers, Result, einval, has_object,
  is_object_initialized, set_word, static_init, apply_to, mutex, cond, normal, mutex_kind,
  use_mutex, use_cond, remember_object, pthread_mutex_init_soloader, pthread_cond_init_soloader,
  pthread_rwlock_unlock_soloader, pthread_mutex_unlock_soloader, rwunlock, unlock,
  mutex_static_init, cond_static_init, destroy_object, log_call,
}
use zombie_shooter_ps_vita_p.Threads.Sound.{
  is_alive, is_legal, IsSound, use-IsSound, made-IsSound, destroyed-IsSound, Flags, set_flag,
  known-IsSound, table_flag-IsSound, null_flag-IsSound, flag_twice-IsSound,
}
use zombie_shooter_ps_vita_p.Threads.Operations.{IsMade}

-- The word of the object at `a` points to an object that lives.
abbrev pub IsReady : ℕ → Flags → Threads → Type 0
IsReady a g s = IsSound (set_flag a true g) s × (is_alive (s.word a) s.calls ≡ true)

module _ (s : Threads) (a : ℕ) (r : Answers) where
  pub made_live :
      (o : Object) (k : Kind)
      → is_alive (set_word a r.ptr s.word a) (init o k r.ptr ∷ s.calls) ≡ true
  unfolding set_word is_alive
  made_live o k = ground arith

  -- What lives lives on after the initialization of another object or of the same one.
  pub static_init-keeps :
      (o : Object) (k : Kind) (b : ℕ)
      → r.init_code ≡ 0
      → is_alive (s.word b) s.calls ≡ true
      → is_alive ((static_init o k a r s).0.word b) (static_init o k a r s).0.calls ≡ true
  unfolding static_init is_object_initialized remember_object set_word is_alive
  static_init-keeps o k b ok h = ground arith

module _ (g : Flags) (s : Threads) (sound : IsSound g s) (a : ℕ) (nz : a ≢ 0) (r : Answers) where
  pub static_init-IsReady :
      (o : Object) (k : Kind) → IsMade r s → IsReady a g (static_init o k a r s).0
  unfolding static_init is_object_initialized remember_object
  static_init-IsReady o k (dead, ok) =
      if_cases (λ (x : Threads × Result). IsReady a g x.0) (has_object a s.objects)
        (λ h. (known-IsSound g s sound a nz h, sound.live a nz (sound.covers a nz h)))
        (λ h.
          if_cases (λ (x : Threads × Result). IsReady a g x.0) (r.init_code == 0)
            (λ z. (made-IsSound g s sound a nz o k r.ptr dead h, made_live s a r o k))
            (λ z. absurd (ground arith)))

pub apply_to-IsSound :
    (u : Use) (a : ℕ) (r : Answers) (g : Flags) (s : Threads)
    → IsSound g s
    → is_alive (s.word a) s.calls ≡ true
    → IsSound g (apply_to u a r s).0
unfolding is_legal
apply_to-IsSound u a r g s sound live = use-IsSound g s sound (apply u (s.word a)) refl live

module _ (g : Flags) (s : Threads) (sound : IsSound g s) (a : ℕ) (r : Answers) where
  -- A function that refuses a null pointer; `f` are the objects of the game after it.
  pub unless_null :
      (f : Threads → Flags) (e : Result) (y : Threads × Result)
      → (a ≡ 0 → IsSound (f s) s)
      → (a ≢ 0 → IsSound (f y.0) y.0)
      → let z = if a == 0 then (s, e) else y in IsSound (f z.0) z.0
  unless_null f e y sx sy =
      if_cases (λ (z : Threads × Result). IsSound (f z.0) z.0) (a == 0) (λ h. sx (ground arith))
        (λ h. sy (ground arith))

  null_set : (x : Bool) → a ≡ 0 → IsSound (set_flag a x g) s
  null_set x e =
      subst (λ (b : ℕ). IsSound (set_flag b x g) s) (sym e) (null_flag-IsSound g s sound x)

  pub use_mutex-IsSound : (u : Use) → IsMade r s → IsSound (set_flag a true g) (use_mutex u a r s).0
  unfolding use_mutex mutex_static_init
  use_mutex-IsSound u m =
      unless_null (λ t. set_flag a true g) einval _ (null_set true)
        (λ nz.
          let x = static_init-IsReady g s sound a nz r mutex (mutex_kind none (s.word a)) m in
          apply_to-IsSound u a r (set_flag a true g) _ x.0 x.1)

  pub use_cond-IsSound : (u : Use) → IsMade r s → IsSound (set_flag a true g) (use_cond u a r s).0
  unfolding use_cond cond_static_init
  use_cond-IsSound u m =
      unless_null (λ t. set_flag a true g) einval _ (null_set true)
        (λ nz.
          let x = static_init-IsReady g s sound a nz r cond normal m in
          apply_to-IsSound u a r (set_flag a true g) _ x.0 x.1)

  pub init_mutex-IsSound :
      (attr : Option ℕ)
      → IsMade r s
      → IsSound (set_flag a true g) (pthread_mutex_init_soloader a attr r s).0
  unfolding pthread_mutex_init_soloader mutex_static_init
  init_mutex-IsSound attr m =
      unless_null (λ t. set_flag a true g) einval _ (null_set true)
        (λ nz. (static_init-IsReady g s sound a nz r mutex (mutex_kind attr (s.word a)) m).0)

  pub init_cond-IsSound :
      IsMade r s → IsSound (set_flag a true g) (pthread_cond_init_soloader a r s).0
  unfolding pthread_cond_init_soloader cond_static_init
  init_cond-IsSound m =
      unless_null (λ t. set_flag a true g) einval _ (null_set true)
        (λ nz. (static_init-IsReady g s sound a nz r cond normal m).0)

  pub destroy_object-IsSound :
      (o : Object)
      → let t = (destroy_object o a r s).0 in IsSound (set_flag a (has_object a t.objects) g) t
  unfolding destroy_object is_object_initialized is_legal
  destroy_object-IsSound o =
      let P : Threads × Result → Type 0 =
        λ z. IsSound (set_flag a (has_object a z.0.objects) g) z.0 in
      if_cases P (a == 0 || not (has_object a s.objects)) (λ h. table_flag-IsSound g s sound a)
        (λ h.
          let nz : a ≢ 0 = ground arith in
          let here : has_object a s.objects ≡ true = ground arith in
          if_cases P (r.code == 0)
            (λ z. flag_twice-IsSound g a false _ (destroyed-IsSound g s sound a nz o here))
            (λ z.
              let live = sound.live a nz (sound.covers a nz here) in
              let t = log_call (destroy o (s.word a)) s in
              table_flag-IsSound g t (use-IsSound g s sound (destroy o (s.word a)) refl live) a))

  pub unlock_rwlock-IsSound : IsSound g (pthread_rwlock_unlock_soloader a r s).0
  unfolding pthread_rwlock_unlock_soloader is_object_initialized
  unlock_rwlock-IsSound =
      if_cases (λ (z : Threads × Result). IsSound g z.0) (a == 0 || not (has_object a s.objects))
        (λ h. sound)
        (λ h.
          let nz : a ≢ 0 = ground arith in
          apply_to-IsSound rwunlock a r g s sound
            (sound.live a nz (sound.covers a nz (ground arith))))

  pub unlock_mutex-IsSound :
      (g a ≡ true) ⊎ (s.word a ≡ 0) → IsSound g (pthread_mutex_unlock_soloader a r s).0
  unfolding pthread_mutex_unlock_soloader
  unlock_mutex-IsSound may =
      if_cases (λ (z : Threads × Result). IsSound g z.0) (a == 0 || s.word a == 0) (λ h. sound)
        (λ h. apply_to-IsSound unlock a r g s sound (sound.live a (ground arith) (ground arith)))
