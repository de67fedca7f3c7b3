-- ===== src/Threads/Frame.antt =====
-- What happens when the table of reimpl/pthr.c is full.
use zombie_shooter_ps_vita_p.Prelude.{ℕ, ◌≡◌, ◌≢◌, false, ◌∷◌, arith}
use zombie_shooter_ps_vita_p.Threads.Objects.{
  init, apply, Threads, Answers, has_object, is_object_initialized, set_word, static_init, mutex,
  use_mutex, remember_object, mutex_static_init, lock, static_kind, pthread_mutex_lock_soloader,
}
use zombie_shooter_ps_vita_p.Threads.Table.{has_room, add_object-full}

-- When the table is full, rememberObject drops the object silently: each lock of a new mutex makes
-- another mutex of the Vita and locks that one, so that two locks of it exclude nothing.
pub pthread_mutex_lock_soloader-full :
    (a : ℕ) (r q : Answers) (s : Threads)
    → a ≢ 0
    → has_room s.objects ≡ false
    → has_object a s.objects ≡ false
    → r.init_code ≡ 0
    → q.init_code ≡ 0
    → let t = (pthread_mutex_lock_soloader a r s).0 in
      (pthread_mutex_lock_soloader a q t).0.calls
      ≡ apply lock q.ptr
        ∷ init mutex (static_kind r.ptr) q.ptr
        ∷ apply lock r.ptr
        ∷ init mutex (static_kind (s.word a)) r.ptr
        ∷ s.calls
unfolding use_mutex mutex_static_init static_init is_object_initialized remember_object set_word
pthread_mutex_lock_soloader-full a r q s nz full absent ok ok' =
    ground (arith, add_object-full a s.objects full)
