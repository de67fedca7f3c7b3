-- ===== src/Threads/AttributeRuns.antt =====
-- Every run of the game's calls on an attribute uses attributes of the Vita that live.
use zombie_shooter_ps_vita_p.Prelude.{
  ◌≢◌, ℕ, ◌≡◌, Bool, true, false, not, ◌&&◌, List, [], ◌∷◌, ◌==◌, if◌then◌else◌, arith,
}
use zombie_shooter_ps_vita_p.Threads.Attributes.{
  AttrCall, attr_init, attr_init_failed, AttrAnswers, attr_destroy, attr_freed, attr_setdetachstate,
  attr_setstacksize, create, Attr, attr_magic, attr_static_init, AttrResult,
  pthread_attr_init_soloader, pthread_attr_destroy_soloader, pthread_attr_setdetachstate_soloader,
  pthread_attr_setstacksize_soloader, create_with, create_without, pthread_create_soloader,
}

-- An attribute of the Vita lives from its initialization until it is destroyed.
unfoldable pub is_attr_live : ℕ → List AttrCall → Bool
is_attr_live p [] = false
is_attr_live p (attr_init q ∷ cs) = if q == p then true else is_attr_live p cs
is_attr_live p (attr_destroy q ∷ cs) = if q == p then false else is_attr_live p cs
is_attr_live p (attr_init_failed q ∷ cs) = is_attr_live p cs
is_attr_live p (attr_freed q ∷ cs) = is_attr_live p cs
is_attr_live p (attr_setdetachstate q n ∷ cs) = is_attr_live p cs
is_attr_live p (attr_setstacksize q n ∷ cs) = is_attr_live p cs
is_attr_live p (create q f x ∷ cs) = is_attr_live p cs

unfoldable pub was_destroyed : ℕ → List AttrCall → Bool
was_destroyed p (attr_destroy q ∷ cs) = q == p
was_destroyed p other = false

-- A call is given an attribute that lives, and memory is freed right after the attribute in it was
-- destroyed.
unfoldable pub is_attr_legal : AttrCall → List AttrCall → Bool
is_attr_legal (attr_init p) cs = not (is_attr_live p cs)
is_attr_legal (attr_init_failed p) cs = not (is_attr_live p cs)
is_attr_legal (attr_destroy p) cs = is_attr_live p cs
is_attr_legal (attr_freed p) cs = was_destroyed p cs
is_attr_legal (attr_setdetachstate p n) cs = is_attr_live p cs
is_attr_legal (attr_setstacksize p n) cs = is_attr_live p cs
is_attr_legal (create p f x) cs = is_attr_live p cs

unfoldable pub are_attr_legal : List AttrCall → Bool
are_attr_legal [] = true
are_attr_legal (c ∷ cs) = is_attr_legal c cs && are_attr_legal cs

pub record IsAttrSound (a : Attr) : Type 0 where
  pub live : a.magic ≡ attr_magic → is_attr_live a.real_ptr a.calls ≡ true
  pub legal : are_attr_legal a.calls ≡ true

pub data AttrOperation : Type 0 where
  init_it destroy_it : AttrOperation
  set_state set_size : ℕ → AttrOperation
  create_thread : ℕ → Bool → ℕ → ℕ → AttrOperation

pub record AttrEvent : Type 0 where
  pub operation : AttrOperation
  pub answers : AttrAnswers

unfoldable pub run_attr_operation : AttrOperation → AttrAnswers → Attr → Attr × AttrResult
run_attr_operation init_it r a = pthread_attr_init_soloader r a
run_attr_operation destroy_it r a = pthread_attr_destroy_soloader r a
run_attr_operation (set_state n) r a = pthread_attr_setdetachstate_soloader n r a
run_attr_operation (set_size n) r a = pthread_attr_setstacksize_soloader n r a
run_attr_operation (create_thread t has f x) r a = pthread_create_soloader t has f x r a

unfoldable pub run_attr_event : AttrEvent → Attr → Attr
run_attr_event e a = (run_attr_operation e.operation e.answers a).0

unfoldable pub run_attr_events : List AttrEvent → Attr → Attr
run_attr_events [] a = a
run_attr_events (e ∷ es) a = run_attr_events es (run_attr_event e a)

-- pthread_attr_init succeeds, and memory that is new holds no attribute that lives.
abbrev pub AreNew : List AttrEvent → Attr → Type 0
AreNew [] a = Unit {0}
AreNew (e ∷ es) a =
    (e.answers.init_code ≡ 0)
    × (is_attr_live e.answers.ptr a.calls ≡ false)
    × (is_attr_live e.answers.local a.calls ≡ false)
    × AreNew es (run_attr_event e a)

module _ (a : Attr) (sound : IsAttrSound a) (r : AttrAnswers) (ok : r.init_code ≡ 0)
    (dead : is_attr_live r.ptr a.calls ≡ false) where
  attr_static_init-live :
      is_attr_live (attr_static_init r a).real_ptr (attr_static_init r a).calls ≡ true
  unfolding attr_static_init is_attr_live
  attr_static_init-live = ground (arith, sound.live)

  attr_static_init-legal : are_attr_legal (attr_static_init r a).calls ≡ true
  unfolding attr_static_init are_attr_legal is_attr_legal
  attr_static_init-legal = ground (arith, sound.legal)

  run_attr_operation-IsAttrSound :
      (o : AttrOperation)
      → is_attr_live r.local a.calls ≡ false
      → IsAttrSound (run_attr_operation o r a).0
  unfolding run_attr_operation pthread_attr_init_soloader pthread_attr_destroy_soloader
      pthread_attr_setdetachstate_soloader pthread_attr_setstacksize_soloader
      pthread_create_soloader create_with create_without is_attr_live are_attr_legal is_attr_legal
      was_destroyed
  run_attr_operation-IsAttrSound init_it h = record {
    live = λ m. attr_static_init-live;
    legal = attr_static_init-legal;
  }
  run_attr_operation-IsAttrSound destroy_it h = record {
    live = λ m. ground (arith, sound.live);
    legal = ground (arith, sound.live, sound.legal);
  }
  run_attr_operation-IsAttrSound (set_state n) h = record {
    live = λ m. attr_static_init-live;
    legal = ground (arith, attr_static_init-live, attr_static_init-legal);
  }
  run_attr_operation-IsAttrSound (set_size n) h = record {
    live = λ m. attr_static_init-live;
    legal = ground (arith, attr_static_init-live, attr_static_init-legal);
  }
  run_attr_operation-IsAttrSound (create_thread t has f x) h = record {
    live = λ m. ground (arith, sound.live, attr_static_init-live);
    legal = ground (arith, sound.live, sound.legal, attr_static_init-live, attr_static_init-legal);
  }

-- Each run of the game's calls on an attribute, the start of threads included, gives the library
-- only attributes that have been initialized and not destroyed, and frees the memory of one right
-- after it was destroyed. It is assumed that each call of pthread_attr_init succeeds, and that
-- malloc and the stack give no memory that an attribute that lives is in. At first the mark of the
-- attribute is not set, or it lives.
pub run_attr_events-IsAttrSound :
    (es : List AttrEvent) (a : Attr)
    → IsAttrSound a
    → AreNew es a
    → IsAttrSound (run_attr_events es a)
unfolding run_attr_events run_attr_event
run_attr_events-IsAttrSound [] a sound new = sound
run_attr_events-IsAttrSound (e ∷ es) a sound (ok, p, l, new) =
    run_attr_events-IsAttrSound es (run_attr_event e a)
      (run_attr_operation-IsAttrSound a sound e.answers ok p e.operation l) new

-- Where pthread_attr_init fails, the mark is set all the same, and the attribute that could not be
-- initialized is given to the library.
setstacksize_after_failure :
    (a : Attr) (r : AttrAnswers) (n : ℕ)
    → a.magic ≢ attr_magic
    → r.init_code ≢ 0
    → is_attr_live r.ptr a.calls ≡ false
    → are_attr_legal (pthread_attr_setstacksize_soloader n r a).0.calls ≡ false
unfolding pthread_attr_setstacksize_soloader attr_static_init are_attr_legal is_attr_legal
    is_attr_live
setstacksize_after_failure a r n new failed dead = ground arith
