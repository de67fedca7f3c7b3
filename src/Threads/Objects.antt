-- ===== src/Threads/Objects.antt =====
-- reimpl/pthr.c: mutexes, conditions and read-write locks. The first word of an object of the game
-- points to the object of the Vita that stands for it, which is made when the game first uses it.
-- An address is a number, 0 for a null pointer. The pthread library is a log of the calls made to
-- it, newest first; what it and malloc answer are arguments.
use zombie_shooter_ps_vita_p.Prelude.{
  ℕ, zero, suc, Bool, true, false, not, ◌||◌, Option, none, some, List, [], ◌∷◌, ◌==◌,
  if◌then◌else◌,
}

pub data Object : Type 0 where
  mutex cond rwlock : Object

-- The kinds of a mutex; `given` has the kind of an attribute.
pub data Kind : Type 0 where
  normal recursive errorcheck : Kind
  given : ℕ → Kind

pub data Use : Type 0 where
  lock trylock unlock signal broadcast rdlock wrlock rwunlock : Use

pub data Call : Type 0 where
  init : Object → Kind → ℕ → Call
  init_failed : Object → Kind → ℕ → Call
  destroy : Object → ℕ → Call
  apply : Use → ℕ → Call
  wait : ℕ → ℕ → Call
  timedwait : ℕ → ℕ → Call
  freed : ℕ → Call

-- What a function returns: an error number, or what the library returned.
pub data Result : Type 0 where
  einval enomem : Result
  returned : ℕ → Result

-- initializedObjects, the first word of each object, and the calls.
pub record Threads : Type 0 where
  pub objects : List ℕ
  pub word : ℕ → ℕ
  pub calls : List Call

-- What malloc, the library's init and the library's call itself answer.
pub record Answers : Type 0 where
  pub ptr : ℕ
  pub init_code : ℕ
  pub code : ℕ

abbrev pub pthr_max_objects : ℕ
pthr_max_objects = 1024

abbrev pub log_call : Call → Threads → Threads
log_call c s = record s { calls = c ∷ s.calls }

unfoldable pub set_word : ℕ → ℕ → (ℕ → ℕ) → ℕ → ℕ
set_word a v word b = if a == b then v else word b

abbrev pub write_word : ℕ → ℕ → Threads → Threads
write_word a v s = record s { word = set_word a v s.word }

-- The loop of isObjectInitialized over the table.
unfoldable pub has_object : ℕ → List ℕ → Bool
has_object a [] = false
has_object a (b ∷ bs) = if b == a then true else has_object a bs

unfoldable pub is_object_initialized : ℕ → Threads → Bool
is_object_initialized a s = has_object a s.objects

-- The loop of rememberObject: the first empty slot, if there is one.
unfoldable pub add_object : ℕ → List ℕ → List ℕ
add_object a [] = []
add_object a (b ∷ bs) = if b == 0 then a ∷ bs else b ∷ add_object a bs

unfoldable pub remember_object : ℕ → Threads → Threads
remember_object a s = record s { objects = add_object a s.objects }

-- The loop of forgetObject.
unfoldable pub drop_object : ℕ → List ℕ → List ℕ
drop_object a [] = []
drop_object a (b ∷ bs) = if b == a then 0 ∷ bs else b ∷ drop_object a bs

unfoldable pub forget_object : ℕ → Threads → Threads
forget_object a s = record s { objects = drop_object a s.objects }

-- The kind that the static initializer in a word asks for.
unfoldable pub static_kind : ℕ → Kind
static_kind w =
    if w == 0
    then normal
    else if w == 0x4000
    then recursive
    else if w == 0x8000
    then errorcheck
    else normal

-- _mutex_t_static_init and _cond_t_static_init, which take malloc to succeed. The functions of this
-- file are whole calls that no other call overlaps: the steps of one thread of Threads.Race in a row,
-- as Threads.Alone shows. pthr_mutex is only held inside isObjectInitialized and rememberObject.
unfoldable pub static_init : Object → Kind → ℕ → Answers → Threads → Threads × Result
static_init o k a r s =
    if is_object_initialized a s
    then (s, returned 0)
    else if r.init_code == 0
    then (remember_object a (log_call (init o k r.ptr) (write_word a r.ptr s)), returned 0)
    else (log_call (init_failed o k r.ptr) (write_word a r.ptr s), returned r.init_code)

-- `attr` is the kind of the attribute, if there is one.
abbrev pub mutex_kind : Option ℕ → ℕ → Kind
mutex_kind none w = static_kind w
mutex_kind (some k) w = given k

unfoldable pub mutex_static_init : ℕ → Option ℕ → Answers → Threads → Threads × Result
mutex_static_init a attr r s = static_init mutex (mutex_kind attr (s.word a)) a r s

unfoldable pub cond_static_init : ℕ → Answers → Threads → Threads × Result
cond_static_init a r s = static_init cond normal a r s

unfoldable pub rwlock_static_init : ℕ → Answers → Threads → Threads × Result
rwlock_static_init a r s =
    if is_object_initialized a s
    then (s, returned 0)
    else if r.ptr == 0
    then (write_word a 0 s, enomem)
    else if r.init_code == 0
    then (
      remember_object a (log_call (init rwlock normal r.ptr) (write_word a r.ptr s)),
      returned 0,
    )
    else (
      write_word a 0 (
          log_call (freed r.ptr)
            (log_call (init_failed rwlock normal r.ptr) (write_word a r.ptr s))),
      returned r.init_code,
    )

unfoldable pub pthread_mutex_init_soloader : ℕ → Option ℕ → Answers → Threads → Threads × Result
pthread_mutex_init_soloader a attr r s =
    if a == 0 then (s, einval) else mutex_static_init a attr r s

unfoldable pub pthread_cond_init_soloader : ℕ → Answers → Threads → Threads × Result
pthread_cond_init_soloader a r s = if a == 0 then (s, einval) else cond_static_init a r s

unfoldable pub pthread_rwlock_init_soloader : ℕ → Answers → Threads → Threads × Result
pthread_rwlock_init_soloader a r s = if a == 0 then (s, einval) else rwlock_static_init a r s

-- What the three functions that destroy an object do.
unfoldable pub destroy_object : Object → ℕ → Answers → Threads → Threads × Result
destroy_object o a r s =
    if a == 0 || not (is_object_initialized a s)
    then (s, returned 0)
    else if r.code == 0
    then (
      write_word a 0
          (log_call (freed (s.word a)) (forget_object a (log_call (destroy o (s.word a)) s))),
      returned 0,
    )
    else (log_call (destroy o (s.word a)) s, returned r.code)

abbrev pub pthread_mutex_destroy_soloader : ℕ → Answers → Threads → Threads × Result
pthread_mutex_destroy_soloader = destroy_object mutex

abbrev pub pthread_rwlock_destroy_soloader : ℕ → Answers → Threads → Threads × Result
pthread_rwlock_destroy_soloader = destroy_object rwlock

abbrev pub pthread_cond_destroy_soloader : ℕ → Answers → Threads → Threads × Result
pthread_cond_destroy_soloader = destroy_object cond

-- A call of the library for the object at `a`.
abbrev pub apply_to : Use → ℕ → Answers → Threads → Threads × Result
apply_to u a r s = (log_call (apply u (s.word a)) s, returned r.code)

unfoldable pub use_mutex : Use → ℕ → Answers → Threads → Threads × Result
use_mutex u a r s = if a == 0 then (s, einval) else apply_to u a r (mutex_static_init a none r s).0

abbrev pub pthread_mutex_lock_soloader : ℕ → Answers → Threads → Threads × Result
pthread_mutex_lock_soloader = use_mutex lock

abbrev pub pthread_mutex_trylock_soloader : ℕ → Answers → Threads → Threads × Result
pthread_mutex_trylock_soloader = use_mutex trylock

unfoldable pub pthread_mutex_unlock_soloader : ℕ → Answers → Threads → Threads × Result
pthread_mutex_unlock_soloader a r s =
    if a == 0 || s.word a == 0 then (s, einval) else apply_to unlock a r s

unfoldable pub use_cond : Use → ℕ → Answers → Threads → Threads × Result
use_cond u a r s = if a == 0 then (s, einval) else apply_to u a r (cond_static_init a r s).0

abbrev pub pthread_cond_signal_soloader : ℕ → Answers → Threads → Threads × Result
pthread_cond_signal_soloader = use_cond signal

abbrev pub pthread_cond_broadcast_soloader : ℕ → Answers → Threads → Threads × Result
pthread_cond_broadcast_soloader = use_cond broadcast

-- The two waits; `q` answers for the mutex.
unfoldable pub wait_with : (ℕ → ℕ → Call) → ℕ → ℕ → Answers → Answers → Threads → Threads × Result
wait_with c a m r q s =
    if a == 0 || m == 0
    then (s, einval)
    else let t = (mutex_static_init m none q (cond_static_init a r s).0).0 in
      (log_call (c (t.word a) (t.word m)) t, returned r.code)

abbrev pub pthread_cond_wait_soloader : ℕ → ℕ → Answers → Answers → Threads → Threads × Result
pthread_cond_wait_soloader = wait_with wait

abbrev pub pthread_cond_timedwait_soloader : ℕ → ℕ → Answers → Answers → Threads → Threads × Result
pthread_cond_timedwait_soloader = wait_with timedwait

abbrev pub apply_if : Use → ℕ → Answers → Threads × Result → Threads × Result
apply_if u a r (s, returned zero) = apply_to u a r s
apply_if u a r (s, returned (suc n)) = (s, returned (suc n))
apply_if u a r (s, einval) = (s, einval)
apply_if u a r (s, enomem) = (s, enomem)

unfoldable pub use_rwlock : Use → ℕ → Answers → Threads → Threads × Result
use_rwlock u a r s = if a == 0 then (s, einval) else apply_if u a r (rwlock_static_init a r s)

abbrev pub pthread_rwlock_rdlock_soloader : ℕ → Answers → Threads → Threads × Result
pthread_rwlock_rdlock_soloader = use_rwlock rdlock

abbrev pub pthread_rwlock_wrlock_soloader : ℕ → Answers → Threads → Threads × Result
pthread_rwlock_wrlock_soloader = use_rwlock wrlock

unfoldable pub pthread_rwlock_unlock_soloader : ℕ → Answers → Threads → Threads × Result
pthread_rwlock_unlock_soloader a r s =
    if a == 0 || not (is_object_initialized a s) then (s, einval) else apply_to rwunlock a r s
