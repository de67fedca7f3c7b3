-- ===== src/Threads/Attributes.antt =====
-- reimpl/pthr.c: attributes, the start of a thread, and the small functions on threads. The log of
-- the calls of the library is newest first; `ptr` is what malloc answers and `code` what the library
-- does. An attribute of the game is a mark and a pointer.
use zombie_shooter_ps_vita_p.Prelude.{
  ℕ, ◌*◌, Bool, ◌||◌, Option, none, some, List, ◌∷◌, ◌==◌, if◌then◌else◌, length, leb,
}

pub data AttrCall : Type 0 where
  attr_init attr_init_failed attr_destroy attr_freed : ℕ → AttrCall
  attr_setdetachstate attr_setstacksize : ℕ → ℕ → AttrCall
  create : ℕ → ℕ → ℕ → AttrCall

pub record Attr : Type 0 where
  pub magic : ℕ
  pub real_ptr : ℕ
  pub calls : List AttrCall

abbrev pub attr_magic : ℕ
attr_magic = 0x42424242

abbrev pub stack_size : ℕ
stack_size = 512 * 1024

abbrev pub log_attr : AttrCall → Attr → Attr
log_attr c a = record a { calls = c ∷ a.calls }

-- What malloc and the library's init answer, the place on the stack that a call may use, and what
-- the library answers to the call itself.
pub record AttrAnswers : Type 0 where
  pub ptr : ℕ
  pub init_code : ℕ
  pub local : ℕ
  pub code : ℕ

-- pthread_attr_init for the attribute at p.
abbrev pub init_call : ℕ → ℕ → AttrCall
init_call code p = if code == 0 then attr_init p else attr_init_failed p

-- _attr_t_static_init, whose own result only one of its callers looks at.
unfoldable pub attr_static_init : AttrAnswers → Attr → Attr
attr_static_init r a =
    if a.magic == attr_magic
    then a
    else log_attr (init_call r.init_code r.ptr) (record a { magic = attr_magic; real_ptr = r.ptr })

-- What a function returns: the library's answer, or a number of its own.
pub data AttrResult : Type 0 where
  answer number : ℕ → AttrResult
  minus_one bad_argument too_long : AttrResult

-- The functions on an attribute that is not null.
unfoldable pub pthread_attr_init_soloader : AttrAnswers → Attr → Attr × AttrResult
pthread_attr_init_soloader r a =
    (attr_static_init r a, if a.magic == attr_magic then number 0 else answer r.init_code)

unfoldable pub pthread_attr_destroy_soloader : AttrAnswers → Attr → Attr × AttrResult
pthread_attr_destroy_soloader r a =
    if a.magic == attr_magic
    then (
      record (log_attr (attr_freed a.real_ptr) (log_attr (attr_destroy a.real_ptr) a)) {
        magic = 0;
      },
      answer r.code,
    )
    else (a, number 0)

-- `!state`.
unfoldable pub swap_state : ℕ → ℕ
swap_state state = if state == 0 then 1 else 0

unfoldable pub pthread_attr_setdetachstate_soloader : ℕ → AttrAnswers → Attr → Attr × AttrResult
pthread_attr_setdetachstate_soloader state r a =
    let b = attr_static_init r a in
    (log_attr (attr_setdetachstate b.real_ptr (swap_state state)) b, answer r.code)

unfoldable pub pthread_attr_setstacksize_soloader : ℕ → AttrAnswers → Attr → Attr × AttrResult
pthread_attr_setstacksize_soloader size r a =
    let b = attr_static_init r a in (log_attr (attr_setstacksize b.real_ptr size) b, answer r.code)

-- pthread_create_soloader for an entry that is not null, without the trace. With no attribute it
-- makes one on the stack, at `local`, and goes on where that fails.
unfoldable pub create_with : ℕ → ℕ → AttrAnswers → Attr → Attr × AttrResult
create_with start param r a =
    let b = attr_static_init r a in
    (
      log_attr (create b.real_ptr start param)
          (log_attr (attr_setstacksize b.real_ptr stack_size) b),
      answer r.code,
    )

unfoldable pub create_without : ℕ → ℕ → AttrAnswers → List AttrCall → List AttrCall × AttrResult
create_without start param r calls = (
  attr_destroy r.local
      ∷ create r.local start param
      ∷ attr_setstacksize r.local stack_size
      ∷ init_call r.init_code r.local
      ∷ calls,
  answer r.code,
)

unfoldable pub pthread_create_soloader : ℕ → Bool → ℕ → ℕ → AttrAnswers → Attr → Attr × AttrResult
pthread_create_soloader thread has_attr start param r a =
    if thread == 0 || start == 0
    then (a, bad_argument)
    else if has_attr
    then create_with start param r a
    else (record a { calls = (create_without start param r a.calls).0 }, answer r.code)

unfoldable pub pthread_equal_soloader : ℕ → ℕ → ℕ → ℕ
pthread_equal_soloader t1 t2 code = if t1 == t2 then 1 else if t1 == 0 || t2 == 0 then 0 else code

abbrev pub max_task_comm_len : ℕ
max_task_comm_len = 16

-- The name is the bytes before its end, if there is one.
unfoldable pub pthread_setname_np_soloader : ℕ → Option (List ℕ) → AttrResult
pthread_setname_np_soloader thread none = bad_argument
pthread_setname_np_soloader thread (some name) =
    if thread == 0
    then bad_argument
    else if leb max_task_comm_len (length name)
    then too_long
    else number 0
