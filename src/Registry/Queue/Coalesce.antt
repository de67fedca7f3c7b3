-- ===== src/Registry/Queue/Coalesce.antt =====
-- Merging jobs changes what is written, but not what the memory card ends up with.
use zombie_shooter_ps_vita_p.Prelude.{
  ℕ, zero, suc, ◌+◌, ◌≡◌, ◌≢◌, ◌⊎◌, refl, sym, ap, ◌∙◌, true, false, Option, none, some, List, [],
  ◌∷◌, ◌++◌, arith, if◌then◌else◌, str_eq, str_eq→eq, str_eq_refl, Bool-cases, inl, inr,
}
use native.Mathlib.Nat.{zero-add}
use zombie_shooter_ps_vita_p.Registry.Table.{Str}
use zombie_shooter_ps_vita_p.Registry.Queue.{
  PrefIoOp, io_write, io_delete, io_clear, PrefIoJob, KeyOp, put, delete, op_code, op_value,
  key_job, clear_job, has_key, match_step, match_from, merge_at, merge_or_append, enqueue_key,
  enqueue_clear, Card, run_op, run_job, run_queue,
}

run_queue-append :
    (q r : List PrefIoJob) (card : Card) → run_queue (q ++ r) card ≡ run_queue r (run_queue q card)
unfolding run_queue
run_queue-append [] r card = refl
run_queue-append (j ∷ q) r card = run_queue-append q r (run_job j card)

-- A job acts on each key apart.
run_op_local :
    (op : PrefIoOp) (key value : Option Str) (c c' : Card) (j : Str)
    → c j ≡ c' j
    → run_op op key value c j ≡ run_op op key value c' j
unfolding run_op
run_op_local io_clear key value c c' j h = refl
run_op_local io_write none value c c' j h = h
run_op_local io_write (some k) value c c' j h = ground arith
run_op_local io_delete none value c c' j h = h
run_op_local io_delete (some k) value c c' j h = ground arith

pub run_queue_local :
    (q : List PrefIoJob) (c c' : Card) (j : Str) → c j ≡ c' j → run_queue q c j ≡ run_queue q c' j
unfolding run_queue
run_queue_local [] c c' j h = h
run_queue_local (a ∷ q) c c' j h =
    run_queue_local q (run_job a c) (run_job a c') j
      (unfold run_job in run_op_local a.op a.key a.value c c' j h)

-- No job of the queue is a clear or has the key `k`.
unfoldable pub Untouched : Str → List PrefIoJob → Type 0
Untouched k [] = Unit {0}
Untouched k (a ∷ q) = (a.op ≢ io_clear) × (has_key a.key k ≡ false) × Untouched k q

-- The job at the index has the key `k`, and none after it is a clear or has that key.
unfoldable pub IsLast : Str → ℕ → List PrefIoJob → Type 0
IsLast k x [] = ⊥
IsLast k zero (a ∷ q) = (a.op ≢ io_clear) × (has_key a.key k ≡ true) × Untouched k q
IsLast k (suc x) (a ∷ q) = IsLast k x q

run_op_other :
    (k j : Str) (op : PrefIoOp) (key value : Option Str) (c : Card)
    → op ≢ io_clear
    → has_key key k ≡ false
    → str_eq k j ≡ true
    → run_op op key value c j ≡ c j
unfolding run_op has_key
run_op_other k j io_clear key value c n h e = absurd (n refl)
run_op_other k j io_write none value c n h e = refl
run_op_other k j io_write (some i) value c n h e = ground (arith, str_eq→eq k j)
run_op_other k j io_delete none value c n h e = refl
run_op_other k j io_delete (some i) value c n h e = ground (arith, str_eq→eq k j)

run_queue-Untouched :
    (k j : Str) (q : List PrefIoJob) (c : Card)
    → Untouched k q
    → str_eq k j ≡ true
    → run_queue q c j ≡ c j
unfolding run_queue Untouched
run_queue-Untouched k j [] c u e = refl
run_queue-Untouched k j (a ∷ q) c u e =
    run_queue-Untouched k j q (run_job a c) u.2 e
    ∙ (unfold run_job in run_op_other k j a.op a.key a.value c u.0 u.1 e)

step_cases :
    (i x : ℕ) (k : Str) (op : PrefIoOp) (key : Option Str) (m : Option ℕ)
    → match_step i k op key m ≡ some x
    → ((i ≡ x) × (op ≢ io_clear) × (has_key key k ≡ true))
      ⊎ ((m ≡ some x) × (op ≢ io_clear) × (has_key key k ≡ false))
unfolding match_step
step_cases i x k io_clear key m h = cc
step_cases i x k io_write key m h = elim (Bool-cases (has_key key k)) [
  | inl same ↦ inl (ground arith, (λ e. cc), same)
  | inr other ↦ inr (ground arith, (λ e. cc), other)
]
step_cases i x k io_delete key m h = elim (Bool-cases (has_key key k)) [
  | inl same ↦ inl (ground arith, (λ e. cc), same)
  | inr other ↦ inr (ground arith, (λ e. cc), other)
]

pub match_from_cases :
    (i : ℕ) (k : Str) (q : List PrefIoJob) (m : Option ℕ) (x : ℕ)
    → match_from i k q m ≡ some x
    → ((y : ℕ) × (x ≡ i + y) × IsLast k y q) ⊎ ((m ≡ some x) × Untouched k q)
unfolding match_from IsLast Untouched
match_from_cases i k [] m x h = inr (h, tt)
match_from_cases i k (a ∷ q) m x h =
    elim (match_from_cases (suc i) k q (match_step i k a.op a.key m) x h) [
      | inl (y, e, l) ↦ inl (suc y, omega arith, l)
      | inr (e, u) ↦ elim (step_cases i x k a.op a.key m e) [
        | inl (here, n, same) ↦ inl (0, omega arith, (n, same, u))
        | inr (before, n, other) ↦ inr (before, (n, other, u))
      ]
    ]

run_merged :
    (k j : Str) (o : KeyOp) (key : Option Str) (c : Card)
    → has_key key k ≡ true
    → run_op (op_code o) key (op_value o) c j ≡ (if str_eq k j then op_value o else c j)
unfolding run_op has_key
run_merged k j o none c h = cc
run_merged k j (put v) (some i) c h = ground (arith, str_eq→eq i k)
run_merged k j delete (some i) c h = ground (arith, str_eq→eq i k)

-- A job for `k` leaves the other keys alone.
run_op_elsewhere :
    (k j : Str) (op : PrefIoOp) (key value : Option Str) (c : Card)
    → op ≢ io_clear
    → has_key key k ≡ true
    → str_eq k j ≡ false
    → run_op op key value c j ≡ c j
unfolding run_op has_key
run_op_elsewhere k j io_clear key value c n h e = absurd (n refl)
run_op_elsewhere k j op none value c n h e = cc
run_op_elsewhere k j io_write (some i) value c n h e = ground (arith, str_eq→eq i k)
run_op_elsewhere k j io_delete (some i) value c n h e = ground (arith, str_eq→eq i k)

run_queue-merge_at :
    (k j : Str) (o : KeyOp) (x : ℕ) (q : List PrefIoJob) (c : Card)
    → IsLast k x q
    → run_queue (merge_at x o q) c j ≡ (if str_eq k j then op_value o else run_queue q c j)
unfolding run_queue merge_at IsLast run_job
run_queue-merge_at k j o x [] c l = absurd l
run_queue-merge_at k j o zero (a ∷ q) c l = elim (Bool-cases (str_eq k j)) [
  | inl e ↦
      rw (e, run_queue-Untouched k j q (run_op (op_code o) a.key (op_value o) c) l.2 e)
        (run_merged k j o a.key c l.1 ∙ ap (λ b. if b then op_value o else c j) e)
  | inr e ↦ rw e (
      run_queue_local q (run_op (op_code o) a.key (op_value o) c) (run_op a.op a.key a.value c) j (
        run_merged k j o a.key c l.1
        ∙ ap (λ b. if b then op_value o else c j) e
        ∙ sym (run_op_elsewhere k j a.op a.key a.value c l.0 l.1 e)))
]
run_queue-merge_at k j o (suc x) (a ∷ q) c l =
    run_queue-merge_at k j o x q (run_op a.op a.key a.value c) l

run_queue-key_job :
    (k j : Str) (o : KeyOp) (q : List PrefIoJob) (c : Card)
    → run_queue (q ++ key_job k o ∷ []) c j ≡ (if str_eq k j then op_value o else run_queue q c j)
unfolding run_queue run_job
run_queue-key_job k j o q c =
    rw (run_queue-append q (key_job k o ∷ []) c)
      (unfold has_key in run_merged k j o (some k) (run_queue q c) (str_eq_refl k))

enqueue_effect :
    (k j : Str) (o : KeyOp) (q : List PrefIoJob) (c : Card) (m : Option ℕ)
    → match_from 0 k q none ≡ m
    → run_queue (merge_or_append k o q m) c j ≡ (if str_eq k j then op_value o else run_queue q c j)
unfolding merge_or_append
enqueue_effect k j o q c none h = run_queue-key_job k j o q c
enqueue_effect k j o q c (some x) h = elim (match_from_cases 0 k q none x h) [
  | inl (y, e, l) ↦ rw (e, zero-add y) (run_queue-merge_at k j o y q c l)
  | inr (e, u) ↦ cc
]

-- Once the queue has run, a key that was enqueued has its new value, or none after a deletion, and
-- every other key has what the queue without the new job would leave: whichever job it was merged
-- with, and wherever that job stood.
pub run_queue-enqueue_key :
    (k j : Str) (o : KeyOp) (q : List PrefIoJob) (card : Card)
    → run_queue (enqueue_key k o q) card j ≡ (if str_eq k j then op_value o else run_queue q card j)
unfolding enqueue_key
run_queue-enqueue_key k j o q card = enqueue_effect k j o q card (match_from 0 k q none) refl

-- Merging cannot be seen on the memory card: the queue ends like one that keeps every job.
pub enqueue_key-append :
    (k j : Str) (o : KeyOp) (q : List PrefIoJob) (card : Card)
    → run_queue (enqueue_key k o q) card j ≡ run_queue (q ++ key_job k o ∷ []) card j
enqueue_key-append k j o q card =
    run_queue-enqueue_key k j o q card ∙ sym (run_queue-key_job k j o q card)

-- Nor can dropping the jobs before a clear.
pub enqueue_clear-append :
    (j : Str) (q : List PrefIoJob) (card : Card)
    → (run_queue (enqueue_clear q) card j ≡ none)
      × (run_queue (enqueue_clear q) card j ≡ run_queue (q ++ clear_job ∷ []) card j)
unfolding enqueue_clear run_queue run_job run_op
enqueue_clear-append j q card = rw (run_queue-append q (clear_job ∷ []) card) (refl, refl)
