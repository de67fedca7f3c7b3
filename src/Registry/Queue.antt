-- ===== src/Registry/Queue.antt =====
-- preferences_store.inc: the queue of the save worker. The list runs from pref_io_head to
-- pref_io_tail.
pub mod Coalesce
pub mod Keys
use zombie_shooter_ps_vita_p.Prelude.{
  ℕ, zero, suc, ◌≡◌, Bool, true, false, Option, none, some, List, [], ◌∷◌, ◌++◌, if◌then◌else◌,
  str_eq,
}
use mathlib.Core.Option
use zombie_shooter_ps_vita_p.Registry.Table.{Str}

pub data PrefIoOp : Type 0 where
  io_write io_delete io_clear : PrefIoOp

-- A `NULL` key or value is `none`.
pub record PrefIoJob : Type 0 where
  pub op : PrefIoOp
  pub key : Option Str
  pub value : Option Str

pub data KeyOp : Type 0 where
  put : Str → KeyOp
  delete : KeyOp

abbrev pub op_code : KeyOp → PrefIoOp
op_code (put v) = io_write
op_code delete = io_delete

abbrev pub op_value : KeyOp → Option Str
op_value (put v) = some v
op_value delete = none

-- The job that pref_io_enqueue_key fills in.
abbrev pub key_job : Str → KeyOp → PrefIoJob
key_job k o = record { op = op_code o; key = some k; value = op_value o }

abbrev pub clear_job : PrefIoJob
clear_job = record { op = io_clear; key = none; value = none }

unfoldable pub has_key : Option Str → Str → Bool
has_key none k = false
has_key (some j) k = str_eq j k

-- One round of the search for a job to merge with, at job `i`.
unfoldable pub match_step : ℕ → Str → PrefIoOp → Option Str → Option ℕ → Option ℕ
match_step i k io_clear key m = none
match_step i k io_write key m = if has_key key k then some i else m
match_step i k io_delete key m = if has_key key k then some i else m

-- `match`, after the loop over the queue.
unfoldable pub match_from : ℕ → Str → List PrefIoJob → Option ℕ → Option ℕ
match_from i k [] m = m
match_from i k (j ∷ q) m = match_from (suc i) k q (match_step i k j.op j.key m)

-- `match->value` and `match->op` are replaced; its key stays.
unfoldable pub merge_at : ℕ → KeyOp → List PrefIoJob → List PrefIoJob
merge_at i o [] = []
merge_at zero o (j ∷ q) = record j { op = op_code o; value = op_value o } ∷ q
merge_at (suc i) o (j ∷ q) = j ∷ merge_at i o q

unfoldable pub merge_or_append : Str → KeyOp → List PrefIoJob → Option ℕ → List PrefIoJob
merge_or_append k o q (some i) = merge_at i o q
merge_or_append k o q none = q ++ key_job k o ∷ []

-- pref_io_enqueue_key, with the worker running and its allocations made.
unfoldable pub enqueue_key : Str → KeyOp → List PrefIoJob → List PrefIoJob
enqueue_key k o q = merge_or_append k o q (match_from 0 k q none)

-- pref_io_enqueue_clear: pref_io_queue_drop_all_locked, and the new job alone.
unfoldable pub enqueue_clear : List PrefIoJob → List PrefIoJob
enqueue_clear q = clear_job ∷ []

-- What the memory card holds for each key.
abbrev pub Card : Type 0
Card = Str → Option Str

unfoldable pub run_op : PrefIoOp → Option Str → Option Str → Card → Card
run_op io_clear key value card j = none
run_op io_write none value card j = card j
run_op io_write (some k) value card j = if str_eq k j then some (Option.get_or value []) else card j
run_op io_delete none value card j = card j
run_op io_delete (some k) value card j = if str_eq k j then none else card j

-- pref_io_process, where no file operation fails.
unfoldable pub run_job : PrefIoJob → Card → Card
run_job j card = run_op j.op j.key j.value card

-- The worker's loop, until the queue is empty.
unfoldable pub run_queue : List PrefIoJob → Card → Card
run_queue [] card = card
run_queue (j ∷ q) card = run_queue q (run_job j card)
