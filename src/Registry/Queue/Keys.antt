-- ===== src/Registry/Queue/Keys.antt =====
-- The keys of the queued jobs: merging a job into another keeps what holds of every key.
use zombie_shooter_ps_vita_p.Prelude.{
  ℕ, zero, suc, ◌≡◌, ◌≢◌, refl, Option, none, some, List, [], ◌∷◌, ◌++◌, inl, inr,
}
use native.Mathlib.Nat.{zero-add}
use zombie_shooter_ps_vita_p.Registry.Table.{Str}
use zombie_shooter_ps_vita_p.Registry.Queue.{
  PrefIoOp, io_write, io_delete, io_clear, PrefIoJob, KeyOp, put, delete, op_code, key_job,
  match_from, merge_at, merge_or_append, enqueue_key, enqueue_clear,
}
use zombie_shooter_ps_vita_p.Registry.Queue.Coalesce.{IsLast, match_from_cases}

module _ (P : Str → Type 0) where
  -- A job that is not a clear has a key, and it satisfies P.
  abbrev pub JobKey : PrefIoOp → Option Str → Type 0
  JobKey io_clear key = Unit {0}
  JobKey io_write (some k) = P k
  JobKey io_write none = ⊥
  JobKey io_delete (some k) = P k
  JobKey io_delete none = ⊥

  abbrev pub EveryKey : List PrefIoJob → Type 0
  EveryKey [] = Unit {0}
  EveryKey (a ∷ q) = JobKey a.op a.key × EveryKey q

  other_op :
      (op : PrefIoOp) (key : Option Str) (o : KeyOp)
      → op ≢ io_clear
      → JobKey op key
      → JobKey (op_code o) key
  other_op io_clear key o n h = absurd (n refl)
  other_op io_write none o n h = absurd h
  other_op io_write (some k) (put v) n h = h
  other_op io_write (some k) delete n h = h
  other_op io_delete none o n h = absurd h
  other_op io_delete (some k) (put v) n h = h
  other_op io_delete (some k) delete n h = h

  EveryKey-merge_at :
      (k : Str) (x : ℕ) (o : KeyOp) (q : List PrefIoJob)
      → IsLast k x q
      → EveryKey q
      → EveryKey (merge_at x o q)
  unfolding merge_at IsLast
  EveryKey-merge_at k x o [] l h = absurd l
  EveryKey-merge_at k zero o (a ∷ q) l h = (other_op a.op a.key o l.0 h.0, h.1)
  EveryKey-merge_at k (suc x) o (a ∷ q) l h = (h.0, EveryKey-merge_at k x o q l h.1)

  EveryKey-append :
      (k : Str) (o : KeyOp) (q : List PrefIoJob)
      → P k
      → EveryKey q
      → EveryKey (q ++ key_job k o ∷ [])
  EveryKey-append k (put v) [] p h = (p, tt)
  EveryKey-append k delete [] p h = (p, tt)
  EveryKey-append k o (a ∷ q) p h = (h.0, EveryKey-append k o q p h.1)

  merged_keys :
      (k : Str) (o : KeyOp) (q : List PrefIoJob) (m : Option ℕ)
      → match_from 0 k q none ≡ m
      → P k
      → EveryKey q
      → EveryKey (merge_or_append k o q m)
  unfolding merge_or_append
  merged_keys k o q none e p h = EveryKey-append k o q p h
  merged_keys k o q (some x) e p h = elim (match_from_cases 0 k q none x e) [
    | inl (y, at_y, l) ↦ rw (at_y, zero-add y) (EveryKey-merge_at k y o q l h)
    | inr (no_match, u) ↦ cc
  ]

  pub EveryKey-enqueue_key :
      (k : Str) (o : KeyOp) (q : List PrefIoJob) → P k → EveryKey q → EveryKey (enqueue_key k o q)
  unfolding enqueue_key
  EveryKey-enqueue_key k o q p h = merged_keys k o q (match_from 0 k q none) refl p h

  pub EveryKey-enqueue_clear : (q : List PrefIoJob) → EveryKey (enqueue_clear q)
  unfolding enqueue_clear
  EveryKey-enqueue_clear q = (tt, tt)
