-- ===== src/Threads/Semaphores.antt =====
-- The semaphores of reimpl/pthr.c. The kernel is a log of the calls made to it, newest first;
-- `fails` says whether an answer is negative. A time out of none waits for ever.
use zombie_shooter_ps_vita_p.Prelude.{
  ℕ, ◌+◌, ◌-◌, ◌*◌, ◌/◌, ◌%◌, ◌^◌, ◌≤◌, ◌<◌, ◌≡◌, Bool, true, false, Option, none, some, List, ◌∷◌,
  if◌then◌else◌, leb, arith,
}

pub data KernelCall : Type 0 where
  create_sema : ℕ → KernelCall
  delete_sema signal_sema get_sema : ℕ → KernelCall
  wait_sema : ℕ → Option ℕ → KernelCall

pub data SemResult : Type 0 where
  done failed : SemResult

unfoldable pub sem_result : Bool → SemResult
sem_result true = failed
sem_result false = done

unfoldable pub sem_destroy_soloader : ℕ → Bool → List KernelCall → List KernelCall × SemResult
sem_destroy_soloader uid fails calls = (delete_sema uid ∷ calls, sem_result fails)

-- The current count, where the kernel gives it.
unfoldable pub sem_getvalue_soloader :
    ℕ → Option ℕ → List KernelCall → List KernelCall × Option ℕ × SemResult
sem_getvalue_soloader uid none calls = (get_sema uid ∷ calls, none, failed)
sem_getvalue_soloader uid (some count) calls = (get_sema uid ∷ calls, some count, done)

-- The id that the kernel answers, which is stored even where it is negative.
unfoldable pub sem_init_soloader : ℕ → ℕ → Bool → List KernelCall → List KernelCall × ℕ × SemResult
sem_init_soloader value uid fails calls = (create_sema value ∷ calls, uid, sem_result fails)

unfoldable pub sem_post_soloader : ℕ → Bool → List KernelCall → List KernelCall × SemResult
sem_post_soloader uid fails calls = (signal_sema uid ∷ calls, sem_result fails)

unfoldable pub sem_trywait_soloader : ℕ → Bool → List KernelCall → List KernelCall × SemResult
sem_trywait_soloader uid fails calls = (wait_sema uid (some 1000) ∷ calls, sem_result fails)

unfoldable pub sem_wait_soloader : ℕ → Bool → List KernelCall → List KernelCall × SemResult
sem_wait_soloader uid fails calls = (wait_sema uid none ∷ calls, sem_result fails)

-- A deadline in microseconds: seconds and nanoseconds.
unfoldable pub deadline_us : ℕ → ℕ → ℕ
deadline_us sec nsec = sec * 1000 * 1000 + nsec / 1000

-- The second half of sem_timedwait_soloader, at the time `now` in milliseconds. The difference is
-- negative on the last line, and its 32 low bits are the time out.
unfoldable pub wait_until : ℕ → ℕ → ℕ → Bool → List KernelCall → List KernelCall × SemResult
wait_until uid now timeout fails calls = if leb (now * 1000) timeout then (calls, failed) else (
  wait_sema uid (some ((2 ^ 32 - (now * 1000 - timeout) % 2 ^ 32) % 2 ^ 32)) ∷ calls,
  sem_result fails,
)

-- `first` says whether the wait of one millisecond fails.
unfoldable pub sem_timedwait_soloader :
    ℕ → Option (ℕ × ℕ) → ℕ → Bool → Bool → List KernelCall → List KernelCall × SemResult
sem_timedwait_soloader uid abstime now false fails calls = (wait_sema uid (some 1000) ∷ calls, done)
sem_timedwait_soloader uid none now true fails calls = (wait_sema uid (some 1000) ∷ calls, failed)
sem_timedwait_soloader uid (some (sec, nsec)) now true fails calls =
    wait_until uid now (deadline_us sec nsec) fails (wait_sema uid (some 1000) ∷ calls)

-- A deadline that is still to come is not waited for: the wait ends after one millisecond.
sem_timedwait_soloader-to_come :
    (uid sec nsec now : ℕ) (fails : Bool) (calls : List KernelCall)
    → now * 1000 ≤ deadline_us sec nsec
    → sem_timedwait_soloader uid (some (sec, nsec)) now true fails calls
      ≡ (wait_sema uid (some 1000) ∷ calls, failed)
unfolding sem_timedwait_soloader wait_until
sem_timedwait_soloader-to_come uid sec nsec now fails calls le = ground arith

-- For a deadline that has passed, by at most 2147 seconds, the wait lasts at least 2147 seconds.
sem_timedwait_soloader-passed :
    (uid sec nsec now : ℕ) (fails : Bool) (calls : List KernelCall)
    → deadline_us sec nsec < now * 1000
    → now * 1000 ≤ deadline_us sec nsec + 2147000000
    → (us : ℕ) × (2147000000 ≤ us)
      × (sem_timedwait_soloader uid (some (sec, nsec)) now true fails calls
          ≡ (wait_sema uid (some us) ∷ wait_sema uid (some 1000) ∷ calls, sem_result fails))
unfolding sem_timedwait_soloader wait_until
sem_timedwait_soloader-passed uid sec nsec now fails calls lt le =
    ((2 ^ 32 - (now * 1000 - deadline_us sec nsec) % 2 ^ 32) % 2 ^ 32, omega arith, ground arith)
