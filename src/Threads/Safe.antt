-- ===== src/Threads/Safe.antt =====
-- The invariant of the threads that call pthread_once_soloader, and what moves keep of it.
use zombie_shooter_ps_vita_p.Prelude.{
  ℕ, zero, suc, ◌≤◌, ◌≡◌, ◌≢◌, refl, sym, ap, subst, ◌∙◌, Bool, true, false, ◌==◌, arith, ◌⊎◌, inl,
  inr, Bool-cases,
}
use zombie_shooter_ps_vita_p.Threads.Once.{
  Place, waiting, saw_zero, running, ran, returned, Once, move, once_init,
}

abbrev pub is_busy : Place → Bool
is_busy running = true
is_busy ran = true
is_busy other = false

-- What a thread at a place knows of the control word and the counters.
abbrev pub Agrees : Place → ℕ → ℕ → ℕ → Type 0
Agrees waiting c n m = c ≤ 2
Agrees saw_zero c n m = c ≤ 2
Agrees running c n m = (c ≡ 1) × (n ≡ 1) × (m ≡ 0)
Agrees ran c n m = (c ≡ 1) × (n ≡ 1) × (m ≡ 1)
Agrees returned c n m = c ≡ 2

-- What the control word says of the counters and of the thread in the initializer.
abbrev pub Says : ℕ → ℕ → ℕ → (ℕ → Place) → Type 0
Says zero n m place = (n ≡ 0) × (m ≡ 0)
Says (suc zero) n m place = (n ≡ 1) × ((i : ℕ) × (is_busy (place i) ≡ true))
Says (suc (suc c)) n m place = (c ≡ 0) × (n ≡ 1) × (m ≡ 1)

pub record IsSafe (s : Once) : Type 0 where
  pub agrees : (i : ℕ) → Agrees (s.place i) s.control s.started s.completed
  pub one : (i j : ℕ) → is_busy (s.place i) ≡ true → is_busy (s.place j) ≡ true → i ≡ j
  pub says : Says s.control s.started s.completed s.place

pub move_self : (i : ℕ) (p : Place) (f : ℕ → Place) → move i p f i ≡ p
unfolding move
move_self i p f = ground arith

pub move_other : (i j : ℕ) (p : Place) (f : ℕ → Place) → i ≢ j → move i p f j ≡ f j
unfolding move
move_other i j p f ne = ground arith

pub same_or : (i j : ℕ) → (i ≡ j) ⊎ (i ≢ j)
same_or i j = elim (Bool-cases (i == j)) [
  | inl e ↦ inl (ground arith)
  | inr e ↦ inr (λ q. ground arith)
]

pub once_init-IsSafe : IsSafe once_init
once_init-IsSafe = record { agrees = λ i. omega arith; one = λ i j p q. cc; says = (refl, refl) }

pub move-all :
    (Q : Place → Type 0) (i : ℕ) (p : Place) (f : ℕ → Place)
    → Q p
    → ((j : ℕ) → i ≢ j → Q (f j))
    → (j : ℕ) → Q (move i p f j)
move-all Q i p f at_i others j = elim (same_or i j) [
  | inl e ↦ subst (λ (k : ℕ). Q (move i p f k)) e (subst Q (sym (move_self i p f)) at_i)
  | inr ne ↦ subst Q (sym (move_other i j p f ne)) (others j ne)
]

-- A thread outside the initializer knows nothing of the counters.
pub Agrees-idle :
    (p : Place) (c n m c' n' m' : ℕ)
    → is_busy p ≡ false
    → Agrees p c n m
    → c' ≤ 2
    → (c ≡ 2 → c' ≡ 2)
    → Agrees p c' n' m'
Agrees-idle waiting c n m c' n' m' b a le k = le
Agrees-idle saw_zero c n m c' n' m' b a le k = le
Agrees-idle running c n m c' n' m' b a le k = cc
Agrees-idle ran c n m c' n' m' b a le k = cc
Agrees-idle returned c n m c' n' m' b a le k = k a

pub Agrees-busy : (p : Place) (c n m : ℕ) → is_busy p ≡ true → Agrees p c n m → c ≡ 1
Agrees-busy waiting c n m b a = cc
Agrees-busy saw_zero c n m b a = cc
Agrees-busy running c n m b a = a.0
Agrees-busy ran c n m b a = a.0
Agrees-busy returned c n m b a = cc

pub not_true : (b : Bool) → (b ≡ true → ◌≡◌ {A = ℕ} 0 1) → b ≡ false
not_true true h = absurd (omega (arith, h refl))
not_true false h = refl

pub Says-move :
    (c n m i : ℕ) (p : Place) (f : ℕ → Place)
    → is_busy (f i) ≡ false
    → Says c n m f
    → Says c n m (move i p f)
Says-move zero n m i p f b h = h
Says-move (suc zero) n m i p f b (e, (o, busy)) = (
  e,
  (
    o,
    ap is_busy (
          move_other i o p f
            (λ q. let t : is_busy (f i) ≡ true = ap (λ (k : ℕ). is_busy (f k)) q ∙ busy in cc))
        ∙ busy,
  ),
)
Says-move (suc (suc c)) n m i p f b h = h

-- At most one thread is in the initializer after a move, if the others were outside it or the
-- thread was in it.
pub one_move :
    (i : ℕ) (p : Place) (f : ℕ → Place)
    → ((j k : ℕ) → is_busy (f j) ≡ true → is_busy (f k) ≡ true → j ≡ k)
    → (is_busy p ≡ true → (j : ℕ) → is_busy (f j) ≡ true → i ≡ j)
    → (j k : ℕ) → is_busy (move i p f j) ≡ true
    → is_busy (move i p f k) ≡ true
    → j ≡ k
unfolding move
one_move i p f one alone j k bj bk = elim (same_or i j) [
  | inl ej ↦ elim (same_or i k) [
    | inl ek ↦ sym ej ∙ ek
    | inr nk ↦ let b : is_busy p ≡ true = ground (arith) in absurd (nk (alone b k (ground (arith))))
  ]
  | inr nj ↦ elim (same_or i k) [
    | inl ek ↦ let b : is_busy p ≡ true = ground (arith) in absurd (nj (alone b j (ground (arith))))
    | inr nk ↦ one j k (ground (arith)) (ground (arith))
  ]
]

pub counts_le : (c n m : ℕ) (f : ℕ → Place) → Says c n m f → c ≤ 2
counts_le zero n m f h = omega arith
counts_le (suc zero) n m f h = omega arith
counts_le (suc (suc c)) n m f h = let e = h.0 in omega arith

pub counts_of_zero : (c n m : ℕ) (f : ℕ → Place) → c ≡ 0 → Says c n m f → (n ≡ 0) × (m ≡ 0)
counts_of_zero zero n m f e h = h
counts_of_zero (suc c) n m f e h = absurd (omega arith)
