-- ===== src/Threads/Sound.antt =====
-- Which pointers the calls of reimpl/pthr.c may use, and that the table, the words of the objects
-- and the calls fit together.
use zombie_shooter_ps_vita_p.Prelude.{
  ℕ, ◌≡◌, ◌≢◌, refl, ◌∙◌, Bool, true, false, not, ◌&&◌, ◌||◌, List, [], Bool-cases, inl, inr, subst,
  ◌∷◌, ◌==◌, if◌then◌else◌, arith,
}
use zombie_shooter_ps_vita_p.Threads.Objects.{
  Object, Kind, Call, init, init_failed, destroy, apply, wait, timedwait, freed, Threads,
  has_object, log_call, set_word, write_word, remember_object, forget_object,
}
use zombie_shooter_ps_vita_p.Threads.Table.{
  are_distinct, add_object-elsewhere, add_object-are_distinct, drop_object-elsewhere,
  drop_object-has_object, drop_object-are_distinct,
}

-- An object of the Vita lives from its initialization until its memory is freed.
unfoldable pub is_alive : ℕ → List Call → Bool
is_alive p [] = false
is_alive p (init o k q ∷ cs) = if q == p then true else is_alive p cs
is_alive p (freed q ∷ cs) = if q == p then false else is_alive p cs
is_alive p (init_failed o k q ∷ cs) = is_alive p cs
is_alive p (destroy o q ∷ cs) = is_alive p cs
is_alive p (apply u q ∷ cs) = is_alive p cs
is_alive p (wait q r ∷ cs) = is_alive p cs
is_alive p (timedwait q r ∷ cs) = is_alive p cs

-- The last initialization was refused, for the object at p.
unfoldable pub has_failed : ℕ → List Call → Bool
has_failed p (init_failed o k q ∷ cs) = q == p
has_failed p other = false

-- A call is given objects that live, and does not initialize one that lives; what is freed lives or
-- could not be initialized.
unfoldable pub is_legal : Call → List Call → Bool
is_legal (init o k p) cs = not (is_alive p cs)
is_legal (init_failed o k p) cs = not (is_alive p cs)
is_legal (destroy o p) cs = is_alive p cs
is_legal (apply u p) cs = is_alive p cs
is_legal (wait p q) cs = is_alive p cs && is_alive q cs
is_legal (timedwait p q) cs = is_alive p cs && is_alive q cs
is_legal (freed p) cs = is_alive p cs || has_failed p cs

unfoldable pub are_legal : List Call → Bool
are_legal [] = true
are_legal (c ∷ cs) = is_legal c cs && are_legal cs

-- Which objects the game has used or initialized and not destroyed since.
abbrev pub Flags : Type 0
Flags = ℕ → Bool

unfoldable pub set_flag : ℕ → Bool → Flags → Flags
set_flag a v g b = if a == b then v else g b

-- The objects of the table are among those of the game, each of these has an object of the Vita that
-- lives, and no two share one.
pub record IsSound (g : Flags) (s : Threads) : Type 0 where
  pub live : (b : ℕ) → b ≢ 0 → g b ≡ true → is_alive (s.word b) s.calls ≡ true
  pub apart : (b c : ℕ) → b ≢ 0 → c ≢ 0 → g b ≡ true → g c ≡ true → s.word b ≡ s.word c → b ≡ c
  pub covers : (b : ℕ) → b ≢ 0 → has_object b s.objects ≡ true → g b ≡ true
  pub distinct : are_distinct s.objects ≡ true
  pub legal : are_legal s.calls ≡ true

-- The game may forget objects that the table does not have.
pub weaken-IsSound :
    (g g' : Flags) (s : Threads)
    → IsSound g s
    → ((b : ℕ) → b ≢ 0 → g' b ≡ true → g b ≡ true)
    → ((b : ℕ) → b ≢ 0 → has_object b s.objects ≡ true → g' b ≡ true)
    → IsSound g' s
weaken-IsSound g g' s sound sub covers = record {
  live = λ b nb h. sound.live b nb (sub b nb h);
  apart = λ b c nb nc hb hc. sound.apart b c nb nc (sub b nb hb) (sub c nc hc);
  covers = covers;
  distinct = sound.distinct;
  legal = sound.legal;
}

-- A call that neither makes nor frees an object.
abbrev pub is_use : Call → Bool
is_use (init o k p) = false
is_use (freed p) = false
is_use (init_failed o k p) = true
is_use (destroy o p) = true
is_use (apply u p) = true
is_use (wait p q) = true
is_use (timedwait p q) = true

is_alive-use :
    (p : ℕ) (c : Call) (cs : List Call) → is_use c ≡ true → is_alive p (c ∷ cs) ≡ is_alive p cs
unfolding is_alive
is_alive-use p (init o k q) cs h = cc
is_alive-use p (freed q) cs h = cc
is_alive-use p (init_failed o k q) cs h = refl
is_alive-use p (destroy o q) cs h = refl
is_alive-use p (apply u q) cs h = refl
is_alive-use p (wait q r) cs h = refl
is_alive-use p (timedwait q r) cs h = refl

module _ (g : Flags) (s : Threads) (sound : IsSound g s) where
  pub use-IsSound :
      (c : Call) → is_use c ≡ true → is_legal c s.calls ≡ true → IsSound g (log_call c s)
  unfolding are_legal
  use-IsSound c u l = record {
    live = λ b nz h. is_alive-use (s.word b) c s.calls u ∙ sound.live b nz h;
    apart = sound.apart;
    covers = sound.covers;
    distinct = sound.distinct;
    legal = ground (arith, sound.legal);
  }

  -- What the table says of the object, after a call that changed no other.
  pub table_flag-IsSound : (a : ℕ) → IsSound (set_flag a (has_object a s.objects) g) s
  unfolding set_flag
  table_flag-IsSound a =
      weaken-IsSound g (set_flag a (has_object a s.objects) g) s sound
        (λ b nb h. elim (Bool-cases (a == b)) [
          | inl same ↦
              let e : a ≡ b = ground arith in
              let here : has_object a s.objects ≡ true = ground arith in
              sound.covers b nb (subst (λ (c : ℕ). has_object c s.objects ≡ true) e here)
          | inr other ↦ ground arith
        ])
        (λ b nb h. elim (Bool-cases (a == b)) [
          | inl same ↦
              let e : b ≡ a = ground arith in
              let here = subst (λ (c : ℕ). has_object c s.objects ≡ true) e h in ground arith
          | inr other ↦ let k = sound.covers b nb h in ground arith
        ])

  -- A null pointer is no object of the game.
  pub null_flag-IsSound : (x : Bool) → IsSound (set_flag 0 x g) s
  unfolding set_flag
  null_flag-IsSound x =
      weaken-IsSound g (set_flag 0 x g) s sound (λ b nb h. ground arith)
        (λ b nb h. let k = sound.covers b nb h in ground arith)

  module _ (a : ℕ) (nz : a ≢ 0) where
    -- An object that stands in the table is one of the game's.
    pub known-IsSound : has_object a s.objects ≡ true → IsSound (set_flag a true g) s
    unfolding set_flag
    known-IsSound here =
        weaken-IsSound g (set_flag a true g) s sound
          (λ b nb h. elim (Bool-cases (a == b)) [
            | inl same ↦
                let e : a ≡ b = ground arith in
                sound.covers b nb (subst (λ (c : ℕ). has_object c s.objects ≡ true) e here)
            | inr other ↦ ground arith
          ])
          (λ b nb h. let k = sound.covers b nb h in ground arith)

    -- An object is made at a fresh address, and remembered if there is room.
    pub made-IsSound :
        (o : Object) (k : Kind) (p : ℕ)
        → is_alive p s.calls ≡ false
        → has_object a s.objects ≡ false
        → IsSound (set_flag a true g) (remember_object a (log_call (init o k p) (write_word a p s)))
    unfolding remember_object set_word is_alive are_legal is_legal set_flag
    made-IsSound o k p dead absent = record {
      live = λ b nb h. ground (arith, sound.live b nb);
      apart = λ b c nb nc hb hc e.
          ground (arith, sound.apart b c nb nc, sound.live b nb, sound.live c nc);
      covers = λ b nb h. ground (arith, add_object-elsewhere a b s.objects, sound.covers b nb);
      distinct = add_object-are_distinct a s.objects nz absent sound.distinct;
      legal = ground (arith, sound.legal);
    }

    -- An object that could not be made is freed again.
    pub refused-IsSound :
        (o : Object) (k : Kind) (p : ℕ)
        → is_alive p s.calls ≡ false
        → has_object a s.objects ≡ false
        → IsSound
            (set_flag a false g)
            (write_word a 0 (log_call (freed p) (log_call (init_failed o k p) (write_word a p s))))
    unfolding set_word is_alive are_legal is_legal has_failed set_flag
    refused-IsSound o k p dead absent = record {
      live = λ b nb h. ground (arith, sound.live b nb);
      apart = λ b c nb nc hb hc e. ground (arith, sound.apart b c nb nc);
      covers = λ b nb h. ground (arith, sound.covers b nb);
      distinct = sound.distinct;
      legal = ground (arith, sound.legal);
    }

    pub cleared-IsSound :
        has_object a s.objects ≡ false → IsSound (set_flag a false g) (write_word a 0 s)
    unfolding set_word set_flag
    cleared-IsSound absent = record {
      live = λ b nb h. ground (arith, sound.live b nb);
      apart = λ b c nb nc hb hc e. ground (arith, sound.apart b c nb nc);
      covers = λ b nb h. ground (arith, sound.covers b nb);
      distinct = sound.distinct;
      legal = sound.legal;
    }

    -- An object is destroyed, forgotten and freed.
    pub destroyed-IsSound :
        (o : Object)
        → has_object a s.objects ≡ true
        → IsSound (set_flag a false g) (
            write_word a 0
              (log_call (freed (s.word a)) (forget_object a (log_call (destroy o (s.word a)) s))))
    unfolding forget_object set_word is_alive are_legal is_legal set_flag
    destroyed-IsSound o here =
        let gone = drop_object-has_object a s.objects nz sound.distinct in
        let own = sound.covers a nz here in
        let alive = sound.live a nz own in
        record {
          live = λ b nb h. ground (arith, sound.live b nb, sound.apart a b nz nb own);
          apart = λ b c nb nc hb hc e. ground (arith, sound.apart b c nb nc);
          covers = λ b nb h.
              ground (arith, gone, drop_object-elsewhere a b s.objects, sound.covers b nb);
          distinct = drop_object-are_distinct a s.objects nz sound.distinct;
          legal = ground (arith, sound.legal, alive);
        }

-- The flag of the object that is set last is the one that counts.
pub flag_twice-IsSound :
    (g : Flags) (a : ℕ) (x : Bool) (s : Threads)
    → IsSound (set_flag a x g) s
    → IsSound (set_flag a (has_object a s.objects) g) s
unfolding set_flag
flag_twice-IsSound g a x s sound =
    weaken-IsSound (set_flag a (has_object a s.objects) (set_flag a x g))
      (set_flag a (has_object a s.objects) g) s (table_flag-IsSound (set_flag a x g) s sound a)
      (λ b nb h. ground arith)
      (λ b nb h.
        let k = (table_flag-IsSound (set_flag a x g) s sound a).covers b nb h in ground arith)
