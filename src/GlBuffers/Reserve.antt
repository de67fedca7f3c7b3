-- ===== src/GlBuffers/Reserve.antt =====
-- reserve_guest_buffer: which name it takes, and when there is none.
use zombie_shooter_ps_vita_p.Prelude.{
  ℕ, zero, suc, ◌+◌, ◌-◌, ◌≤◌, ◌<◌, ◌≡◌, ◌≢◌, refl, subst, true, false, arith, ◌==◌, ltb,
  if◌then◌else◌, Bool-cases, inl, inr,
}
use zombie_shooter_ps_vita_p.GlBuffers.{
  GlState, store, next_candidate, reserve_from, reserve_guest_buffer, guest_buffer_count,
}

-- How the search ends: without a name, or with a free one that it has taken.
pub data Reserved (v : ℕ) (s : GlState) : GlState × ℕ → Type 0 where
  full : (n : ℕ) → 1 ≤ n → n < 65536 → Reserved v s (record s { next_guest_buffer = n }, 0)
  taken :
      (g n : ℕ)
      → g ≢ 0
      → g < 65536
      → s.guest_buffers g ≡ 0
      → 1 ≤ n
      → n < 65536
      → Reserved v s
          (record s { guest_buffers = store g v s.guest_buffers; next_guest_buffer = n }, g)

later :
    (v n : ℕ) (s : GlState) (r : GlState × ℕ)
    → Reserved v (record s { next_guest_buffer = n }) r
    → Reserved v s r
later v n s _ (full m low high) = full m low high
later v n s _ (taken g m ne small free low high) = taken g m ne small free low high

next_low : (c : ℕ) → 1 ≤ c → 1 ≤ next_candidate c
next_low c h = ground arith

next_high : (c : ℕ) → c < 65536 → next_candidate c < 65536
next_high c h = ground arith

reserve_from-Reserved :
    (rounds v : ℕ) (s : GlState)
    → 1 ≤ s.next_guest_buffer
    → s.next_guest_buffer < 65536
    → Reserved v s (reserve_from rounds v s)
unfolding reserve_from
reserve_from-Reserved zero v s low high = full s.next_guest_buffer low high
reserve_from-Reserved (suc rounds) v s low high =
    let c = s.next_guest_buffer in
    let more =
      reserve_from-Reserved rounds v (record s { next_guest_buffer = next_candidate c })
        (next_low c low) (next_high c high) in
    elim (Bool-cases (s.guest_buffers c == 0)) [
      | inl free ↦
          rw (reserve_from, free)
            (taken c (next_candidate c) (ground arith) high (ground arith) (next_low c low)
              (next_high c high))
      | inr used ↦ rw (reserve_from, used) (later v (next_candidate c) s _ more)
    ]

pub reserve_guest_buffer-Reserved :
    (v : ℕ) (s : GlState)
    → 1 ≤ s.next_guest_buffer
    → s.next_guest_buffer < 65536
    → Reserved v s (reserve_guest_buffer v s)
unfolding reserve_guest_buffer
reserve_guest_buffer-Reserved v s low high = reserve_from-Reserved 65535 v s low high

-- The candidate after `i` rounds from `c`.
abbrev after : ℕ → ℕ → ℕ
after c i = if ltb (c + i) guest_buffer_count then c + i else c + i - 65535

after_next :
    (c i : ℕ) → 1 ≤ c → c < 65536 → i < 65535 → after (next_candidate c) i ≡ after c (suc i)
after_next c i low high h = ground arith

after_offset :
    (c g : ℕ)
    → 1 ≤ c
    → c < 65536
    → 1 ≤ g
    → g < 65536
    → after c (if ltb g c then g + 65535 - c else g - c) ≡ g
after_offset c g low high ne small = ground arith

offset_small :
    (c g : ℕ)
    → 1 ≤ c
    → c < 65536
    → 1 ≤ g
    → g < 65536
    → (if ltb g c then g + 65535 - c else g - c) < 65535
offset_small c g low high ne small = ground arith

reserve_from_free :
    (rounds v : ℕ) (s : GlState)
    → (s.guest_buffers s.next_guest_buffer == 0) ≡ true
    → (reserve_from (suc rounds) v s).1 ≡ s.next_guest_buffer
unfolding reserve_from
reserve_from_free rounds v s free = rw (reserve_from, free) refl

all_rounds : 65535 ≤ 65535
all_rounds = omega arith

module _ (rounds v : ℕ) (s : GlState) (low : 1 ≤ s.next_guest_buffer)
    (high : s.next_guest_buffer < 65536) (none : (reserve_from (suc rounds) v s).1 ≡ 0) where
  none_used : (s.guest_buffers s.next_guest_buffer == 0) ≡ false
  none_used = elim (Bool-cases (s.guest_buffers s.next_guest_buffer == 0)) [
    | inl free ↦ absurd (omega (arith, reserve_from_free rounds v s free))
    | inr used ↦ used
  ]

  none_later :
      (reserve_from rounds v
        (record s { next_guest_buffer = next_candidate s.next_guest_buffer })).1
      ≡ 0
  unfolding reserve_from
  none_later = subst (λ (t : ℕ). t ≡ 0) (rw (reserve_from, none_used) refl) none

reserve_from-full :
    (rounds v : ℕ) (s : GlState)
    → 1 ≤ s.next_guest_buffer
    → s.next_guest_buffer < 65536
    → (reserve_from rounds v s).1 ≡ 0
    → (i : ℕ) → i < rounds
    → rounds ≤ 65535
    → s.guest_buffers (after s.next_guest_buffer i) ≢ 0
reserve_from-full zero v s low high none i h m = absurd (omega arith)
reserve_from-full (suc rounds) v s low high none zero h m =
    let used = none_used rounds v s low high none in ground arith
reserve_from-full (suc rounds) v s low high none (suc i) h m =
    subst (λ (t : ℕ). s.guest_buffers t ≢ 0)
      (after_next s.next_guest_buffer i low high (omega arith))
      (reserve_from-full rounds v
        (record s { next_guest_buffer = next_candidate s.next_guest_buffer })
        (next_low s.next_guest_buffer low) (next_high s.next_guest_buffer high)
        (none_later rounds v s low high none) i (omega arith) (omega arith))

-- A name is refused only if all 65535 of them are taken.
pub reserve_guest_buffer-full :
    (v : ℕ) (s : GlState)
    → 1 ≤ s.next_guest_buffer
    → s.next_guest_buffer < 65536
    → (reserve_guest_buffer v s).1 ≡ 0
    → (g : ℕ) → 1 ≤ g
    → g < 65536
    → s.guest_buffers g ≢ 0
unfolding reserve_guest_buffer
reserve_guest_buffer-full v s low high none g ne small =
    let c = s.next_guest_buffer in
    let i = if ltb g c then g + 65535 - c else g - c in
    subst (λ (t : ℕ). s.guest_buffers t ≢ 0) (after_offset c g low high ne small)
      (reserve_from-full 65535 v s low high none i (offset_small c g low high ne small) all_rounds)
