-- ===== src/RenderReuse/Methods.antt =====
-- Which frames are shown again.
use zombie_shooter_ps_vita_p.Prelude.{
  ℕ, ◌+◌, ◌%◌, ◌≤◌, ◌≡◌, ◌≢◌, ◌↔◌, refl, true, false, not, ◌==◌, u32, arith, List, [], ◌∷◌, length,
}
use zombie_shooter_ps_vita_p.RenderReuse.{
  RenderReusePolicy, own, choose_phase, render_reuse_choose, count_up, complete_slow, complete_fast,
  render_reuse_complete, UploadReuseGuard, upload_reuse_matches, upload_reuse_complete,
  upload_reuse_invalidate,
}

odd_next : (n : ℕ) → (not (n % 2 == 0)) ≡ true → u32 (n + 1) % 2 ≡ 0
odd_next n h = ground arith

chosen :
    (mode : ℕ) (p : RenderReusePolicy)
    → (choose_phase mode p).1 ≡ true
    → (choose_phase mode p).0.phase % 2 ≡ 0
unfolding choose_phase
chosen mode p h = ground (arith, odd_next p.phase)

even_refuses :
    (mode : ℕ) (p : RenderReusePolicy) → p.phase % 2 ≡ 0 → (choose_phase mode p).1 ≡ false
unfolding choose_phase
even_refuses mode p h = ground arith

own_even :
    (owner argument : ℕ) (p : RenderReusePolicy)
    → p.phase % 2 ≡ 0
    → (own owner argument p).phase % 2 ≡ 0
unfolding own
own_even owner argument p h = ground arith

-- A frame is shown again at most once in a row: after such a frame the next one is rendered,
-- whatever the mode, the owner and the argument are by then.
pub render_reuse_choose-render_reuse_choose :
    (mode owner argument mode' owner' argument' : ℕ) (p : RenderReusePolicy)
    → (render_reuse_choose mode owner argument p).1 ≡ true
    → (render_reuse_choose mode' owner' argument' (render_reuse_choose mode owner argument p).0).1
      ≡ false
unfolding render_reuse_choose
render_reuse_choose-render_reuse_choose mode owner argument mode' owner' argument' p h =
    even_refuses mode' (own owner' argument' (choose_phase mode (own owner argument p)).0) (
      own_even owner' argument' (choose_phase mode (own owner argument p)).0
        (chosen mode (own owner argument p) h))

-- A frame is shown again only where the last frame was asked for by the same owner with the same
-- argument and was rendered, reuse is on, and in mode 1 only while renders are expensive.
pub render_reuse_choose-same :
    (mode owner argument : ℕ) (p : RenderReusePolicy)
    → (render_reuse_choose mode owner argument p).1 ≡ true
    → (p.owner ≡ owner)
      × (p.argument ≡ argument)
      × (p.has_frame ≡ true)
      × (mode ≢ 0)
      × (mode ≡ 1 → p.expensive ≡ true)
unfolding render_reuse_choose own choose_phase
render_reuse_choose-same mode owner argument p h = ground arith

unfoldable pub complete_all : List ℕ → RenderReusePolicy → RenderReusePolicy
complete_all [] p = p
complete_all (us ∷ uss) p = complete_all uss (render_reuse_complete us p)

pub data AreSlow : List ℕ → Type 0 where
  slow_end : AreSlow []
  slow_render : {us : ℕ} {uss : List ℕ} → 8000 ≤ us → AreSlow uss → AreSlow (us ∷ uss)

slow_step :
    (us : ℕ) (p : RenderReusePolicy)
    → 8000 ≤ us
    → p.slow ≤ 4
    → ((render_reuse_complete us p).slow ≡ count_up p.slow)
      × ((count_up p.slow == 4) ≡ true → (render_reuse_complete us p).expensive ≡ true)
      × ((count_up p.slow == 4) ≡ false → (render_reuse_complete us p).expensive ≡ p.expensive)
unfolding render_reuse_complete complete_slow
slow_step us p h k = ground arith

slow_run :
    (uss : List ℕ) (p : RenderReusePolicy)
    → AreSlow uss
    → p.slow ≤ 4
    → (p.slow ≡ 4 → p.expensive ≡ true)
    → 4 ≤ length uss + p.slow
    → (complete_all uss p).expensive ≡ true
unfolding complete_all
slow_run [] p slow_end k full enough = full (omega arith)
slow_run (us ∷ uss) p (slow_render big more) k full enough =
    let (now, turn, stay) = slow_step us p big k in
    slow_run uss (render_reuse_complete us p) more (ground (arith, now))
      (λ e. turn (ground (arith, now))) (ground (arith, now))

-- Four slow renders in a row, of at least 8000 microseconds each, or more of them, make renders count
-- as expensive, whatever came before.
pub complete_all-AreSlow :
    (uss : List ℕ) (p : RenderReusePolicy)
    → AreSlow uss
    → 4 ≤ length uss
    → p.slow ≤ 4
    → (complete_all uss p).expensive ≡ true
unfolding complete_all
complete_all-AreSlow [] p slow_end long k = absurd (omega arith)
complete_all-AreSlow (us ∷ uss) p (slow_render big more) long k =
    let (now, turn, stay) = slow_step us p big k in
    slow_run uss (render_reuse_complete us p) more (ground (arith, now))
      (λ e. turn (ground (arith, now))) (ground (arith, now))

-- One render keeps the counts at no more than four, and makes cheap renders count as expensive only if
-- it is slow and at least three were slow just before, or expensive ones as cheap only if it is fast
-- and at least three were fast just before.
pub render_reuse_complete-turns :
    (us : ℕ) (p : RenderReusePolicy)
    → p.slow ≤ 4
    → p.fast ≤ 4
    → ((render_reuse_complete us p).slow ≤ 4)
      × ((render_reuse_complete us p).fast ≤ 4)
      × (p.expensive ≡ false
          → (render_reuse_complete us p).expensive ≡ true
          → (8000 ≤ us) × (3 ≤ p.slow))
      × (p.expensive ≡ true
          → (render_reuse_complete us p).expensive ≡ false
          → (us ≤ 4000) × (3 ≤ p.fast))
unfolding render_reuse_complete complete_slow complete_fast
render_reuse_complete-turns us p s f = ground arith

-- A completed upload matches the same producer, texture and size and nothing else, never the texture
-- 0, and after an invalidation nothing at all.
pub upload_reuse_matches-upload_reuse_complete :
    (t p w h t' p' w' h' : ℕ) (g : UploadReuseGuard)
    → ((upload_reuse_matches t' p' w' h' (upload_reuse_complete t p w h g) ≡ true)
        ↔ ((t' ≢ 0) × (t' ≡ t) × (p' ≡ p) × (w' ≡ w) × (h' ≡ h)))
      × (upload_reuse_matches t' p' w' h' (upload_reuse_invalidate g) ≡ false)
unfolding upload_reuse_matches upload_reuse_complete upload_reuse_invalidate
upload_reuse_matches-upload_reuse_complete t p w h t' p' w' h' g = (ground arith, refl)
