-- ===== src/RenderReuse/Tests.antt =====
-- Runs of the policies of reuse.
use zombie_shooter_ps_vita_p.Prelude.{ℕ, ◌≤◌, ◌≡◌, refl, true, false, arith, List, [], ◌∷◌}
use zombie_shooter_ps_vita_p.RenderReuse.{
  RenderReusePolicy, fresh_policy, own, choose_phase, render_reuse_choose, render_reuse_complete,
  UploadReuseGuard,
}
use zombie_shooter_ps_vita_p.RenderReuse.Methods.{
  render_reuse_choose-render_reuse_choose, complete_all, AreSlow, slow_end, slow_render,
  complete_all-AreSlow, render_reuse_complete-turns,
}

-- The second frame of an owner whose renders are expensive.
abbrev busy : RenderReusePolicy
busy = record {
  owner = 7;
  argument = 1;
  has_frame = true;
  expensive = true;
  slow = 4;
  fast = 0;
  phase = 1;
}

busy_again : (render_reuse_choose 1 7 1 busy).1 ≡ true
unfolding render_reuse_choose own choose_phase
busy_again = refl

render_reuse_choose-render_reuse_choose_example :
    (render_reuse_choose 2 7 1 (render_reuse_choose 1 7 1 busy).0).1 ≡ false
render_reuse_choose-render_reuse_choose_example =
    render_reuse_choose-render_reuse_choose 1 7 1 2 7 1 busy busy_again

abbrev times : List ℕ
times = 8000 ∷ 9000 ∷ 12000 ∷ 8001 ∷ []

times-AreSlow : AreSlow times
times-AreSlow =
    slow_render (omega arith)
      (slow_render (omega arith) (slow_render (omega arith) (slow_render (omega arith) slow_end)))

complete_all-AreSlow_example : (complete_all times (fresh_policy 7 1)).expensive ≡ true
complete_all-AreSlow_example =
    complete_all-AreSlow times (fresh_policy 7 1) times-AreSlow (omega arith) (omega arith)

render_reuse_complete-turns_example :
    ((render_reuse_complete 9000 busy).slow ≤ 4)
    × ((render_reuse_complete 9000 busy).fast ≤ 4)
    × (busy.expensive ≡ false
        → (render_reuse_complete 9000 busy).expensive ≡ true
        → (8000 ≤ 9000) × (3 ≤ busy.slow))
    × (busy.expensive ≡ true
        → (render_reuse_complete 9000 busy).expensive ≡ false
        → (9000 ≤ 4000) × (3 ≤ busy.fast))
render_reuse_complete-turns_example =
    render_reuse_complete-turns 9000 busy (omega arith) (omega arith)

abbrev uploaded : UploadReuseGuard
uploaded = record { texture = 3; producer = 7; w = 64; h = 32; valid = true }
