-- ===== src/RenderReuse.antt =====
-- utils/render_reuse_policy.h and utils/upload_reuse_guard.h: when a rendered frame, and when an
-- upload of it, may be used again. C's 0 and 1 are Booleans, `unsigned` has 32 bits.
pub mod Methods
mod Tests
use zombie_shooter_ps_vita_p.Prelude.{
  ℕ, ◌+◌, ◌%◌, Bool, true, false, not, ◌&&◌, ◌||◌, ltb, leb, ◌==◌, if◌then◌else◌, u32, List, [],
  ◌∷◌,
}

-- `argument` and `mode` are the bit patterns of their `int`.
pub record RenderReusePolicy : Type 0 where
  pub owner : ℕ
  pub argument : ℕ
  pub has_frame : Bool
  pub expensive : Bool
  pub slow : ℕ
  pub fast : ℕ
  pub phase : ℕ

abbrev pub fresh_policy : ℕ → ℕ → RenderReusePolicy
fresh_policy owner argument = record {
  owner = owner;
  argument = argument;
  has_frame = false;
  expensive = false;
  slow = 0;
  fast = 0;
  phase = 0;
}

unfoldable pub own : ℕ → ℕ → RenderReusePolicy → RenderReusePolicy
own owner argument p =
    if not (p.owner == owner) || not (p.argument == argument)
    then fresh_policy owner argument
    else p

unfoldable pub choose_phase : ℕ → RenderReusePolicy → RenderReusePolicy × Bool
choose_phase mode p =
    if mode == 0 || not p.has_frame || (mode == 1 && not p.expensive)
    then (record p { phase = 0 }, false)
    else (record p { phase = u32 (p.phase + 1) }, not (p.phase % 2 == 0))

-- The answer is whether the last frame is shown again.
unfoldable pub render_reuse_choose : ℕ → ℕ → ℕ → RenderReusePolicy → RenderReusePolicy × Bool
render_reuse_choose mode owner argument p = choose_phase mode (own owner argument p)

-- One more of the four renders in a row that change the mode.
abbrev pub count_up : ℕ → ℕ
count_up n = if ltb n 4 then u32 (n + 1) else n

unfoldable pub complete_slow : RenderReusePolicy → RenderReusePolicy
complete_slow p =
    let n = count_up p.slow in
    record p { fast = 0; slow = n; expensive = (if n == 4 then true else p.expensive) }

unfoldable pub complete_fast : RenderReusePolicy → RenderReusePolicy
complete_fast p =
    let n = count_up p.fast in
    record p {
      slow = 0;
      fast = n;
      expensive = (if n == 4 then false else p.expensive);
      phase = (if n == 4 then 0 else p.phase);
    }

unfoldable pub render_reuse_complete : ℕ → RenderReusePolicy → RenderReusePolicy
render_reuse_complete us p =
    let q = record p { has_frame = true } in
    if leb 8000 us
    then complete_slow q
    else if leb us 4000
    then complete_fast q
    else record q { slow = 0; fast = 0 }

pub record UploadReuseGuard : Type 0 where
  pub texture : ℕ
  pub producer : ℕ
  pub w : ℕ
  pub h : ℕ
  pub valid : Bool

unfoldable pub upload_reuse_matches : ℕ → ℕ → ℕ → ℕ → UploadReuseGuard → Bool
upload_reuse_matches t p w h g =
    g.valid && (not (t == 0) && (g.texture == t && (g.producer == p && (g.w == w && g.h == h))))

unfoldable pub upload_reuse_complete : ℕ → ℕ → ℕ → ℕ → UploadReuseGuard → UploadReuseGuard
upload_reuse_complete t p w h g = record {
  texture = t;
  producer = p;
  w = w;
  h = h;
  valid = not (t == 0);
}

unfoldable pub upload_reuse_invalidate : UploadReuseGuard → UploadReuseGuard
upload_reuse_invalidate g = record g { valid = false }
