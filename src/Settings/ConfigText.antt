-- ===== src/Settings/ConfigText.antt =====
-- utils/settings.c: the configuration file that settings_save writes.
use zombie_shooter_ps_vita_p.Prelude.{ℕ, List, [], ◌∷◌, ◌++◌, Bool, true, false, map, codes}
use zombie_shooter_ps_vita_p.Prelude.Int.{ℤ, pos}
use zombie_shooter_ps_vita_p.Prelude.Text.{print_int}
use zombie_shooter_ps_vita_p.Prelude.Text.Lines.{concat_lines}

pub record Settings : Type 0 where
  pub asset_cache_mib : ℤ
  pub asset_negative_cache : ℤ
  pub audio_frames : ℤ
  pub software_width : ℤ
  pub music_mode : ℤ
  pub log_mode : ℤ
  pub framebuffer_565 : ℤ
  pub software_frameskip : ℤ
  pub render_diagnostics : ℤ
  pub sample_setting : ℤ
  pub sample_setting2 : Bool

-- A line of the file: `#` and a text, or a name, a space and a number.
pub data ConfigLine : Type 0 where
  comment : List ℕ → ConfigLine
  assign : List ℕ → ℤ → ConfigLine

-- The line without its end.
abbrev pub render : ConfigLine → List ℕ
render (comment s) = 35 ∷ s
render (assign name v) = name ++ 32 ∷ print_int v

abbrev pub int_of_bool : Bool → ℤ
int_of_bool false = pos 0
int_of_bool true = pos 1

abbrev pub config_lines : Settings → List ConfigLine
config_lines s =
    comment (codes " Zombie Shooter Vita runtime configuration")
    ∷ comment (codes " software_width modes:")
    ∷ comment (codes "   0   = original Android engine policy (~1024x580 on Vita, no scale hook)")
    ∷ comment (codes "   960 = cap work surface to ~960x544")
    ∷ comment (codes "   864 = cap work surface to ~864x489 (real-Vita validated, recommended)")
    ∷ comment (codes "   768 = experimental ~768x435; physical output stays 960x544")
    ∷ comment (codes " music_mode modes:")
    ∷ comment (codes "   0 = no replacement music backend; stable/silent fallback")
    ∷ comment (codes "   1 = LEGACY PCM16 WAV hook; confirmed OpenSL crash, diagnostic only")
    ∷ comment (codes "   2 = original M4A/AAC worker + existing Vita mixer; no conversion package")
    ∷ comment (codes " log_mode modes:")
    ∷ comment (
        codes
          "   0 = no persistent runtime log (maximum performance; fatal still prints to console)")
    ∷ comment (codes "   1 = errors + fatal only (recommended Release default)")
    ∷ comment (codes "   2 = errors + fatal + PERF telemetry (Debug default; A/B profiling)")
    ∷ comment
        (codes "   3 = verbose diagnostics where compiled (explicit opt-in; very slow on Vita)")
    ∷ comment (codes " framebuffer_565 modes:")
    ∷ comment (codes "   0 = native RGBA8888 final upload (recommended; faster on real Vita)")
    ∷ comment
        (codes "   2 = corrected RGBA8888->RGB565 diagnostic path; slower on Pass10 hardware test")
    ∷ comment (codes "   1 = legacy Pass10 value; automatically treated as 0 for safety")
    ∷ comment (codes " software_frameskip modes:")
    ∷ comment (codes "   0 = software-render every engine tick")
    ∷ comment
        (codes "   1 = adaptive: render cheap frames; reuse every other tick after costly renders")
    ∷ comment (codes "   2 = legacy forced 2:1 reuse for A/B diagnostics")
    ∷ comment (codes " Restart the game after changing these values.")
    ∷ comment
        (codes " asset_cache_mib: 0 (A/B off), 8, 16; audio_frames: 128 (baseline), 1024, 2048")
    ∷ assign (codes "asset_cache_mib") s.asset_cache_mib
    ∷ comment
        (codes " asset_negative_cache: 0=original fallback opens, 1=bounded exact ENOENT cache")
    ∷ assign (codes "asset_negative_cache") s.asset_negative_cache
    ∷ assign (codes "audio_frames") s.audio_frames
    ∷ assign (codes "software_width") s.software_width
    ∷ assign (codes "music_mode") s.music_mode
    ∷ assign (codes "log_mode") s.log_mode
    ∷ assign (codes "framebuffer_565") s.framebuffer_565
    ∷ assign (codes "software_frameskip") s.software_frameskip
    ∷ comment (
        codes
          " render_diagnostics mask: 1=GPU finish before updates, 2=full COW copy, 4=upload reused software frames")
    ∷ assign (codes "render_diagnostics") s.render_diagnostics
    ∷ assign (codes "setting_sampleSetting") s.sample_setting
    ∷ assign (codes "setting_sampleSetting2") (int_of_bool s.sample_setting2)
    ∷ []

-- The contents of the file after settings_save.
unfoldable pub settings_save : Settings → List ℕ
settings_save s = concat_lines (map render (config_lines s))
