-- ===== src/Settings/Tests.antt =====
-- Runs of the settings.
use zombie_shooter_ps_vita_p.Prelude.{◌≡◌, refl, true, false, some, codes, arith}
use zombie_shooter_ps_vita_p.Prelude.Int.{pos, negsuc}
use zombie_shooter_ps_vita_p.Settings.ConfigText.{Settings, settings_save}
use zombie_shooter_ps_vita_p.Settings.{settings_load}
use zombie_shooter_ps_vita_p.Settings.Methods.{IsAllowed, settings_load-IsAllowed}
use zombie_shooter_ps_vita_p.Settings.RoundTrip.{settings_load-settings_save}

abbrev chosen : Settings
chosen = record {
  asset_cache_mib = pos 16;
  asset_negative_cache = pos 0;
  audio_frames = pos 2048;
  software_width = pos 768;
  music_mode = pos 1;
  log_mode = pos 0;
  framebuffer_565 = pos 2;
  software_frameskip = pos 2;
  render_diagnostics = pos 5;
  sample_setting = negsuc 6;
  sample_setting2 = false;
}

chosen-IsAllowed : IsAllowed chosen
chosen-IsAllowed = record {
  cache = refl;
  negative = refl;
  frames = refl;
  width = refl;
  music = refl;
  log = refl;
  colors = refl;
  skip = refl;
  diagnostics = refl;
  sample = omega arith;
}

settings_load-settings_save_example :
    (settings_load true true (some (settings_save chosen))).0 ≡ chosen
settings_load-settings_save_example = settings_load-settings_save true true chosen chosen-IsAllowed

settings_load-IsAllowed_example :
    IsAllowed (settings_load true false (some (codes "software_width 1024\nmusic_mode -4\n"))).0
settings_load-IsAllowed_example =
    settings_load-IsAllowed true false (some (codes "software_width 1024\nmusic_mode -4\n"))
