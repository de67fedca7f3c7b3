-- ===== src/Settings.antt =====
-- utils/settings.c: the settings, their file and what is accepted from it. `release` says whether
-- it is a release build. An `int` is an integer within its bounds.
pub mod ConfigText
pub mod Methods
pub mod RoundTrip
mod Tests
use zombie_shooter_ps_vita_p.Prelude.{
  ℕ, Bool, true, false, not, ◌&&◌, ◌||◌, Option, none, some, List, [], ◌∷◌, leb, ◌==◌,
  if◌then◌else◌, str_eq, codes,
}
use mathlib.Core.Option
use zombie_shooter_ps_vita_p.Prelude.Int.{ℤ, pos, negsuc}
use zombie_shooter_ps_vita_p.Prelude.Text.{fgets_lines, c_string, scan_word, scan_int}
use zombie_shooter_ps_vita_p.Settings.ConfigText.{Settings, settings_save}

-- value == n, and value >= 0 && value <= n.
abbrev pub is : ℤ → ℕ → Bool
is (pos v) n = v == n
is (negsuc v) n = false

abbrev pub up_to : ℤ → ℕ → Bool
up_to (pos v) n = leb v n
up_to (negsuc v) n = false

abbrev pub settings_reset : Bool → Settings
settings_reset release = record {
  asset_cache_mib = pos 8;
  asset_negative_cache = pos 1;
  audio_frames = pos 1024;
  software_width = pos 864;
  music_mode = pos 2;
  log_mode = if release then pos 1 else pos 2;
  framebuffer_565 = pos 0;
  software_frameskip = pos 1;
  render_diagnostics = pos 0;
  sample_setting = pos 1;
  sample_setting2 = true;
}

pub data Key : Type 0 where
  asset_negative_cache asset_cache_mib audio_frames software_width : Key
  music_mode log_mode vita_shooter framebuffer_565 : Key
  render_diagnostics software_frameskip sample_setting sample_setting2 : Key
  unknown : Key

-- The tests of settings_load on the name of a line.
abbrev pub key_of : List ℕ → Key
key_of name =
    if str_eq (codes "asset_negative_cache") name
    then asset_negative_cache
    else if str_eq (codes "asset_cache_mib") name
    then asset_cache_mib
    else if str_eq (codes "audio_frames") name
    then audio_frames
    else if str_eq (codes "software_width") name
    then software_width
    else if str_eq (codes "music_mode") name
    then music_mode
    else if str_eq (codes "log_mode") name
    then log_mode
    else if str_eq (codes "vita_shooter") name
    then vita_shooter
    else if str_eq (codes "framebuffer_565") name
    then framebuffer_565
    else if str_eq (codes "render_diagnostics") name
    then render_diagnostics
    else if str_eq (codes "software_frameskip") name
    then software_frameskip
    else if str_eq (codes "setting_sampleSetting") name
    then sample_setting
    else if str_eq (codes "setting_sampleSetting2") name
    then sample_setting2
    else unknown

-- What settings_load does with the value of such a line.
unfoldable pub store_setting : Key → ℤ → Settings → Settings
store_setting asset_negative_cache v s = record s {
  asset_negative_cache = (if is v 0 then pos 0 else pos 1);
}
store_setting asset_cache_mib v s = record s {
  asset_cache_mib = (if is v 0 || is v 8 || is v 16 then v else pos 8);
}
store_setting audio_frames v s = record s {
  audio_frames = (if is v 128 || is v 1024 || is v 2048 then v else pos 1024);
}
store_setting software_width v s = record s {
  software_width = (if is v 0 || is v 768 || is v 864 || is v 960 then v else pos 864);
}
store_setting music_mode v s = record s { music_mode = (if up_to v 2 then v else pos 0) }
store_setting log_mode v s = record s { log_mode = (if up_to v 3 then v else s.log_mode) }
store_setting vita_shooter v s = s
store_setting framebuffer_565 v s = record s { framebuffer_565 = (if is v 2 then pos 2 else pos 0) }
store_setting render_diagnostics v s = record s {
  render_diagnostics = (if up_to v 7 then v else pos 0);
}
store_setting software_frameskip v s = record s {
  software_frameskip = (if is v 2 then pos 2 else if is v 0 then pos 0 else pos 1);
}
store_setting sample_setting v s = record s { sample_setting = v }
store_setting sample_setting2 v s = record s { sample_setting2 = not (is v 0) }
store_setting unknown v s = s

abbrev pub with_value : List ℕ → Option ℤ → Option (List ℕ × ℤ)
with_value name none = none
with_value name (some v) = some (name, v)

abbrev pub scan_rest : Option (List ℕ × List ℕ) → Option (List ℕ × ℤ)
scan_rest none = none
scan_rest (some (name, rest)) = with_value name (scan_int rest)

-- sscanf(line, "%29s %d", ...) == 2, with what it reads.
unfoldable pub scan_setting : List ℕ → Option (List ℕ × ℤ)
scan_setting line = scan_rest (scan_word 29 (c_string line))

abbrev pub store_scanned : Option (List ℕ × ℤ) → Settings → Settings
store_scanned none s = s
store_scanned (some (name, v)) s = store_setting (key_of name) v s

unfoldable pub load_line : List ℕ → Settings → Settings
load_line line s = store_scanned (scan_setting line) s

unfoldable pub load_lines : List (List ℕ) → Settings → Settings
load_lines [] s = s
load_lines (line ∷ lines) s = load_lines lines (load_line line s)

-- The settings after settings_load, and the configuration file. The file is `none` if fopen fails
-- to read it; `writable` says whether fopen can create it.
unfoldable pub settings_load : Bool → Bool → Option (List ℕ) → Settings × Option (List ℕ)
settings_load release writable none = (
  settings_reset release,
  if writable then some (settings_save (settings_reset release)) else none,
)
settings_load release writable (some text) =
    (load_lines (fgets_lines 128 text) (settings_reset release), some text)
