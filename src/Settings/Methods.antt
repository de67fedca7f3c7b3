-- ===== src/Settings/Methods.antt =====
-- settings_load: which settings it accepts, and that it reads what settings_save wrote.
use zombie_shooter_ps_vita_p.Prelude.{
  ℕ, ◌≡◌, refl, Bool, true, ◌||◌, Option, none, some, List, [], ◌∷◌, arith, ◌==◌, if◌then◌else◌,
  if_cases, if_both,
}
use zombie_shooter_ps_vita_p.Prelude.Int.{ℤ, pos}
use zombie_shooter_ps_vita_p.Prelude.Text.{
  fgets_lines, c_string, skip_space, scan_word, scan_int, signed_digits, to_positive, to_negative,
}
use zombie_shooter_ps_vita_p.Prelude.Text.Numbers.{IsInt32}
use zombie_shooter_ps_vita_p.Settings.ConfigText.{Settings}
use zombie_shooter_ps_vita_p.Settings.{
  is, up_to, Key, asset_negative_cache, asset_cache_mib, audio_frames, software_width, music_mode,
  log_mode, vita_shooter, framebuffer_565, render_diagnostics, software_frameskip, sample_setting,
  sample_setting2, unknown, key_of, settings_reset, store_setting, with_value, scan_rest,
  store_scanned, scan_setting, load_line, load_lines, settings_load,
}

-- The values that the rest of the program is made for.
pub record IsAllowed (s : Settings) : Type 0 where
  pub cache : (is s.asset_cache_mib 0 || is s.asset_cache_mib 8 || is s.asset_cache_mib 16) ≡ true
  pub negative : up_to s.asset_negative_cache 1 ≡ true
  pub frames : (is s.audio_frames 128 || is s.audio_frames 1024 || is s.audio_frames 2048) ≡ true
  pub width :
      (is s.software_width 0
        || is s.software_width 768
        || is s.software_width 864
        || is s.software_width 960)
      ≡ true
  pub music : up_to s.music_mode 2 ≡ true
  pub log : up_to s.log_mode 3 ≡ true
  pub colors : (is s.framebuffer_565 0 || is s.framebuffer_565 2) ≡ true
  pub skip : up_to s.software_frameskip 2 ≡ true
  pub diagnostics : up_to s.render_diagnostics 7 ≡ true
  pub sample : IsInt32 s.sample_setting

settings_reset-IsAllowed : (release : Bool) → IsAllowed (settings_reset release)
settings_reset-IsAllowed release = record {
  cache = refl;
  negative = refl;
  frames = refl;
  width = refl;
  music = refl;
  log = if_both (λ (v : ℤ). up_to v 3 ≡ true) release refl refl;
  colors = refl;
  skip = refl;
  diagnostics = refl;
  sample = omega arith;
}

-- A value that is tested, with a default where it fails.
guarded : (p : ℤ → Bool) (v d : ℤ) → p d ≡ true → p (if p v then v else d) ≡ true
guarded p v d h = if_cases (λ (t : ℤ). p t ≡ true) (p v) (λ k. k) (λ _. h)

either :
    (p : ℤ → Bool) (b : Bool) (v d : ℤ) → p v ≡ true → p d ≡ true → p (if b then v else d) ≡ true
either p b v d h k = if_both (λ (t : ℤ). p t ≡ true) b h k

store_setting-IsAllowed :
    (k : Key) (v : ℤ) (s : Settings) → IsInt32 v → IsAllowed s → IsAllowed (store_setting k v s)
unfolding store_setting
store_setting-IsAllowed asset_negative_cache v s i h = record {
  cache = h.cache;
  negative = either (λ t. up_to t 1) (is v 0) (pos 0) (pos 1) refl refl;
  frames = h.frames;
  width = h.width;
  music = h.music;
  log = h.log;
  colors = h.colors;
  skip = h.skip;
  diagnostics = h.diagnostics;
  sample = h.sample;
}
store_setting-IsAllowed asset_cache_mib v s i h = record {
  cache = guarded (λ t. is t 0 || is t 8 || is t 16) v (pos 8) refl;
  negative = h.negative;
  frames = h.frames;
  width = h.width;
  music = h.music;
  log = h.log;
  colors = h.colors;
  skip = h.skip;
  diagnostics = h.diagnostics;
  sample = h.sample;
}
store_setting-IsAllowed audio_frames v s i h = record {
  cache = h.cache;
  negative = h.negative;
  frames = guarded (λ t. is t 128 || is t 1024 || is t 2048) v (pos 1024) refl;
  width = h.width;
  music = h.music;
  log = h.log;
  colors = h.colors;
  skip = h.skip;
  diagnostics = h.diagnostics;
  sample = h.sample;
}
store_setting-IsAllowed software_width v s i h = record {
  cache = h.cache;
  negative = h.negative;
  frames = h.frames;
  width = guarded (λ t. is t 0 || is t 768 || is t 864 || is t 960) v (pos 864) refl;
  music = h.music;
  log = h.log;
  colors = h.colors;
  skip = h.skip;
  diagnostics = h.diagnostics;
  sample = h.sample;
}
store_setting-IsAllowed music_mode v s i h = record {
  cache = h.cache;
  negative = h.negative;
  frames = h.frames;
  width = h.width;
  music = guarded (λ t. up_to t 2) v (pos 0) refl;
  log = h.log;
  colors = h.colors;
  skip = h.skip;
  diagnostics = h.diagnostics;
  sample = h.sample;
}
store_setting-IsAllowed log_mode v s i h = record {
  cache = h.cache;
  negative = h.negative;
  frames = h.frames;
  width = h.width;
  music = h.music;
  log = guarded (λ t. up_to t 3) v s.log_mode h.log;
  colors = h.colors;
  skip = h.skip;
  diagnostics = h.diagnostics;
  sample = h.sample;
}
store_setting-IsAllowed vita_shooter v s i h = h
store_setting-IsAllowed framebuffer_565 v s i h = record {
  cache = h.cache;
  negative = h.negative;
  frames = h.frames;
  width = h.width;
  music = h.music;
  log = h.log;
  colors = either (λ t. is t 0 || is t 2) (is v 2) (pos 2) (pos 0) refl refl;
  skip = h.skip;
  diagnostics = h.diagnostics;
  sample = h.sample;
}
store_setting-IsAllowed render_diagnostics v s i h = record {
  cache = h.cache;
  negative = h.negative;
  frames = h.frames;
  width = h.width;
  music = h.music;
  log = h.log;
  colors = h.colors;
  skip = h.skip;
  diagnostics = guarded (λ t. up_to t 7) v (pos 0) refl;
  sample = h.sample;
}
store_setting-IsAllowed software_frameskip v s i h = record {
  cache = h.cache;
  negative = h.negative;
  frames = h.frames;
  width = h.width;
  music = h.music;
  log = h.log;
  colors = h.colors;
  skip =
      either (λ t. up_to t 2) (is v 2) (pos 2) (if is v 0 then pos 0 else pos 1) refl
        (either (λ t. up_to t 2) (is v 0) (pos 0) (pos 1) refl refl);
  diagnostics = h.diagnostics;
  sample = h.sample;
}
store_setting-IsAllowed sample_setting v s i h = record {
  cache = h.cache;
  negative = h.negative;
  frames = h.frames;
  width = h.width;
  music = h.music;
  log = h.log;
  colors = h.colors;
  skip = h.skip;
  diagnostics = h.diagnostics;
  sample = i;
}
store_setting-IsAllowed sample_setting2 v s i h = record {
  cache = h.cache;
  negative = h.negative;
  frames = h.frames;
  width = h.width;
  music = h.music;
  log = h.log;
  colors = h.colors;
  skip = h.skip;
  diagnostics = h.diagnostics;
  sample = h.sample;
}
store_setting-IsAllowed unknown v s i h = h

AllInt : Option ℤ → Type 0
AllInt none = Unit
AllInt (some v) = IsInt32 v

int_of_positive : (s : List ℕ) → AllInt (to_positive s)
unfolding AllInt
int_of_positive s = ground arith

int_of_negative : (s : List ℕ) → AllInt (to_negative s)
unfolding AllInt
int_of_negative s = ground arith

signed_digits-AllInt : (s : List ℕ) → AllInt (signed_digits s)
unfolding AllInt signed_digits
signed_digits-AllInt [] = tt
signed_digits-AllInt (c ∷ s) =
    if_both AllInt (c == 45) (int_of_negative s)
      (if_both AllInt (c == 43) (int_of_positive s) (int_of_positive (c ∷ s)))

stored-IsAllowed :
    (name : List ℕ) (o : Option ℤ) (s : Settings)
    → AllInt o
    → IsAllowed s
    → IsAllowed (store_scanned (with_value name o) s)
unfolding AllInt
stored-IsAllowed name none s i h = h
stored-IsAllowed name (some v) s i h = store_setting-IsAllowed (key_of name) v s i h

scanned-IsAllowed :
    (w : Option (List ℕ × List ℕ)) (s : Settings)
    → IsAllowed s
    → IsAllowed (store_scanned (scan_rest w) s)
unfolding scan_int
scanned-IsAllowed none s h = h
scanned-IsAllowed (some (name, rest)) s h =
    stored-IsAllowed name (signed_digits (skip_space rest)) s
      (signed_digits-AllInt (skip_space rest)) h

load_line-IsAllowed : (l : List ℕ) (s : Settings) → IsAllowed s → IsAllowed (load_line l s)
unfolding load_line scan_setting
load_line-IsAllowed l s h = scanned-IsAllowed (scan_word 29 (c_string l)) s h

load_lines-IsAllowed :
    (ls : List (List ℕ)) (s : Settings) → IsAllowed s → IsAllowed (load_lines ls s)
unfolding load_lines
load_lines-IsAllowed [] s h = h
load_lines-IsAllowed (l ∷ ls) s h =
    load_lines-IsAllowed ls (load_line l s) (load_line-IsAllowed l s h)

-- Whatever the configuration file holds, and whether or not there is one, every setting has after
-- settings_load one of the values that the program is made for.
pub settings_load-IsAllowed :
    (release writable : Bool) (file : Option (List ℕ))
    → IsAllowed (settings_load release writable file).0
unfolding settings_load
settings_load-IsAllowed release writable none = settings_reset-IsAllowed release
settings_load-IsAllowed release writable (some text) =
    load_lines-IsAllowed (fgets_lines 128 text) (settings_reset release)
      (settings_reset-IsAllowed release)
