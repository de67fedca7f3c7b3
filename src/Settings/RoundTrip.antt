-- ===== src/Settings/RoundTrip.antt =====
-- settings_load reads what settings_save wrote.
use mathlib.Core.Bool.{false≢true}
use mathlib.Core.List.{append_assoc}
use zombie_shooter_ps_vita_p.Prelude.{
  ℕ, ◌<◌, ◌^◌, ◌≡◌, refl, ap, ◌∙◌, Bool, true, false, not, ◌&&◌, ◌||◌, Option, none, some, List, [],
  ◌∷◌, ◌++◌, map, arith, length, length-append, ltb, leb, if◌then◌else◌, str_eq,
}
use zombie_shooter_ps_vita_p.Prelude.Int.{ℤ, pos, negsuc}
use zombie_shooter_ps_vita_p.Prelude.Text.{skip_space, span_word, scan_word, scan_int, print_int}
use zombie_shooter_ps_vita_p.Prelude.Text.Lines.{
  is_plain, is_plain-append, is_word, line, all_plain, fgets_lines-concat_lines, c_string-line,
  scan_word-word,
}
use zombie_shooter_ps_vita_p.Prelude.Text.Numbers.{
  IsInt32, scan_int-print_int, print_int-is_plain, length-print_int,
}
use zombie_shooter_ps_vita_p.Settings.ConfigText.{
  Settings, ConfigLine, comment, assign, render, int_of_bool, config_lines, settings_save,
}
use zombie_shooter_ps_vita_p.Settings.{
  is, up_to, settings_reset, key_of, store_setting, with_value, scan_rest, store_scanned,
  scan_setting, load_line, load_lines, settings_load,
}
use zombie_shooter_ps_vita_p.Settings.Methods.{IsAllowed}

-- What a line of the file does to the settings.
abbrev apply : ConfigLine → Settings → Settings
apply (comment t) s = s
apply (assign name v) s = store_setting (key_of name) v s

abbrev apply_all : List ConfigLine → Settings → Settings
apply_all [] s = s
apply_all (l ∷ ls) s = apply_all ls (apply l s)

-- The texts of a line have no end of a line and no NUL, and fit in the buffer.
abbrev is_text : ConfigLine → Bool
is_text (comment t) = is_plain t && ltb (length t) 126
is_text (assign name v) = is_word name && (is_plain name && leb (length name) 29)

abbrev all_text : List ConfigLine → Bool
all_text [] = true
all_text (l ∷ ls) = is_text l && all_text ls

abbrev AllInt : List ConfigLine → Type 0
AllInt [] = Unit
AllInt (comment t ∷ ls) = AllInt ls
AllInt (assign name v ∷ ls) = IsInt32 v × AllInt ls

render-is_plain :
    (l : ConfigLine)
    → is_text l ≡ true
    → (is_plain (render l) ≡ true) × (ltb (length (render l)) 127 ≡ true)
render-is_plain (comment t) h = (ground arith, ground arith)
render-is_plain (assign name v) h = (
  is_plain-append name (32 ∷ print_int v) (ground arith) (ground (arith, print_int-is_plain v)),
  ground (arith, length-append name (32 ∷ print_int v), length-print_int v),
)

all_plain-render :
    (ls : List ConfigLine) → all_text ls ≡ true → all_plain 127 (map render ls) ≡ true
all_plain-render [] h = refl
all_plain-render (l ∷ ls) h =
    let (plain, fits) = render-is_plain l (ground arith) in
    ground (arith, plain, fits, all_plain-render ls)

-- No setting has a name that starts with `#`.
store_comment :
    (word : List ℕ) (o : Option ℤ) (s : Settings) → store_scanned (with_value (35 ∷ word) o) s ≡ s
unfolding store_setting str_eq
store_comment word none s = refl
store_comment word (some v) s = refl

scan_comment :
    (t : List ℕ) → scan_word 29 (35 ∷ t) ≡ some (35 ∷ (span_word 28 t).0, (span_word 28 t).1)
unfolding scan_word skip_space span_word
scan_comment t = refl

load_comment : (t : List ℕ) (s : Settings) → is_plain t ≡ true → load_line (line (35 ∷ t)) s ≡ s
unfolding load_line scan_setting
load_comment t s h =
    ap (λ (l : List ℕ). store_scanned (scan_rest (scan_word 29 l)) s)
      (c_string-line (35 ∷ t) (ground arith))
    ∙ ap (λ (w : Option (List ℕ × List ℕ)). store_scanned (scan_rest w) s) (scan_comment (line t))
    ∙ store_comment (span_word 28 (line t)).0 (scan_int (span_word 28 (line t)).1) s

load_assign :
    (name : List ℕ) (v : ℤ) (s : Settings)
    → is_text (assign name v) ≡ true
    → IsInt32 v
    → load_line (line (name ++ 32 ∷ print_int v)) s ≡ store_setting (key_of name) v s
unfolding load_line scan_setting
load_assign name v s h i =
    ap (λ (l : List ℕ). store_scanned (scan_rest (scan_word 29 l)) s)
      (c_string-line (name ++ 32 ∷ print_int v) (render-is_plain (assign name v) h).0
        ∙ append_assoc name (32 ∷ print_int v) (10 ∷ []))
    ∙ ap (λ (w : Option (List ℕ × List ℕ)). store_scanned (scan_rest w) s)
        (scan_word-word 32 refl 29 name (print_int v ++ 10 ∷ []) (ground arith) (ground arith))
    ∙ ap (λ (o : Option ℤ). store_scanned (with_value name o) s) (scan_int-print_int v i)

load_lines-apply_all :
    (ls : List ConfigLine) (s : Settings)
    → all_text ls ≡ true
    → AllInt ls
    → load_lines (map line (map render ls)) s ≡ apply_all ls s
unfolding load_lines
load_lines-apply_all [] s h i = refl
load_lines-apply_all (comment t ∷ ls) s h i =
    ap (load_lines (map line (map render ls))) (load_comment t s (ground arith))
    ∙ load_lines-apply_all ls s (ground arith) i
load_lines-apply_all (assign name v ∷ ls) s h i =
    ap (load_lines (map line (map render ls))) (load_assign name v s (ground arith) i.0)
    ∙ load_lines-apply_all ls (store_setting (key_of name) v s) (ground arith) i.1

config_lines-all_text : (s : Settings) → all_text (config_lines s) ≡ true
config_lines-all_text s = refl

IsInt32-up_to : (v : ℤ) (n : ℕ) → n < 2 ^ 31 → up_to v n ≡ true → IsInt32 v
IsInt32-up_to (pos v) n small h = ground arith
IsInt32-up_to (negsuc v) n small h = absurd (false≢true h)

bool-IsInt32 : (b : Bool) → IsInt32 (int_of_bool b)
bool-IsInt32 true = omega arith
bool-IsInt32 false = omega arith

among_three :
    (v : ℤ) (a b c : ℕ)
    → a < 2 ^ 31
    → b < 2 ^ 31
    → c < 2 ^ 31
    → (is v a || is v b || is v c) ≡ true
    → IsInt32 v
among_three (pos v) a b c ha hb hc h = ground arith
among_three (negsuc v) a b c ha hb hc h = absurd (false≢true h)

among_four : (v : ℤ) → (is v 0 || is v 768 || is v 864 || is v 960) ≡ true → IsInt32 v
among_four (pos v) h = ground arith
among_four (negsuc v) h = absurd (false≢true h)

among_two : (v : ℤ) → (is v 0 || is v 2) ≡ true → IsInt32 v
among_two (pos v) h = ground arith
among_two (negsuc v) h = absurd (false≢true h)

config_lines-AllInt : (s : Settings) → IsAllowed s → AllInt (config_lines s)
config_lines-AllInt s h = (
  among_three s.asset_cache_mib 0 8 16 (omega arith) (omega arith) (omega arith) h.cache,
  (
    IsInt32-up_to s.asset_negative_cache 1 (omega arith) h.negative,
    (
      among_three s.audio_frames 128 1024 2048 (omega arith) (omega arith) (omega arith) h.frames,
      (
        among_four s.software_width h.width,
        (
          IsInt32-up_to s.music_mode 2 (omega arith) h.music,
          (
            IsInt32-up_to s.log_mode 3 (omega arith) h.log,
            (
              among_two s.framebuffer_565 h.colors,
              (
                IsInt32-up_to s.software_frameskip 2 (omega arith) h.skip,
                (
                  IsInt32-up_to s.render_diagnostics 7 (omega arith) h.diagnostics,
                  (h.sample, (bool-IsInt32 s.sample_setting2, tt)),
                ),
              ),
            ),
          ),
        ),
      ),
    ),
  ),
)

kept : (p : ℤ → Bool) (v d : ℤ) → p v ≡ true → (if p v then v else d) ≡ v
kept p v d h = rw h refl

kept_negative : (v : ℤ) → up_to v 1 ≡ true → (if is v 0 then pos 0 else pos 1) ≡ v
kept_negative (pos v) h = ground arith
kept_negative (negsuc v) h = absurd (false≢true h)

kept_colors : (v : ℤ) → (is v 0 || is v 2) ≡ true → (if is v 2 then pos 2 else pos 0) ≡ v
kept_colors (pos v) h = ground arith
kept_colors (negsuc v) h = absurd (false≢true h)

kept_skip :
    (v : ℤ) → up_to v 2 ≡ true → (if is v 2 then pos 2 else if is v 0 then pos 0 else pos 1) ≡ v
kept_skip (pos v) h = ground arith
kept_skip (negsuc v) h = absurd (false≢true h)

kept_flag : (b : Bool) → not (is (int_of_bool b) 0) ≡ b
kept_flag true = refl
kept_flag false = refl

-- The settings that the lines of the file give, whatever they were before.
abbrev given : Settings → Settings → Settings
given s r = record {
  asset_cache_mib =
      (if is s.asset_cache_mib 0 || is s.asset_cache_mib 8 || is s.asset_cache_mib 16
        then s.asset_cache_mib
        else pos 8);
  asset_negative_cache = (if is s.asset_negative_cache 0 then pos 0 else pos 1);
  audio_frames =
      (if is s.audio_frames 128 || is s.audio_frames 1024 || is s.audio_frames 2048
        then s.audio_frames
        else pos 1024);
  software_width =
      (if is s.software_width 0
          || is s.software_width 768
          || is s.software_width 864
          || is s.software_width 960
        then s.software_width
        else pos 864);
  music_mode = (if up_to s.music_mode 2 then s.music_mode else pos 0);
  log_mode = (if up_to s.log_mode 3 then s.log_mode else r.log_mode);
  framebuffer_565 = (if is s.framebuffer_565 2 then pos 2 else pos 0);
  software_frameskip =
      (if is s.software_frameskip 2
        then pos 2
        else if is s.software_frameskip 0
        then pos 0
        else pos 1);
  render_diagnostics = (if up_to s.render_diagnostics 7 then s.render_diagnostics else pos 0);
  sample_setting = s.sample_setting;
  sample_setting2 = not (is (int_of_bool s.sample_setting2) 0);
}

apply_all-config_lines : (s r : Settings) → apply_all (config_lines s) r ≡ given s r
unfolding store_setting str_eq
apply_all-config_lines s r = refl

given_same : (s r : Settings) → IsAllowed s → given s r ≡ s
given_same s r h =
    rw
      (
        h.cache,
        kept_negative s.asset_negative_cache h.negative,
        h.frames,
        h.width,
        h.music,
        h.log,
        kept_colors s.framebuffer_565 h.colors,
        kept_skip s.software_frameskip h.skip,
        h.diagnostics,
        kept_flag s.sample_setting2,
      )
      refl

-- Settings with values that the program is made for are read from the file that settings_save
-- wrote exactly as they were.
pub settings_load-settings_save :
    (release writable : Bool) (s : Settings)
    → IsAllowed s
    → (settings_load release writable (some (settings_save s))).0 ≡ s
unfolding settings_load settings_save
settings_load-settings_save release writable s h =
    ap (λ (ls : List (List ℕ)). load_lines ls (settings_reset release))
      (fgets_lines-concat_lines 128 (map render (config_lines s))
        (all_plain-render (config_lines s) (config_lines-all_text s)))
    ∙ load_lines-apply_all (config_lines s) (settings_reset release) (config_lines-all_text s)
        (config_lines-AllInt s h)
    ∙ apply_all-config_lines s (settings_reset release)
    ∙ given_same s (settings_reset release) h
