-- ===== src/Registry/Files/Process.antt =====
-- A job of the worker does to the files what it means to do to the memory card.
use mathlib.Core.Option
use zombie_shooter_ps_vita_p.Prelude.{
  ◌+◌, ◌*◌, ◌==◌, ◌<◌, ◌≤◌, ◌≡◌, ◌≢◌, refl, ◌∙◌, Bool, true, false, not, ◌&&◌, ◌||◌, Option, none,
  some, List, [], ◌∷◌, ◌++◌, arith, length, length-append, leb, if◌then◌else◌, str_eq, str_eq→eq,
  if_both, Bool-cases, Option-cases, inl, inr,
}
use zombie_shooter_ps_vita_p.Registry.Table.{Str, max_key}
use zombie_shooter_ps_vita_p.Registry.FileName.{
  dat, tmp, bak, hex_bytes, pref_path_for_key, pref_generated_filename,
}
use zombie_shooter_ps_vita_p.Registry.FileName.RoundTrip.{
  IsCString, length-hex_bytes, pref_key_from_filename-hex_bytes,
}
use zombie_shooter_ps_vita_p.Registry.Queue.{
  PrefIoOp, io_write, io_delete, io_clear, PrefIoJob, Card, run_op, run_job,
}
use zombie_shooter_ps_vita_p.Registry.Files.{
  Files, put_file, exists, remove_file, remove_if_there, ClearFaults, IoFaults, install_file,
  rotate_file, write_tmp, write_paths, delete_paths, clear_entry, clear_names, clear_dir, path_size,
  pref_write_key_value_now, pref_delete_key_file_now, pref_clear_files_now, process_op,
  pref_io_process,
}
use zombie_shooter_ps_vita_p.Registry.Files.Atomic.{
  path_of, put_self, put_other, paths_differ, paths_apart, pref_write_key_value_now-atomic,
  pref_write_key_value_now-elsewhere,
}

-- The part of the files that a later start reads.
abbrev pub card_of : Str → Files → Card
card_of dir fs j = fs (path_of dir j dat)

-- A key whose files the program can name.
abbrev pub IsFileKey : Str → Str → Type 0
IsFileKey dir k =
    IsCString k
    × (1 ≤ length k)
    × (length k ≤ max_key)
    × (length dir + 1 + length k * 2 + 4 + 1 ≤ path_size)

-- No call fails, and all of the value is written.
pub record IsFaultless (f : IoFaults) (value : Str) : Type 0 where
  pub dir : f.write.dir ≡ true
  pub open_tmp : f.write.open_tmp ≡ true
  pub written : f.write.written ≡ length value
  pub flush : f.write.flush ≡ true
  pub close : f.write.close ≡ true
  pub rotate : f.write.rotate ≡ true
  pub install : f.write.install ≡ true
  pub main : f.remove.main ≡ true
  pub temporary : f.remove.temporary ≡ true
  pub backup : f.remove.backup ≡ true
  pub clear_dir : f.clear.dir ≡ true
  pub removes : (p : Str) → f.clear.removes p ≡ true

pub fitting :
    (dir k suffix : Str)
    → IsFileKey dir k
    → length suffix ≡ 4
    → pref_path_for_key dir path_size k suffix ≡ some (path_of dir k suffix)
unfolding pref_path_for_key
fitting dir k suffix h e = ground arith

hex_nonempty : (dir k : Str) → IsFileKey dir k → 0 < length (hex_bytes k)
hex_nonempty dir k h = omega (arith, length-hex_bytes k, h.1)

module _ {f : IoFaults} {value : Str} (ok : IsFaultless f value) where
  install_succeeds :
      (had : Bool) (p t b : Str) (g : Files) → (install_file f.write had p t b g).1 ≡ true
  unfolding install_file
  install_succeeds had p t b g = rw ok.install

  rotate_succeeds : (p t b : Str) (g : Files) → (rotate_file f.write p t b g).1 ≡ true
  unfolding rotate_file
  rotate_succeeds p t b g =
      if_both (λ (r : Files × Bool). r.1 ≡ true) (exists (g p))
        (simp ok.rotate (install_succeeds true p t b _)) (install_succeeds false p t b g)

  write_succeeds :
      (dir k : Str) (fs : Files)
      → IsFileKey dir k
      → (pref_write_key_value_now f.write dir k value fs).1 ≡ true
  unfolding pref_write_key_value_now write_paths write_tmp
  write_succeeds dir k fs h =
      let complete : ((length value == 0 || f.write.written == length value)
            && f.write.flush
            && f.write.close)
          ≡ true =
        ground (arith, ok.written, ok.flush, ok.close) in
      simp (ok.dir, fitting dir k dat h refl, fitting dir k tmp h refl, fitting dir k bak h refl)
        (simp (ok.open_tmp, complete)
          (rotate_succeeds (path_of dir k dat) (path_of dir k tmp) (path_of dir k bak) _))

  write_lands :
      (dir k : Str) (fs : Files)
      → IsFileKey dir k
      → (pref_write_key_value_now f.write dir k value fs).0 (path_of dir k dat) ≡ some value
  write_lands dir k fs h =
      let returned = write_succeeds dir k fs h in
      elim (pref_write_key_value_now-atomic f.write dir k value (path_of dir k dat)
        (path_of dir k bak) fs (fitting dir k dat h refl) (fitting dir k bak h refl)) [
          | inl done ↦ done.1
          | inr (inl kept) ↦ cc
          | inr (inr lost) ↦ cc
        ]

  process_write :
      (dir k j : Str) (fs : Files)
      → IsFileKey dir k
      → IsFileKey dir j
      → card_of dir (pref_write_key_value_now f.write dir k value fs).0 j
        ≡ (if str_eq k j then some value else card_of dir fs j)
  process_write dir k j fs hk hj = elim (Bool-cases (str_eq k j)) [
    | inl same ↦ rw (same, ← str_eq→eq k j same) (write_lands dir k fs hk)
    | inr other ↦ rw other (
        pref_write_key_value_now-elsewhere f.write dir k j value (path_of dir j dat) fs hk.0 hj.0
          other (fitting dir j dat hj refl))
  ]

  delete_lands :
      (dir k j : Str) (fs : Files)
      → IsFileKey dir k
      → IsFileKey dir j
      → put_file
          (path_of dir k bak)
          none
          (put_file (path_of dir k tmp) none (put_file (path_of dir k dat) none fs))
          (path_of dir j dat)
        ≡ (if str_eq k j then none else card_of dir fs j)
  unfolding str_eq
  delete_lands dir k j fs hk hj = elim (Bool-cases (str_eq k j)) [
    | inl same ↦
        rw (same, ← str_eq→eq k j same)
          (put_other (path_of dir k bak) _ none _ (paths_differ dir k bak dat refl)
            ∙ put_other (path_of dir k tmp) _ none _ (paths_differ dir k tmp dat refl)
            ∙ put_self (path_of dir k dat) none fs)
    | inr other ↦
        let (main, temporary, backup) =
          paths_apart dir k j hk.0 hj.0 other (hex_nonempty dir k hk) (hex_nonempty dir j hj) in
        rw other (
          put_other (path_of dir k bak) _ none _ backup
          ∙ put_other (path_of dir k tmp) _ none _ temporary
          ∙ put_other (path_of dir k dat) _ none fs main)
  ]

  process_delete :
      (dir k j : Str) (fs : Files)
      → IsFileKey dir k
      → IsFileKey dir j
      → ((pref_delete_key_file_now f.remove dir k fs).1 ≡ true)
        × (card_of dir (pref_delete_key_file_now f.remove dir k fs).0 j
            ≡ (if str_eq k j then none else card_of dir fs j))
  unfolding pref_delete_key_file_now delete_paths remove_if_there remove_file
  process_delete dir k j fs hk hj =
      simp (fitting dir k dat hk refl, fitting dir k tmp hk refl, fitting dir k bak hk refl)
        (simp (ok.main, ok.temporary, ok.backup) (refl, delete_lands dir k j fs hk hj))

-- The names of a directory, as readdir gives them.
unfoldable pub contains : Str → List Str → Bool
contains name [] = false
contains name (n ∷ names) = str_eq n name || contains name names

-- Every file of the directory is among the names.
abbrev pub IsListing : Str → Files → List Str → Type 0
IsListing dir fs names = (name : Str) → fs (dir ++ b'/' ∷ name) ≢ none → contains name names ≡ true

module _ (removes : Str → Bool) (all_removed : (p : Str) → removes p ≡ true) (dir : Str) where
  entry_keeps_none :
      (q n : Str) (fs : Files) → fs q ≡ none → (clear_entry removes dir n fs).0 q ≡ none
  unfolding clear_entry remove_if_there remove_file put_file
  entry_keeps_none q n fs h =
      if_both (λ (r : Files × Bool). r.0 q ≡ none) (not (pref_generated_filename n)) h
        (if_both (λ (r : Files × Bool). r.0 q ≡ none) (leb path_size (length (dir ++ b'/' ∷ n))) h
          (if_both (λ (k : Files). k q ≡ none) (removes (dir ++ b'/' ∷ n))
            (if_both (λ (v : Option Str). v ≡ none) (str_eq (dir ++ b'/' ∷ n) q) refl h) h))

  clear_keeps_none :
      (q : Str) (names : List Str) (fs : Files)
      → fs q ≡ none
      → (clear_names removes dir names fs).0 q ≡ none
  unfolding clear_names
  clear_keeps_none q [] fs h = h
  clear_keeps_none q (n ∷ names) fs h =
      clear_keeps_none q names (clear_entry removes dir n fs).0 (entry_keeps_none q n fs h)

  entry_removes :
      (n : Str) (fs : Files)
      → pref_generated_filename n ≡ true
      → length (dir ++ b'/' ∷ n) < path_size
      → (clear_entry removes dir n fs).0 (dir ++ b'/' ∷ n) ≡ none
  unfolding clear_entry remove_if_there remove_file
  entry_removes n fs g l =
      let short : leb path_size (length (dir ++ b'/' ∷ n)) ≡ false = ground arith in
      simp (g, short, all_removed) (put_self (dir ++ b'/' ∷ n) none fs)

  clear_removes :
      (name : Str) (names : List Str) (fs : Files)
      → pref_generated_filename name ≡ true
      → length (dir ++ b'/' ∷ name) < path_size
      → contains name names ≡ true
      → (clear_names removes dir names fs).0 (dir ++ b'/' ∷ name) ≡ none
  unfolding clear_names contains
  clear_removes name [] fs g l c = cc
  clear_removes name (n ∷ names) fs g l c = elim (Bool-cases (str_eq n name)) [
    | inl here ↦
        clear_keeps_none (dir ++ b'/' ∷ name) names (clear_entry removes dir n fs).0
          (rw (str_eq→eq n name here) (entry_removes name fs g l))
    | inr there ↦ clear_removes name names (clear_entry removes dir n fs).0 g l (rw there at c)
  ]

-- With a complete listing of the directory and no failing call, a clear leaves no value.
process_clear :
    (f : ClearFaults) (dir : Str) (names : List Str) (fs : Files) (j : Str)
    → f.dir ≡ true
    → f.names ≡ some names
    → ((p : Str) → f.removes p ≡ true)
    → IsListing dir fs names
    → IsFileKey dir j
    → card_of dir (pref_clear_files_now f dir fs).0 j ≡ none
unfolding pref_clear_files_now clear_dir
process_clear f dir names fs j d n r listed h =
    let name = hex_bytes j ++ dat in
    simp (d, n)
      (elim (Option-cases (fs (path_of dir j dat))) [
        | inl gone ↦ clear_keeps_none f.removes r dir (path_of dir j dat) names fs gone
        | inr (v, there) ↦
            clear_removes f.removes r dir name names fs
              (pref_key_from_filename-hex_bytes j h.0 h.1 h.2).3
              (omega (
                arith,
                length-append dir (b'/' ∷ name),
                length-append (hex_bytes j) dat,
                length-hex_bytes j,
                h.3,
              ))
              (listed name (λ e. cc))
      ])

-- The keys and the value of a job, and the directory of a clear, are as the program makes them.
abbrev pub IsRunnable : Str → IoFaults → Files → PrefIoOp → Option Str → Type 0
IsRunnable dir f fs io_clear key =
    (names : List Str) × (f.clear.names ≡ some names) × IsListing dir fs names
IsRunnable dir f fs io_write (some k) = IsFileKey dir k
IsRunnable dir f fs io_delete (some k) = IsFileKey dir k
IsRunnable dir f fs io_write none = ⊥
IsRunnable dir f fs io_delete none = ⊥

-- Where no file call fails, the worker's treatment of a job is, for every key that it can name,
-- the job's effect on the memory card.
pub card_of-pref_io_process :
    (f : IoFaults) (dir : Str) (a : PrefIoJob) (fs : Files) (j : Str)
    → IsFaultless f (Option.get_or a.value [])
    → IsRunnable dir f fs a.op a.key
    → IsFileKey dir j
    → card_of dir (pref_io_process f dir a fs).0 j ≡ run_job a (card_of dir fs) j
unfolding pref_io_process run_job
card_of-pref_io_process f dir a fs j ok = go a.op a.key
  where
    go :
        (op : PrefIoOp) (key : Option Str)
        → IsRunnable dir f fs op key
        → IsFileKey dir j
        → card_of dir (process_op f dir op key a.value fs).0 j
          ≡ run_op op key a.value (card_of dir fs) j
    go io_write (some k) r h = unfold process_op run_op in process_write ok dir k j fs r h
    go io_delete (some k) r h = unfold process_op run_op in (process_delete ok dir k j fs r h).1
    go io_clear key (names, n, listed) h =
        unfold process_op run_op in
        process_clear f.clear dir names fs j ok.clear_dir n ok.removes listed h
    go io_write none r h = absurd r
    go io_delete none r h = absurd r
