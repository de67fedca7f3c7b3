-- ===== src/Registry/Files.antt =====
-- preferences_store.inc: the file operations of the save worker, on a file system whose calls may
-- fail. A record of faults says which calls of one operation succeed.
pub mod Atomic
pub mod Process
use zombie_shooter_ps_vita_p.Prelude.{
  ℕ, zero, suc, ◌+◌, ◌≡◌, Bool, true, false, not, ◌&&◌, ◌||◌, Option, none, some, List, [], ◌∷◌,
  ◌++◌, length, take, leb, ltb, if◌then◌else◌, ◌==◌, str_eq,
}
use zombie_shooter_ps_vita_p.Registry.Table.{Str}
use mathlib.Core.Option
use zombie_shooter_ps_vita_p.Registry.Queue.{PrefIoOp, io_write, io_delete, io_clear, PrefIoJob}
use zombie_shooter_ps_vita_p.Registry.FileName.{
  dat, tmp, bak, pref_path_for_key, pref_generated_filename,
}

-- The contents of the file at each path.
abbrev pub Files : Type 0
Files = Str → Option Str

unfoldable pub put_file : Str → Option Str → Files → Files
put_file p v fs q = if str_eq p q then v else fs q

abbrev pub exists : Option Str → Bool
exists none = false
exists (some _) = true

-- remove(p): nothing happens to the file if the call fails.
unfoldable pub remove_file : Bool → Str → Files → Files
remove_file ok p fs = if ok then put_file p none fs else fs

-- rename(p, q)
unfoldable pub rename_file : Bool → Str → Str → Files → Files
rename_file ok p q fs = if ok then put_file p none (put_file q (fs p) fs) else fs

pub record WriteFaults : Type 0 where
  pub dir : Bool
  pub open_tmp : Bool
  -- How many bytes fwrite writes.
  pub written : ℕ
  pub flush : Bool
  pub close : Bool
  pub remove_bak : Bool
  pub rotate : Bool
  pub install : Bool
  pub restore : Bool
  pub drop_bak : Bool
  pub remove_tmp : Bool

-- From `rename(tmp, path)` on.
unfoldable pub install_file : WriteFaults → Bool → Str → Str → Str → Files → Files × Bool
install_file f had path tmp_path bak_path fs =
    if f.install
    then (let installed = rename_file true tmp_path path fs in
        ((if had then remove_file f.drop_bak bak_path installed else installed), true))
    else (let restored = (if had then rename_file f.restore bak_path path fs else fs) in
        (remove_file f.remove_tmp tmp_path restored, false))

-- From the test of `access(path, F_OK)` on, with the new value in the temporary file.
unfoldable pub rotate_file : WriteFaults → Str → Str → Str → Files → Files × Bool
rotate_file f path tmp_path bak_path fs =
    if exists (fs path)
    then (let cleared = remove_file f.remove_bak bak_path fs in
        if f.rotate
        then install_file f true path tmp_path bak_path (rename_file true path bak_path cleared)
        else (remove_file f.remove_tmp tmp_path cleared, false))
    else install_file f false path tmp_path bak_path fs

unfoldable pub write_tmp : WriteFaults → Str → Str → Str → Str → Files → Files × Bool
write_tmp f value path tmp_path bak_path fs =
    if not f.open_tmp
    then (fs, false)
    else (let filled = put_file tmp_path (some (take f.written value)) fs in
        if (length value == 0 || f.written == length value) && f.flush && f.close
        then rotate_file f path tmp_path bak_path filled
        else (remove_file f.remove_tmp tmp_path filled, false))

unfoldable pub write_paths :
    WriteFaults → Str → Option Str → Option Str → Option Str → Files → Files × Bool
write_paths f value (some p) (some t) (some b) fs = write_tmp f value p t b fs
write_paths f value _ _ _ fs = (fs, false)

-- The size of the buffers for paths.
abbrev pub path_size : ℕ
path_size = 768

unfoldable pub pref_write_key_value_now : WriteFaults → Str → Str → Str → Files → Files × Bool
pref_write_key_value_now f dir key value fs =
    if not f.dir
    then (fs, false)
    else write_paths f value (pref_path_for_key dir path_size key dat)
        (pref_path_for_key dir path_size key tmp) (pref_path_for_key dir path_size key bak) fs

-- `remove(p) != 0 && errno != ENOENT` leaves `ok` at 0.
unfoldable pub remove_if_there : Bool → Str → Files → Files × Bool
remove_if_there ok p fs = (remove_file ok p fs, ok || not (exists (fs p)))

pub record DeleteFaults : Type 0 where
  pub main : Bool
  pub temporary : Bool
  pub backup : Bool

unfoldable pub delete_paths :
    DeleteFaults → Option Str → Option Str → Option Str → Files → Files × Bool
delete_paths f (some p) (some t) (some b) fs =
    let (fs1, ok1) = remove_if_there f.main p fs in
    let (fs2, ok2) = remove_if_there f.temporary t fs1 in
    let (fs3, ok3) = remove_if_there f.backup b fs2 in (fs3, ok1 && ok2 && ok3)
delete_paths f _ _ _ fs = (fs, false)

unfoldable pub pref_delete_key_file_now : DeleteFaults → Str → Str → Files → Files × Bool
pref_delete_key_file_now f dir key fs =
    delete_paths f (pref_path_for_key dir path_size key dat)
      (pref_path_for_key dir path_size key tmp) (pref_path_for_key dir path_size key bak) fs

-- One round of pref_clear_files_now; `removes` says which calls of remove succeed.
unfoldable pub clear_entry : (Str → Bool) → Str → Str → Files → Files × Bool
clear_entry removes dir name fs =
    let path = dir ++ b'/' ∷ name in
    if not (pref_generated_filename name)
    then (fs, true)
    else if leb path_size (length path)
    then (fs, false)
    else remove_if_there (removes path) path fs

-- The loop over the names that readdir returns.
unfoldable pub clear_names : (Str → Bool) → Str → List Str → Files → Files × Bool
clear_names removes dir [] fs = (fs, true)
clear_names removes dir (name ∷ names) fs =
    let (fs', ok) = clear_entry removes dir name fs in
    let (fs'', ok') = clear_names removes dir names fs' in (fs'', ok && ok')

-- pref_clear_files_now: `names` is the directory, or `none` if it does not open; `missing` says
-- whether that is because there is none.
pub record ClearFaults : Type 0 where
  pub dir : Bool
  pub names : Option (List Str)
  pub missing : Bool
  pub removes : Str → Bool

unfoldable pub clear_dir : ClearFaults → Option (List Str) → Str → Files → Files × Bool
clear_dir f none dir fs = (fs, f.missing)
clear_dir f (some names) dir fs = clear_names f.removes dir names fs

unfoldable pub pref_clear_files_now : ClearFaults → Str → Files → Files × Bool
pref_clear_files_now f dir fs = if not f.dir then (fs, false) else clear_dir f f.names dir fs

pub record IoFaults : Type 0 where
  pub write : WriteFaults
  pub remove : DeleteFaults
  pub clear : ClearFaults

unfoldable pub process_op :
    IoFaults → Str → PrefIoOp → Option Str → Option Str → Files → Files × Bool
process_op f dir io_write (some k) value fs =
    pref_write_key_value_now f.write dir k (Option.get_or value []) fs
process_op f dir io_delete (some k) value fs = pref_delete_key_file_now f.remove dir k fs
process_op f dir io_clear key value fs = pref_clear_files_now f.clear dir fs
process_op f dir _ none value fs = (fs, false)

unfoldable pub pref_io_process : IoFaults → Str → PrefIoJob → Files → Files × Bool
pref_io_process f dir j fs = process_op f dir j.op j.key j.value fs
