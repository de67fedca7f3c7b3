-- ===== src/Registry/Api/Reach.antt =====
-- A game that starts, runs, drains the queue of the worker and starts again reads what it wrote.
use mathlib.Core.Option
use zombie_shooter_ps_vita_p.Prelude.{
  ◌≤◌, ◌≡◌, refl, sym, ap, ◌∙◌, Bool, true, false, Option, none, some, List, [], ◌∷◌, length, arith,
  subst,
}
use zombie_shooter_ps_vita_p.Registry.Table.{Str, PrefEntry, max_value, max_count, pref_value}
use zombie_shooter_ps_vita_p.Registry.Table.Laws.{lookup, pref_value-lookup}
use zombie_shooter_ps_vita_p.Registry.Table.Distinct.{InLimits}
use zombie_shooter_ps_vita_p.Registry.Table.Methods.{IsWellFormed}
use zombie_shooter_ps_vita_p.Registry.FileName.{has_nul}
use zombie_shooter_ps_vita_p.Registry.Queue.{PrefIoJob, run_queue}
use zombie_shooter_ps_vita_p.Registry.Files.{Files}
use zombie_shooter_ps_vita_p.Registry.Files.Process.{card_of, IsFileKey, IsFaultless, IsListing}
use zombie_shooter_ps_vita_p.Registry.Load.{LoadFaults, pref_load, pref_read_value_file}
use zombie_shooter_ps_vita_p.Registry.Load.Restart.{
  fresh, IsFaultlessLoad, IsText, IsText-has_nul, load_reads,
}
use zombie_shooter_ps_vita_p.Registry.Load.Shape.{pref_load-IsWellFormed, load_marks}
use zombie_shooter_ps_vita_p.Registry.Api.{
  Registry, Env, loaded, zombie_registry_direct_put, prefs_put_string, prefs_remove, prefs_clear,
  worker_take, worker_finish,
}
use zombie_shooter_ps_vita_p.Registry.Api.Sync.{
  IsSynced, loaded_same, direct_put-IsSynced, put_string-IsSynced, remove-IsSynced,
  prefs_clear-IsSynced,
}
use zombie_shooter_ps_vita_p.Registry.Api.Worker.{take-IsSynced, finish-IsSynced}

-- One step of the game or of the worker, where each job can be queued and the worker's file calls
-- succeed. The values that the game stores are C strings, and each key has a file name. Allocations
-- in the table may fail. `read` is a step of any method that only reads.
pub data Step (dir : Str) (r : Registry) : Registry → Type 0 where
  direct_put :
      (env : Env) (k v : Str)
      → env.queued ≡ true
      → IsFileKey dir k
      → has_nul v ≡ false
      → Step dir r (zombie_registry_direct_put dir env (some k) (some v) r).0
  put_string :
      (env : Env) (k v : Str)
      → env.queued ≡ true
      → IsFileKey dir k
      → has_nul v ≡ false
      → Step dir r (prefs_put_string dir env (some k) (some v) r)
  put_null :
      (env : Env) (k : Str)
      → env.queued ≡ true
      → IsFileKey dir k
      → Step dir r (prefs_put_string dir env (some k) none r)
  remove :
      (env : Env) (k : Str)
      → env.queued ≡ true
      → IsFileKey dir k
      → Step dir r (prefs_remove dir env (some k) r)
  clear : (env : Env) → env.queued ≡ true → Step dir r (prefs_clear dir env r)
  read : (env : Env) → Step dir r (loaded dir env r)
  take : r.busy ≡ none → Step dir r (worker_take r)
  finish :
      (env : Env) (a : PrefIoJob) (names : List Str)
      → r.busy ≡ some a
      → IsFaultless env.io (Option.get_or a.value [])
      → env.io.clear.names ≡ some names
      → IsListing dir r.files names
      → Step dir r (worker_finish dir env r)

-- Any number of steps, in any order.
pub data Reaches (dir : Str) (r : Registry) : Registry → Type 0 where
  here : Reaches dir r r
  andthen : {s t : Registry} → Reaches dir r s → Step dir s t → Reaches dir r t

put_null_same :
    (dir k : Str) (env : Env) (r : Registry)
    → prefs_put_string dir env (some k) none r ≡ prefs_remove dir env (some k) r
unfolding prefs_put_string prefs_remove
put_null_same dir k env r = refl

-- Every step in which each job can be queued and the worker's file calls succeed keeps the
-- agreement between the table and what the files will hold once the queue is empty. A step is a
-- call that changes, clears or reads the table, or half a round of the worker; its keys have file
-- names and its values no NUL.
pub Step-IsSynced : (dir : Str) {r s : Registry} → IsSynced dir r → Step dir r s → IsSynced dir s
Step-IsSynced dir sync (direct_put env k v q hk nul) = direct_put-IsSynced dir env k v sync q hk nul
Step-IsSynced dir sync (put_string env k v q hk nul) = put_string-IsSynced dir env k v sync q hk nul
Step-IsSynced dir sync (put_null env k q hk) =
    subst (IsSynced dir) (sym (put_null_same dir k env _)) (remove-IsSynced dir env k sync q hk)
Step-IsSynced dir sync (remove env k q hk) = remove-IsSynced dir env k sync q hk
Step-IsSynced dir sync (clear env q) = prefs_clear-IsSynced dir env sync q
Step-IsSynced dir sync (read env) = subst (IsSynced dir) (sym (loaded_same dir env sync)) sync
Step-IsSynced dir sync (take idle) = take-IsSynced dir sync idle
Step-IsSynced dir sync (finish env a names b ok n listed) =
    finish-IsSynced dir env a names sync b ok n listed

Reaches-IsSynced : (dir : Str) {r s : Registry} → IsSynced dir r → Reaches dir r s → IsSynced dir s
Reaches-IsSynced dir sync here = sync
Reaches-IsSynced dir sync (andthen run step) =
    Step-IsSynced dir (Reaches-IsSynced dir sync run) step

-- A file that holds a value, if there is one: at most 2 ^ 20 bytes without NUL.
abbrev pub IsValue : Option Str → Type 0
IsValue none = Unit {0}
IsValue (some v) = (length v ≤ 1048576) × IsText v

value_read : (v : Option Str) → IsValue v → pref_read_value_file true v ≡ v
unfolding pref_read_value_file
value_read none h = refl
value_read (some v) h =
    let clean : has_nul v ≡ false = (IsText-has_nul v).1 h.1 in
    let short : length v ≤ 1048576 = h.0 in ground arith

-- The state once the game has loaded its preferences.
abbrev pub started : LoadFaults → Str → Files → Registry
started f dir fs = record { prefs = pref_load f dir fs fresh; queue = []; busy = none; files = fs }

fresh-IsWellFormed : IsWellFormed fresh
fresh-IsWellFormed = record { distinct = tt; limits = tt; count = omega arith; room = omega arith }

read_has_no_nul :
    (ok : Bool) (v : Option Str) (w : Str) → pref_read_value_file ok v ≡ some w → has_nul w ≡ false
unfolding pref_read_value_file
read_has_no_nul ok none w h = cc
read_has_no_nul ok (some v) w h = ground arith

-- A load of files that all hold values agrees with them.
started-IsSynced :
    (f : LoadFaults) (dir : Str) (fs : Files) (names : List Str)
    → IsFaultlessLoad f
    → f.names ≡ some names
    → IsListing dir fs names
    → length names ≤ max_count
    → ((j : Str) → IsFileKey dir j → IsValue (card_of dir fs j))
    → IsSynced dir (started f dir fs)
unfolding run_queue
started-IsSynced f dir fs names ok n listed fits good = record {
  loaded = load_marks f dir fs fresh;
  table = (pref_load-IsWellFormed f dir fs fresh-IsWellFormed).0;
  keys = tt;
  values = λ j v hj e.
      read_has_no_nul true (card_of dir fs j) v
        (sym (load_reads f dir j fs names ok n listed fits hj) ∙ e);
  agree = λ j hj.
      sym (
        load_reads f dir j fs names ok n listed fits hj
        ∙ value_read (card_of dir fs j) (good j hj));
}

value_limit :
    (k v : Str) (es : List PrefEntry) → InLimits es → lookup k es ≡ some v → length v ≤ max_value
unfolding lookup
value_limit k v [] l h = cc
value_limit k v (e ∷ es) l h = ground (arith, value_limit k v es l.3)

read_back :
    (v : Option Str)
    → ((w : Str) → v ≡ some w → (has_nul w ≡ false) × (length w ≤ max_value))
    → pref_read_value_file true v ≡ v
unfolding pref_read_value_file
read_back none h = refl
read_back (some w) h = let (nul, short) = h w refl in ground arith

synced_values :
    {dir : Str} {r : Registry} (j : Str)
    → IsSynced dir r
    → IsFileKey dir j
    → pref_read_value_file true (pref_value j r.prefs) ≡ pref_value j r.prefs
synced_values {dir} {r} j sync hj = read_back (pref_value j r.prefs) (λ w e. (
  sync.values j w hj e,
  value_limit j w r.prefs.entries sync.table.limits (sym (pref_value-lookup j r.prefs) ∙ e),
))

drained_card :
    {dir : Str} {r : Registry} (j : Str)
    → IsSynced dir r
    → r.queue ≡ []
    → r.busy ≡ none
    → IsFileKey dir j
    → card_of dir r.files j ≡ pref_value j r.prefs
unfolding run_queue
drained_card j sync q b hj = rw (q, b) at sync.agree j hj

-- The game loads its preferences, from files that all hold values and with no failing call. It and
-- the worker then make any steps in any order, in which each job can be queued, the worker's file
-- calls succeed, the keys have file names and the values no NUL. Once no job is left, a second start that loads without a failing call, from
-- at most 4096 directory entries, reads for every key that has a file name what the table of the first run holds for it.
pub pref_load-Reaches :
    {dir : Str} {fs : Files} (f f' : LoadFaults) (names names' : List Str) {r : Registry} (j : Str)
    → IsFaultlessLoad f
    → f.names ≡ some names
    → IsListing dir fs names
    → length names ≤ max_count
    → ((i : Str) → IsFileKey dir i → IsValue (card_of dir fs i))
    → Reaches dir (started f dir fs) r
    → r.queue ≡ []
    → r.busy ≡ none
    → IsFaultlessLoad f'
    → f'.names ≡ some names'
    → IsListing dir r.files names'
    → length names' ≤ max_count
    → IsFileKey dir j
    → pref_value j (pref_load f' dir r.files fresh) ≡ pref_value j r.prefs
pref_load-Reaches {dir} {fs} f f' names names' {r} j ok n listed fits good run q b ok' n' listed'
      fits' hj =
    let sync = Reaches-IsSynced dir (started-IsSynced f dir fs names ok n listed fits good) run in
    load_reads f' dir j r.files names' ok' n' listed' fits' hj
    ∙ ap (pref_read_value_file true) (drained_card j sync q b hj)
    ∙ synced_values j sync hj
