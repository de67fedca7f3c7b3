-- ===== src/Lib.antt =====
-- Zombie Shooter for the PS Vita: the parts of the port that keep data or compute.
--
-- The port loads the Android library of the game, gives it a Java environment and replaces some of
-- its routines. Several kinds of its code are modelled here: the registry that stands in for
-- Android's shared preferences, the cache that the file functions ask for whole assets, the index
-- of the assets that are missing, the names of the graphics buffers, the policies of frame reuse,
-- the configuration files, the error numbers, the locks, and the routines that replace inner loops
-- of the software renderer. The renderer's routines keep no state but the cached reciprocals and
-- tables; the other parts do not share any.
--
-- Registry: source/preferences_store.inc and source/preferences_jni.inc. The game calls the
-- methods of Registry.Api (prefs_get_string, prefs_put_string, prefs_remove, prefs_clear,
-- prefs_contains, zombie_registry_direct_put and zombie_registry_direct_get). They change the
-- table of Registry.Table (pref_set, pref_remove_key, pref_free_all) and put a job in the queue of
-- Registry.Queue (pref_io_enqueue_key, pref_io_enqueue_clear). The worker thread,
-- pref_io_worker_main, is the two steps worker_take and worker_finish, between which the game may
-- run; the second one does the job with the file operations of Registry.Files (pref_io_process).
-- Registry.Load is pref_load, and Registry.FileName the names of the files that both use.
-- Registry.Api.Reach has the calls and the worker's steps as one relation, in any order. The state
-- is a record `Registry` of the table, the queue, the job in the worker's hands and the files. A
-- file system gives the contents of each path.
--
-- AssetCache: source/utils/asset_cache.c. The slots are a list, a pointer to an entry is its
-- index, and the bytes of an entry are kept with it, so that what a reader sees can be stated.
--
-- Division: source/utils/light_division.h, light_div_try, with the 32-bit patterns of its
-- arguments written out.
--
-- Raster: source/utils/raster_alpha.h and source/utils/raster_palette.h, rows of pixels, and the
-- gamma tables of source/utils/raster_palette.c. Colours and lanes are numbers; a vector
-- instruction is its arithmetic on every lane, with saturation and wrap-around written out.
--
-- GlBuffers: source/utils/gl_buffers.inc, the 16-bit names that the game has for the buffers of
-- VitaGL. VitaGL is a log of the calls that it gets, from which GlBuffers.Names and
-- GlBuffers.Bindings read which buffers are live and which are bound; the names that it answers
-- with are arguments.
--
-- RenderReuse: source/utils/render_reuse_policy.h and source/utils/upload_reuse_guard.h, which
-- decide when a rendered frame is shown again and when its upload is left out.
--
-- Settings: source/utils/settings.c, the configuration file with its defaults. Gamepad:
-- source/utils/gamepad.c, the controls file and the translation of the buttons. Both read their
-- file with the models of fgets, sscanf and fprintf in Prelude.Text.
--
-- Errno: source/reimpl/errno.c and source/reimpl/bits/_errno_bionic.h. The table is state, since
-- the game writes into it through the pointer that it gets. Errno.Android has the numbers and
-- texts that a program for Android expects, apart from the table of the source.
--
-- AssetIndex: source/utils/asset_index.c. AssetIndex.Names hashes the names and searches in the
-- sorted hashes, with fuel for as many rounds as there are hashes; the card is a function from a
-- path to what its directory answers.
--
-- Threads: source/reimpl/pthr.c. Threads.Objects has the mutexes, conditions and read-write locks
-- that stand for those of the game, with the table initializedObjects (1024 slots, any number in
-- the proofs); their functions are whole calls, and Threads.Operations makes runs of calls that do
-- not overlap. In pthr.c pthr_mutex guards only the single accesses to the table, so calls may
-- overlap between these: Threads.Race runs any number of calls one access at a time,
-- Threads.Overlap and Threads.FirstLocks have what follows, and Threads.Alone that a call alone is
-- the whole call of Threads.Objects. Threads.Once runs the threads that call pthread_once_soloader
-- one access at a time. Threads.Attributes and Threads.Semaphores have the rest. The library and
-- the kernel are logs of the calls made to them, and their answers are arguments.
--
-- Prelude: C's tests and conditionals, arrays, words, byte strings, masks and signed integers.
--
-- Failures are arguments: `Alloc` says which allocations of an operation succeed, and the records
-- of faults which calls of the file system do. So every theorem that does not restrict them holds
-- for every combination of failures.
--
-- Fuel: the eviction loop runs on one more than the number of slots, since each round but the last
-- frees one. The search for a free buffer name has the 65535 rounds of the source, one for each
-- name. The rows in blocks of eight run on the length of the row. The binary search runs on the
-- number of hashes, which is_absent-contains_hash shows to be enough. A schedule of threads, or a
-- run of calls, is a list of any length. All other loops are by recursion on their data.
--
-- Not modelled: what a lock does inside one operation of the registry's queue, of the cache and of
-- the index of assets, each of which runs under its lock and is one step, the conversion of Java
-- strings, the enumeration of keys, the creation and the waiting of the worker thread (an argument
-- says whether there is one), log lines, and the counters of the rows. The claim of a slot of the
-- reciprocals by two threads at once is one step. The renderer's checks of addresses are modelled
-- for the alpha rows only, apart from the rows, which are lists. The functions of pthr.c that only
-- pass their arguments on, and its trace are left out, each access to its table is one step, and
-- malloc is taken to succeed but for a read-write lock. Nor are the times that asset_index.c
-- measures and the sums that it logs. All other parts of the repository, such as touch input,
-- sound and the start of the program, are not modelled.
pub mod AssetCache
pub mod AssetIndex
pub mod Division
pub mod Errno
pub mod Gamepad
pub mod GlBuffers
pub mod Prelude
pub mod Raster
pub mod Registry
pub mod RenderReuse
pub mod Settings
pub mod Threads
