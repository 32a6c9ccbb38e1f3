-- ===== src/Writeback/TempDir.antt =====
-- internal/writeback/temp.go, over the system calls that it makes.
pub mod Removal
use argocd_tag_updater.Base.{
  ℕ, ◌+◌, ◌<>◌, String, Bool, true, false, ◌&&◌, ◌||◌, not, none, some, Option, List, [], ◌∷◌,
  Result, ok, err, ◌==◌, eqb, if◌then◌else◌, M, return, stop, lift, gets, modify, attempt,
  map_error, branch, on_result, ◌>>=◌, ◌>>◌,
}
use argocd_tag_updater.Base.Text.{has_prefix}
use argocd_tag_updater.Writeback.Paths.Clean.{join_path}

pub data FileType : Type 0 where
  directory : FileType
  regular : FileType
  other_type : FileType

-- What `Lstat` and `Fstat` report: the type, the owner, and the lower twelve bits of the mode.
pub record Stat : Type 0 where
  pub file_type : FileType
  pub uid : ℕ
  pub mode : ℕ

pub data SystemError : Type 0 where
  exists_already : SystemError
  not_exist : SystemError
  other_failure : String → SystemError

-- The system. A call may depend on the number of calls made so far.
pub record System : Type 0 where
  pub temp_dir : String
  pub euid : ℕ
  pub message : SystemError → String
  pub print : ℕ → String
  pub mkdir : ℕ → String → Result SystemError (Unit {0})
  pub lstat : ℕ → String → Result SystemError Stat
  pub mkdir_temp : ℕ → String → String → Result SystemError String
  pub open_lock : ℕ → String → Result SystemError ℕ
  pub fstat : ℕ → ℕ → Result SystemError Stat
  pub flock : ℕ → ℕ → Result SystemError (Unit {0})
  pub read_dir : ℕ → String → Result SystemError (List String)
  pub remove_all : ℕ → String → Result SystemError (Unit {0})

-- The calls made, the paths given to `RemoveAll`, the descriptors closed and the locks released.
pub record Trace : Type 0 where
  pub calls : ℕ
  pub removed : List String
  pub closed : List ℕ
  pub unlocked : List ℕ

abbrev pub Sys : Type 0 → Type 0
Sys A = M Trace String A

unfoldable pub invoke : {A : Type 0} → (ℕ → Result SystemError A) → Sys (Result SystemError A)
invoke f t = (ok (f t.calls), record t { calls = t.calls + 1 })

unfoldable pub is_directory : FileType → Bool
is_directory directory = true
is_directory regular = false
is_directory other_type = false

unfoldable pub is_regular : FileType → Bool
is_regular regular = true
is_regular directory = false
is_regular other_type = false

unfoldable pub temp_root : System → String
unfolding join_path
temp_root sys = join_path sys.temp_dir "argocd-tag-updater"

-- The tests of the root's status. The mode is 0700.
unfoldable pub check_root : System → Stat → Result String (Unit {0})
unfolding is_directory temp_root
check_root sys status =
    if not (is_directory status.file_type)
    then err ("write-back temp root " <> temp_root sys <> " is not a real directory")
    else if not (eqb status.uid sys.euid)
    then err (
        "write-back temp root "
        <> temp_root sys
        <> " is owned by uid "
        <> sys.print status.uid
        <> ", current uid is "
        <> sys.print sys.euid)
    else if not (eqb status.mode 448)
    then err ("write-back temp root " <> temp_root sys <> " must be owner-only mode 0700")
    else ok tt

-- `err != nil && !os.IsExist(err)`
unfoldable pub made : System → Result SystemError (Unit {0}) → Result String (Unit {0})
unfolding temp_root
made sys (ok _) = ok tt
made sys (err exists_already) = ok tt
made sys (err not_exist) =
    err ("create write-back temp root " <> temp_root sys <> ": " <> sys.message not_exist)
made sys (err (other_failure e)) =
    err ("create write-back temp root " <> temp_root sys <> ": " <> sys.message (other_failure e))

unfoldable pub ensure_writeback_temp_dir : System → Sys String
unfolding invoke made temp_root check_root ◌>>=◌
ensure_writeback_temp_dir sys = do
  created ← invoke (λ n. sys.mkdir n (temp_root sys))
  there ← lift (made sys created)
  status ← invoke (λ n. sys.lstat n (temp_root sys))
  on_result status (λ found. do checked ← lift (check_root sys found); return (temp_root sys))
      (λ e. stop ("inspect write-back temp root " <> temp_root sys <> ": " <> sys.message e))

unfoldable pub new_clone_directory : System → Sys String
unfolding ensure_writeback_temp_dir invoke ◌>>=◌
new_clone_directory sys = do
  root ← ensure_writeback_temp_dir sys
  path ← invoke (λ n. sys.mkdir_temp n root "clone-")
  on_result path return (λ e. stop ("create write-back clone directory: " <> sys.message e))

unfoldable pub close : ℕ → Trace → Trace
close descriptor t = record t { closed = descriptor ∷ t.closed }

-- `LOCK_UN`, and the file is closed.
unfoldable pub release : ℕ → Trace → Trace
release descriptor t = record t {
  unlocked = descriptor ∷ t.unlocked;
  closed = descriptor ∷ t.closed;
}

unfoldable pub is_own_lock : System → Stat → Bool
unfolding is_regular
is_own_lock sys status =
    is_regular status.file_type && eqb status.uid sys.euid && eqb status.mode 384

-- The descriptor is closed on every error.
unfoldable pub refuse : {A : Type 0} → ℕ → String → Sys A
unfolding close ◌>>=◌
refuse descriptor text = do modify (close descriptor); stop text

unfoldable pub lock_writeback_temp_dir : System → String → Sys ℕ
unfolding invoke is_own_lock refuse join_path ◌>>=◌
lock_writeback_temp_dir sys root = do
  let path = join_path root ".writeback.lock"
  opened ← invoke (λ n. sys.open_lock n path)
  descriptor ←
      on_result opened return
        (λ e. stop ("open write-back temp lock " <> path <> ": " <> sys.message e))
  status ← invoke (λ n. sys.fstat n descriptor)
  found ←
      on_result status return
        (λ e. refuse descriptor ("inspect write-back temp lock " <> path <> ": " <> sys.message e))
  branch (is_own_lock sys found)
      (do
        locked ← invoke (λ n. sys.flock n descriptor)
        on_result locked (λ _. return descriptor)
            (λ e.
              refuse descriptor ("lock write-back temp root " <> root <> ": " <> sys.message e)))
      (refuse descriptor (
        "write-back temp lock " <> path
        <> " must be a current-user regular file with owner-only permissions"))

-- A directory of the current user's is removed, anything else is left.
unfoldable pub is_removable : System → Stat → Bool
unfolding is_directory
is_removable sys status = is_directory status.file_type && eqb status.uid sys.euid

unfoldable pub note_removal : String → Trace → Trace
note_removal path t = record t { removed = path ∷ t.removed }

unfoldable pub remove_path : System → String → Sys (Unit {0})
unfolding note_removal invoke ◌>>=◌
remove_path sys path = do
  modify (note_removal path)
  done ← invoke (λ n. sys.remove_all n path)
  on_result done return (λ e. stop ("remove candidate " <> path <> ": " <> sys.message e))

unfoldable pub after_stat : System → String → Result SystemError Stat → Sys (Unit {0})
unfolding is_removable remove_path
after_stat sys path (ok status) =
    branch (is_removable sys status) (remove_path sys path) (return tt)
after_stat sys path (err not_exist) = return tt
after_stat sys path (err e) = stop ("inspect candidate " <> path <> ": " <> sys.message e)

unfoldable pub remove_candidate : System → String → String → Sys (Unit {0})
unfolding has_prefix join_path invoke after_stat ◌>>=◌
remove_candidate sys root name =
    branch (has_prefix name "clone-")
      (do
        status ← invoke (λ n. sys.lstat n (join_path root name))
        after_stat sys (join_path root name) status)
      (return tt)

unfoldable pub remove_candidates : System → String → List String → Sys (Unit {0})
unfolding remove_candidate ◌>>=◌
remove_candidates sys root [] = return tt
remove_candidates sys root (name ∷ names) =
    remove_candidate sys root name >> remove_candidates sys root names

unfoldable pub remove_interrupted_clones : System → String → Sys (Unit {0})
unfolding invoke remove_candidates ◌>>=◌
remove_interrupted_clones sys root = do
  entries ← invoke (λ n. sys.read_dir n root)
  on_result entries (remove_candidates sys root)
      (λ e. stop ("read write-back temp root " <> root <> ": " <> sys.message e))

-- The descriptor whose `release` the caller calls.
unfoldable pub prepare_writeback_temp_dir : System → Sys ℕ
unfolding ensure_writeback_temp_dir lock_writeback_temp_dir remove_interrupted_clones release ◌>>=◌
prepare_writeback_temp_dir sys = do
  root ← ensure_writeback_temp_dir sys
  descriptor ← lock_writeback_temp_dir sys root
  swept ← attempt (remove_interrupted_clones sys root)
  on_result swept (λ _. return descriptor)
      (λ e. do modify (release descriptor); stop ("remove interrupted write-back clones: " <> e))
