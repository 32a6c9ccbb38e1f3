-- ===== src/Writeback/Git.antt =====
-- internal/writeback/git.go: `Apply` and `RemoteHead` over a git library, a file system and the
-- directories of temp.go. An outside call is a function of the number of calls made so far.
pub mod Auth
pub mod Once
pub mod Apply
use argocd_tag_updater.Base.{
  ℕ, ◌+◌, ◌<>◌, String, Bool, true, false, Option, none, some, List, ◌∷◌, Result, ok, err, M,
  return, stop, gets, modify, map_error, attempt, on_result, branch, ◌>>=◌, ◌>>◌,
}
use argocd_tag_updater.Writeback.Yaml.{Library}

-- An error, and which of go-git's errors `errors.Is` finds in it.
pub record GitError : Type 0 where
  pub message : String
  pub is_non_fast_forward : Bool
  pub is_empty_commit : Bool

abbrev pub other_error : String → GitError
other_error message = record {
  message = message;
  is_non_fast_forward = false;
  is_empty_commit = false;
}

-- `fmt.Errorf("...: %w", err)`
abbrev pub wrap : String → GitError → GitError
wrap text e = record e { message = text <> ": " <> e.message }

pub data Stop : Type 0 where
  failed : GitError → Stop
  panicked : String → Stop

pub data HostKeyCallback : Type 0 where
  known_hosts : String → HostKeyCallback
  insecure_ignore_host_key : HostKeyCallback

pub data AuthMethod : Type 0 where
  none_needed : AuthMethod
  public_keys : String → HostKeyCallback → AuthMethod
  basic_auth : String → String → AuthMethod

-- What `Apply` calls. A commit's hash is its text.
pub record GitEnv : Type 0 where
  pub yaml : Library
  pub new_public_keys : String → Result String (Unit {0})
  pub create_temp : ℕ → Result String String
  pub write_temp : ℕ → String → String → Result String (Unit {0})
  pub close_temp : ℕ → String → Result String (Unit {0})
  pub parse_known_hosts : ℕ → String → Result String (Unit {0})
  pub new_clone_directory : ℕ → Result GitError String
  pub plain_clone : ℕ → AuthMethod → String → String → String → Result GitError (Unit {0})
  pub worktree : ℕ → String → Result GitError (Unit {0})
  pub checkout : ℕ → String → String → String → Result GitError (Unit {0})
  pub read_file : ℕ → String → Result GitError (List ℕ)
  pub write_file : ℕ → String → List ℕ → Result GitError (Unit {0})
  pub stage : ℕ → String → String → Result GitError (Unit {0})
  pub commit : ℕ → String → String → Result GitError String
  pub head : ℕ → String → Result GitError String
  pub push : ℕ → String → AuthMethod → Result GitError (Unit {0})
  pub list_refs : ℕ → String → AuthMethod → Result GitError (List (String × String))

-- What is done outside: the pushes that the remote took, the clones begun, the directories and the
-- known_hosts files that were created and removed, the last one first.
pub record Session : Type 0 where
  pub calls : ℕ
  pub clones : ℕ
  pub pushed : List String
  pub directories : List String
  pub removed_directories : List String
  pub files : List String
  pub removed_files : List String

abbrev pub Git : Type 0 → Type 0
Git A = M Session Stop A

-- One outside call.
unfoldable pub call : {E A : Type 0} → (ℕ → Result E A) → (E → GitError) → Git A
call f e s = (
  elim (f s.calls) [ ok a ↦ ok a | err x ↦ err (failed (e x)) ],
  record s { calls = s.calls + 1 },
)

unfoldable pub fail : {A : Type 0} → GitError → Git A
fail e s = (err (failed e), s)

-- `defer`
unfoldable pub finally : {A : Type 0} → Git A → (Session → Session) → Git A
finally m f s = ((m s).0, f (m s).1)
