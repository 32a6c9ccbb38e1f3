-- ===== src/Writeback/Git/Auth/Effects.antt =====
-- What auth keeps, for any relation between sessions that the smallest effects keep.
use argocd_tag_updater.Base.{ℕ, String, Bool, Option, none, some, Result}
use argocd_tag_updater.Base.Flow.Respects.{Respects, respects_rules}
use argocd_tag_updater.Writeback.{Writer}
use argocd_tag_updater.Writeback.Git.{GitError, GitEnv, Session, Git, finally}
use argocd_tag_updater.Writeback.Git.Auth.{
  remove_file, keep_file, or_remove, known_hosts_file, host_key_callback, auth, cleanup,
}
use argocd_tag_updater.Writeback.Git.Once.Effects.{Calls, Respects-call, Respects-fail}

-- The smallest effects, those on the file of known hosts among them.
pub record Files (R : Session → Session → Type 0) : Type 0 where
  pub calls : Calls R
  pub kept : (name : String) (s : Session) → R s (keep_file name s)
  pub removed : (name : String) (s : Session) → R s (remove_file name s)

module _ {R : Session → Session → Type 0} (K : Files R) where
  Respects-or_remove :
      {E A : Type 0} (name : String) (f : ℕ → Result E A) (e : E → GitError)
      → Respects R (or_remove name f e)
  unfolding or_remove
  Respects-or_remove name f e =
      search (respects_rules, K.calls.order, Respects-call K.calls, K.removed) depth 30

  Respects-known_hosts_file :
      (env : GitEnv) (content : String) → Respects R (known_hosts_file env content)
  unfolding known_hosts_file
  Respects-known_hosts_file env content =
      search (respects_rules, K.calls.order, Respects-call K.calls, Respects-or_remove, K.kept)
        depth 30

  Respects-host_key_callback :
      (env : GitEnv) (content : String) (insecure : Bool)
      → Respects R (host_key_callback env content insecure)
  unfolding host_key_callback
  Respects-host_key_callback env content insecure =
      search (respects_rules, K.calls.order, Respects-fail K.calls, Respects-known_hosts_file) depth
        30

  pub Respects-auth : (env : GitEnv) (w : Writer) → Respects R (auth env w)
  unfolding auth
  Respects-auth env w =
      search (respects_rules, K.calls.order, Respects-fail K.calls, Respects-host_key_callback)
        depth 30

  pub Respects-cleanup : (file : Option String) (s : Session) → R s (cleanup file s)
  unfolding cleanup
  Respects-cleanup none s = K.calls.order.reflexive s
  Respects-cleanup (some name) s = K.removed name s

  pub Respects-finally :
      {A : Type 0} (m : Git A) (file : Option String)
      → Respects R m
      → Respects R (finally m (cleanup file))
  unfolding finally
  Respects-finally m file h = record {
    at = λ s.
        K.calls.order.transitive s (m s).1 (cleanup file (m s).1) (h.at s)
          (Respects-cleanup file (m s).1);
  }
