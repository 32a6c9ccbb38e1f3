-- ===== src/Writeback/Git/Auth.antt =====
-- auth, hostKeyCallback and RemoteHead of internal/writeback/git.go.
pub mod Effects
pub mod HostKeys
use argocd_tag_updater.Base.{
  ℕ, ◌+◌, ◌<>◌, String, Bool, true, false, ◌||◌, not, Option, none, some, List, [], ◌∷◌, Result, ok,
  err, return, stop, gets, modify, map_error, attempt, on_result, branch, ◌>>=◌, ◌>>◌, ◌==◌,
  if◌then◌else◌,
}
use argocd_tag_updater.Writeback.{Writer, Credentials}
use argocd_tag_updater.Writeback.Urls.{to_https}
use argocd_tag_updater.Writeback.Git.{
  GitError, other_error, wrap, GitEnv, Session, Git, HostKeyCallback, known_hosts,
  insecure_ignore_host_key, AuthMethod, none_needed, public_keys, basic_auth, call, fail, finally,
}

unfoldable pub remove_file : String → Session → Session
remove_file name s = record s { removed_files = name ∷ s.removed_files }

unfoldable pub keep_file : String → Session → Session
keep_file name s = record s { files = name ∷ s.files }

-- A step that removes the file where it fails.
unfoldable pub or_remove : {E A : Type 0} → String → (ℕ → Result E A) → (E → GitError) → Git A
unfolding call fail remove_file ◌>>=◌
or_remove name f e = do
  r ← attempt (call f e)
  on_result r return (λ x. do modify (remove_file name); stop x)

-- The file of known hosts: its name, behind its creation.
unfoldable pub known_hosts_file : GitEnv → String → Git String
unfolding call or_remove keep_file ◌>>=◌
known_hosts_file env content = do
  name ← call env.create_temp (λ e. other_error ("create known_hosts file: " <> e))
  modify (keep_file name)
  written ←
      or_remove name (λ n. env.write_temp n name content)
        (λ e. other_error ("write known_hosts file: " <> e))
  closed ←
      or_remove name (λ n. env.close_temp n name)
        (λ e. other_error ("close known_hosts file: " <> e))
  parsed ←
      or_remove name (λ n. env.parse_known_hosts n name)
        (λ e. other_error ("parse knownHosts: " <> e))
  return name

-- The callback, and the file that its cleanup removes.
unfoldable pub host_key_callback : GitEnv → String → Bool → Git (HostKeyCallback × Option String)
unfolding known_hosts_file fail ◌>>=◌
host_key_callback env content insecure =
    branch (content == "")
      (branch insecure (return (insecure_ignore_host_key, none))
        (fail (other_error "SSH credentials require knownHosts or insecureIgnoreHostKey=true")))
      (do name ← known_hosts_file env content; return (known_hosts name, some name))

-- The method, the URL, and the file that the cleanup removes.
unfoldable pub auth : GitEnv → Writer → Git (AuthMethod × String × Option String)
unfolding host_key_callback fail to_https ◌>>=◌
auth env w =
    let c = w.credentials in
    branch (c.ssh_private_key == "")
      (branch (c.token == "")
        (branch (not (c.username == "") || not (c.password == ""))
          (return (basic_auth c.username c.password, to_https w.spec.repo, none))
          (return (none_needed, w.spec.repo, none)))
        (return (basic_auth "x-access-token" c.token, to_https w.spec.repo, none)))
      (on_result (env.new_public_keys c.ssh_private_key)
        (λ _. do
          keys ← host_key_callback env c.known_hosts c.insecure_ignore_host_key
          return (public_keys c.ssh_private_key keys.0, w.spec.repo, keys.1))
        (λ e. fail (other_error ("parse write-back SSH private key: " <> e))))

unfoldable pub cleanup : Option String → Session → Session
unfolding remove_file
cleanup none s = s
cleanup (some name) s = remove_file name s

-- The loop over the remote's references.
unfoldable pub branch_hash : String → List (String × String) → Option String
branch_hash want [] = none
branch_hash want ((name, hash) ∷ refs) =
    let further = branch_hash want refs in if name == want then some hash else further

unfoldable pub remote_head : GitEnv → Writer → Git String
unfolding auth call fail finally cleanup branch_hash ◌>>=◌
remote_head env w = do
  (method, url, file) ← auth env w
  finally
      (do
        refs ← call (λ n. env.list_refs n url method) (wrap ("ls-remote " <> url))
        elim (branch_hash ("refs/heads/" <> w.spec.branch) refs) [
          | some hash ↦ return hash
          | none ↦ fail (other_error ("branch " <> w.spec.branch <> " not found in " <> url))
        ])
      (cleanup file)
