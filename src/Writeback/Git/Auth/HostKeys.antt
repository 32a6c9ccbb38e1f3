-- ===== src/Writeback/Git/Auth/HostKeys.antt =====
-- When auth takes any host key.
use argocd_tag_updater.Base.{
  ◌≡◌, inl, inr, String, Bool, true, Option, some, ok, Bool-cases, ◌==◌, eq_iff, return,
}
use argocd_tag_updater.Base.Flow.Success.{bind_ok}
use argocd_tag_updater.Writeback.Git.{GitEnv, Session, known_hosts, insecure_ignore_host_key}
use argocd_tag_updater.Writeback.Git.Auth.{host_key_callback, known_hosts_file}

-- Any host key is taken only where no known hosts are given and the credentials say so.
pub host_key_callback_insecure :
    (env : GitEnv) (content : String) (insecure : Bool) (s : Session) (file : Option String)
    → (host_key_callback env content insecure s).0 ≡ ok (insecure_ignore_host_key, file)
    → (content ≡ "") × (insecure ≡ true)
unfolding host_key_callback
host_key_callback_insecure env content insecure s file h = elim (Bool-cases (content == "")) [
  | inl empty ↦ elim (Bool-cases insecure) [
    | inl chosen ↦ ((eq_iff content "").0 empty, chosen)
    | inr not_chosen ↦ absurd (cc (rw (host_key_callback, empty, not_chosen) at h))
  ]
  | inr given ↦
      let (name, _, h', _) =
        bind_ok (known_hosts_file env content) (λ name. return (known_hosts name, some name)) s
          {b = (insecure_ignore_host_key, file)} (rw (host_key_callback, given) at h) in
      absurd (cc h')
]
