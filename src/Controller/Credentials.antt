-- ===== src/Controller/Credentials.antt =====
-- `resolveWriteBackCredentials` and `resolveDockerAuth`.
use argocd_tag_updater.Base.{
  return, stop, lift, map_error, when, branch, String, ◌<>◌, Bool, false, ◌&&◌, ◌||◌, not, Option,
  none, some, [], ◌∷◌, ok, err, ◌>>=◌, ◌>>◌, ◌==◌, if◌then◌else◌,
}
use argocd_tag_updater.Base.Text.{trim_prefix, trim_space, equal_fold, cut}
use argocd_tag_updater.Base.Dict
use argocd_tag_updater.Base.Dict.{Dict, value}
use argocd_tag_updater.Writeback.{Credentials}
use argocd_tag_updater.Controller.Env.{Env, Go, DockerAuth, try_call}

-- The credentials that a secret's keys give.
unfoldable pub secret_credentials : Dict String → Credentials
unfolding value trim_space equal_fold
secret_credentials secret = record {
  token = value "token" secret;
  username = value "username" secret;
  password = value "password" secret;
  ssh_private_key = value "sshPrivateKey" secret;
  known_hosts = value "knownHosts" secret;
  insecure_ignore_host_key = equal_fold (trim_space (value "insecureIgnoreHostKey" secret)) "true";
}

-- Nothing to authenticate with.
unfoldable pub is_unusable : Credentials → Bool
is_unusable c = c.token == "" && c.ssh_private_key == "" && (c.username == "" || c.password == "")

-- The entry of the host: the stored token, or one made of the name and the password.
unfoldable pub auth_of : (String → String) → String → Dict DockerAuth → Option String
auth_of base64 host [] = none
auth_of base64 host ((registry, entry) ∷ more) =
    let rest = auth_of base64 host more in
    if not (registry == host)
    then rest
    else if not (entry.auth == "")
    then some entry.auth
    else if not (entry.username == "") && not (entry.password == "")
    then some (base64 (entry.username <> ":" <> entry.password))
    else rest

-- The host of a registry reference, with no scheme and no path.
unfoldable pub registry_host : String → String
unfolding trim_prefix cut
registry_host repo =
    let ref = trim_prefix (trim_prefix repo "https://") "http://" in
    elim (cut b'/' ref) [ none ↦ ref | some (host, path) ↦ host ]

module _ (env : Env) where
  -- The credentials of a named secret.
  unfoldable pub credentials_from_secret : String → String → Go Credentials
  credentials_from_secret namespace name = do
    secret ←
        map_error
          (λ e. "get write-back credentials secret " <> namespace <> "/" <> name <> ": " <> e)
          (try_call (λ k. env.get_secret k namespace name))
    let credentials = secret_credentials secret
    when (is_unusable credentials) (
        stop (
          "write-back credentials secret " <> namespace <> "/" <> name
          <> " must contain token, sshPrivateKey, or both username and password"))
    return credentials

  -- The two mounted files.
  unfoldable pub read_mounted : String → String → Go Credentials
  read_mounted key_file known_hosts_file = do
    key ←
        map_error (λ e. "read mounted write-back SSH key " <> key_file <> ": " <> e)
          (try_call (λ k. env.read_file k key_file))
    known_hosts ←
        map_error (λ e. "read mounted write-back known_hosts " <> known_hosts_file <> ": " <> e)
          (try_call (λ k. env.read_file k known_hosts_file))
    return (record {
      token = "";
      username = "";
      password = "";
      ssh_private_key = key;
      known_hosts = known_hosts;
      insecure_ignore_host_key = false;
    })

  -- The credentials that the controller's environment names.
  unfoldable pub mounted_credentials : Go Credentials
  unfolding trim_space
  mounted_credentials = do
    let key_file = trim_space (env.getenv "GIT_SSH_KEY_FILE")
    let known_hosts_file = trim_space (env.getenv "GIT_KNOWN_HOSTS_FILE")
    when (key_file == "" || known_hosts_file == "") (
        stop
          "write-back requires credentialsSecretRef or both GIT_SSH_KEY_FILE and GIT_KNOWN_HOSTS_FILE")
    read_mounted key_file known_hosts_file

  unfoldable pub resolve_write_back_credentials : String → String → Go Credentials
  resolve_write_back_credentials namespace secret_name =
      branch (secret_name == "") mounted_credentials (credentials_from_secret namespace secret_name)

  unfoldable pub resolve_docker_auth : String → String → String → Go String
  unfolding auth_of registry_host
  resolve_docker_auth namespace secret_name repo = do
    secret ←
        map_error (λ e. "get secret " <> namespace <> "/" <> secret_name <> ": " <> e)
          (try_call (λ k. env.get_secret k namespace secret_name))
    raw ← lift (elim (Dict.lookup ".dockerconfigjson" secret) [
      | some raw ↦ ok raw
      | none ↦
          err ("secret " <> namespace <> "/" <> secret_name <> " missing .dockerconfigjson key")
    ])
    auths ←
        map_error
          (λ e. "parse dockerconfigjson in " <> namespace <> "/" <> secret_name <> ": " <> e)
          (lift (env.unmarshal_docker_config raw))
    lift (elim (auth_of env.base64 (registry_host repo) auths) [
      | some auth ↦ ok auth
      | none ↦ err (
          "no auth entry for host "
          <> env.quote (registry_host repo)
          <> " in secret "
          <> namespace
          <> "/"
          <> secret_name)
    ])
