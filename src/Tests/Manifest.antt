-- ===== src/Tests/Manifest.antt =====
-- A small manifest with its tree, and a git remote that takes everything.
use argocd_tag_updater.Base.{ℕ, ◌∷◌, [], String, true, false, none, List, ok}
use argocd_tag_updater.Base.Dict.{value}
use argocd_tag_updater.Api.{TargetSpec}
use argocd_tag_updater.Writeback.{Writer, Credentials}
use argocd_tag_updater.Writeback.Yaml.{Library}
use argocd_tag_updater.Writeback.Yaml.Bytes.{bytes}
use argocd_tag_updater.Writeback.Yaml.Nodes.{Kind, Heap, Node, plain}
use argocd_tag_updater.Writeback.Git.{GitEnv, Session}

abbrev pub text : String
text = "apiVersion: apps/v1\nkind: Deployment\nmetadata:\n  name: web\ntag: v1\n"

abbrev node : Kind → String → ℕ → ℕ → List ℕ → Node
node kind value line column content = record {
  kind = kind;
  tag = "";
  value = value;
  style = plain;
  line = line;
  column = column;
  content = content;
}

abbrev pub tree : Heap
tree =
    node Kind.document "" 1 1 (1 ∷ [])
    ∷ node Kind.mapping "" 1 1 (2 ∷ 3 ∷ 4 ∷ 5 ∷ 6 ∷ 7 ∷ 10 ∷ 11 ∷ [])
    ∷ node Kind.scalar "apiVersion" 1 1 []
    ∷ node Kind.scalar "apps/v1" 1 13 []
    ∷ node Kind.scalar "kind" 2 1 []
    ∷ node Kind.scalar "Deployment" 2 7 []
    ∷ node Kind.scalar "metadata" 3 1 []
    ∷ node Kind.mapping "" 4 3 (8 ∷ 9 ∷ [])
    ∷ node Kind.scalar "name" 4 3 []
    ∷ node Kind.scalar "web" 4 9 []
    ∷ node Kind.scalar "tag" 5 1 []
    ∷ node Kind.scalar "v1" 5 6 []
    ∷ []

-- A text is rendered as the value `tag`, and plain text reads back as itself.
abbrev pub yaml : Library
yaml = record {
  decode = λ input. (tree, ok 0 ∷ []);
  unmarshal = λ source. ok (
    node Kind.document "" 1 1 (1 ∷ [])
        ∷ node Kind.mapping "" 1 1 (2 ∷ 3 ∷ [])
        ∷ node Kind.scalar "value" 1 1 []
        ∷ node Kind.scalar "v2" 1 8 []
        ∷ [],
    0,
  );
  encode = λ indent heap n. ok tt;
  close = λ indent heap n. ok "tag: v2\n";
  execute = λ template values. ok "v2";
  select = λ selector. ok (λ labels. true);
  quote = λ s. s;
}

abbrev pub deployment : TargetSpec
deployment = record {
  api_version = "apps/v1";
  kind = "Deployment";
  name = "web";
  namespace = "";
  selector = none;
  patches = record { field = "tag"; template = "{{ .tag }}" } ∷ [];
}

abbrev pub credentials : Credentials
credentials = record {
  token = "";
  username = "";
  password = "";
  ssh_private_key = "key";
  known_hosts = "hosts";
  insecure_ignore_host_key = false;
}

abbrev pub writer : Writer
writer = record {
  spec = record {
    repo = "git@github.com:o/r";
    branch = "main";
    path = "apps/web.yaml";
    credentials_secret_ref = record { name = "" };
  };
  credentials = credentials;
  targets = deployment ∷ [];
  values = ("tag", "v2") ∷ [];
}

abbrev pub git_env : GitEnv
git_env = record {
  yaml = yaml;
  new_public_keys = λ key. ok tt;
  create_temp = λ n. ok "/tmp/known-hosts";
  write_temp = λ n name content. ok tt;
  close_temp = λ n name. ok tt;
  parse_known_hosts = λ n name. ok tt;
  new_clone_directory = λ n. ok "/tmp/clone-1";
  plain_clone = λ n method url branch dir. ok tt;
  worktree = λ n dir. ok tt;
  checkout = λ n dir branch path. ok tt;
  read_file = λ n path. ok (bytes text);
  write_file = λ n path content. ok tt;
  stage = λ n dir path. ok tt;
  commit = λ n dir message. ok "c2";
  head = λ n dir. ok "c1";
  push = λ n dir method. ok tt;
  list_refs = λ n url method. ok [];
}

abbrev pub session : Session
session = record {
  calls = 0;
  clones = 0;
  pushed = [];
  directories = [];
  removed_directories = [];
  files = [];
  removed_files = [];
}
