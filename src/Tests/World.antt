-- ===== src/Tests/World.antt =====
-- A small world: one updater, a registry of three tags, a clock, and an ArgoCD that finds everything
-- degraded.
use argocd_tag_updater.Base.{
  ◌+◌, ◌∷◌, [], String, Bool, true, false, none, some, List, ok, err, if◌then◌else◌, ◌==◌,
}
use argocd_tag_updater.Base.Int.{pos}
use argocd_tag_updater.Base.Time.{Time, minutes}
use argocd_tag_updater.Api.{TagUpdater, TagUpdaterStatus, TargetSpec, Condition}
use argocd_tag_updater.Matcher.{Regexp}
use argocd_tag_updater.Matcher.Sort.{insertion_sort}
use argocd_tag_updater.Progress.{ProgressTracker}
use argocd_tag_updater.Controller.Env.{Env, State, got}

-- `^v(?P<n>[0-9]+)$` on the tags of this world.
abbrev pub tag_expression : Regexp
tag_expression = record {
  subexp_names = "" ∷ "n" ∷ [];
  find_string_submatch = λ tag.
      if tag == "v1"
      then some ("v1" ∷ "1" ∷ [])
      else if tag == "v2"
      then some ("v2" ∷ "2" ∷ [])
      else none;
}

abbrev pub clock : Time
clock = 63_900_000_000_000_000_000

abbrev pub target : TargetSpec
target = record {
  api_version = "apps/v1";
  kind = "Deployment";
  name = "web";
  namespace = "shop";
  selector = none;
  patches = record { field = "spec.tag"; template = "{{ .tag }}" } ∷ [];
}

abbrev pub status : TagUpdaterStatus
status = record {
  last_image_digest = "";
  previous_image_digest = "";
  observed_generation = pos 1;
  last_tag = "v2";
  last_updated = some clock;
  conditions = [];
  last_write_commit = "c2";
  previous_tag = "v1";
  skipped_tags = [];
  watching_tag = "v2";
  watching_commit = "c2";
  watching_armed_at = some clock;
  watching_since = some clock;
}

abbrev pub updater : TagUpdater
updater = record {
  namespace = "shop";
  name = "web";
  generation = pos 1;
  spec = record {
    source = record {
      digest_auth_realm = "";
      resolve_digest = false;
      digest_repo = "";
      type = "git";
      repo = "git@github.com:shop/web.git";
      tag_pattern = "^v(?P<n>[0-9]+)$";
      image_pull_secret_ref = none;
    };
    targets = target ∷ [];
    interval = minutes 2;
    write_back = record {
      repo = "git@github.com:shop/deploy.git";
      branch = "main";
      path = "web.yaml";
      credentials_secret_ref = record { name = "deploy-key" };
    };
    argo_cd_app = some (record { name = "web"; namespace = "" });
    managing_app = none;
    rollback = some (record { enabled = true; timeout = pos 0 });
  };
  status = status;
}

-- `meta.SetStatusCondition`, as far as these runs need it.
abbrev conditions_with : List Condition → Condition → List Condition × Bool
conditions_with conditions c = (c ∷ conditions, true)

abbrev pub world : Env
world = record {
  get = got updater;
  list = λ k. ok (updater ∷ []);
  status_update = λ k. none;
  get_secret = λ k namespace name. ok (("token", "secret") ∷ []);
  has_recorder = true;
  has_dynamic = true;
  Object = String;
  get_application = λ k namespace name. ok "Degraded";
  nested_string = λ object path. object;
  nested_string_slice = λ object path. [];
  nested_slice = λ object path. [];
  nested_map = λ object path. object;
  set_status_condition = conditions_with;
  marshal_selector = λ selector. ok "null";
  now = λ k. clock + k;
  getenv = λ name. "";
  read_file = λ k name. err "no such file";
  parse_rfc3339 = λ text. none;
  show_duration = λ d. "20m0s";
  quote = λ text. text;
  compile = λ pattern. ok tag_expression;
  sort_slice = insertion_sort;
  unmarshal_docker_config = λ text. err "no such entry";
  base64 = λ text. text;
  git_tags = λ k source. ok ("v1" ∷ "v2" ∷ "latest" ∷ []);
  git_tag_revs = λ k source. ok (("v1", "r1") ∷ ("v2", "r2") ∷ []);
  oci_tags = λ k source. err "unreachable";
  oci_digest = λ k source tag. err "unreachable";
  nix_tags = λ k source. err "unreachable";
  nix_resolve = λ k source tag. err "unreachable";
  writer_apply = λ k writer. ok (record { committed = true; commit_sha = "c3" });
  writer_remote_head = λ k writer. ok "c2";
}

abbrev pub tracker : ProgressTracker
tracker = record { entries = []; multiplier = pos 0; floor = pos 0 }

abbrev pub start : State
start = record {
  status = status;
  stored = status;
  progress = tracker;
  first_rev_attempt = pos 0;
  last_rev_success = pos 0;
  writes = [];
  events = [];
  calls = 0;
}
