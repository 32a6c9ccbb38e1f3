-- ===== src/Tests/Listing.antt =====
-- The tag sources and the temporary directories, at concrete inputs.
use argocd_tag_updater.Base.{
  ℕ, arith, eq_iff, ◌++◌, ◌≡◌, ◌≢◌, ◌⊎◌, refl, ◌∷◌, [], ◌<>◌, String, true, false, none, some, List,
  ok, err, if◌then◌else◌, ◌==◌, eqb,
}
use argocd_tag_updater.Base.Dict.{Dict, lookup}
use argocd_tag_updater.Base.Text.{strip_prefix, has_prefix, contains_char}
use argocd_tag_updater.Sources.{Oci}
use argocd_tag_updater.Sources.Http.{HttpEnv, Request, Response, Url, Wire, NixTagEntry}
use argocd_tag_updater.Sources.NixCache.{split_last, release_fields}
use argocd_tag_updater.Sources.NixCache.Split.{split_last_joins}
use argocd_tag_updater.Sources.NixCache.Release.{IsRelease, release_fields-IsRelease}
use argocd_tag_updater.Sources.GitTags.{Remote, Reference, tag_revs_from_refs}
use argocd_tag_updater.Sources.GitTags.Peeled.{
  or_else, last_plain, last_peeled, lookup-tag_revs_from_refs,
}
use argocd_tag_updater.Sources.Registry.{pages, page_request, next_page_url}
use argocd_tag_updater.Sources.Registry.Pages.{Serves, concat, pages_enough}
use argocd_tag_updater.Sources.Bearer.{bearer_token}
use argocd_tag_updater.Sources.Bearer.Trust.{IsTokenRequest, bearer_token-IsTrusted}
use argocd_tag_updater.Sources.Digest.{valid_digest, valid_tag}
use argocd_tag_updater.Sources.Lookup.{digest}
use argocd_tag_updater.Sources.Lookup.Valid.{digest_valid}
use argocd_tag_updater.Writeback.TempDir.{System, Trace, directory, remove_interrupted_clones}
use argocd_tag_updater.Writeback.TempDir.Removal.{Sweeps, remove_interrupted_clones-Sweeps}

halves : split_last "cache.example/team/platform" ≡ some ("cache.example/team", "platform")
unfolding split_last
halves = refl

split_last_joins_example :
    ((let s : String = "cache.example/team/platform" in s)
      ≡ "cache.example/team" <> ("/" <> "platform"))
    × (◌≢◌ {A = String} "cache.example/team" "")
    × (◌≢◌ {A = String} "platform" "")
    × (contains_char (λ c. eqb c b'/') "platform" ≡ false)
split_last_joins_example =
    split_last_joins "cache.example/team/platform" "cache.example/team" "platform" halves

abbrev hash : String
hash = "sha256:0123456789abcdef0123456789abcdef0123456789abcdef0123456789abcdef"

abbrev origin : Url
origin = record {
  scheme = "https";
  has_user = false;
  host = "ghcr.io";
  path = "/o/r";
  raw_query = "";
  fragment = "";
}

-- A registry that asks for a token at its own origin, and then answers with a digest.
abbrev registry : HttpEnv
registry = record {
  new_request = λ method url. ok tt;
  send = λ n request. ok (record {
    status =
        if request.method == "HEAD"
        then (if request.authorization == "" then 401 else 200)
        else 200;
    header = λ name. if name == "Docker-Content-Digest" then hash else "Bearer challenge";
    read = λ limit. ok [];
  });
  parse_url = λ text. ok origin;
  print_url = λ u. u.scheme <> "://" <> u.host <> u.path;
  encode_query = λ query. "scope";
  path_escape = λ s. s;
  quote = λ s. s;
  print = λ n. "status";
  decode_tags = λ response. ok [];
  decode_entry = λ response. err "none";
  decode_token = λ body. ok ("token", "");
  find_attributes =
      λ text. ("realm", "https://ghcr.io/token") ∷ ("scope", "repository:o/r:pull") ∷ [];
}

abbrev image : Oci
image = record { repo = "ghcr.io/o/r"; basic_auth = ""; auth_realm = "" }

abbrev wire : Wire
wire = record { calls = 0; sent = [] }

looked_up : (digest registry image "v1" wire).0 ≡ ok hash
unfolding digest
looked_up = refl

digest_valid_example : (valid_digest hash ≡ true) × (valid_tag "v1" ≡ true)
digest_valid_example = digest_valid registry image "v1" wire hash looked_up

abbrev manifest : Url
manifest = record origin { path = "/v2/o/r/manifests/v1" }

bearer_token-IsTrusted_example :
    ((bearer_token registry image manifest "Bearer challenge" wire).1.sent ≡ [])
    ⊎ ((request : Request) × IsTokenRequest registry image manifest request
        × ((bearer_token registry image manifest "Bearer challenge" wire).1.sent ≡ request ∷ []))
bearer_token-IsTrusted_example =
    bearer_token-IsTrusted registry image manifest "Bearer challenge" wire

abbrev entry : NixTagEntry
entry = record { tag = "v1"; store_path = "/nix/store/x"; root = ""; rev = "c1"; image_tag = "" }

abbrev fields : Dict String
fields = ("store_path", "/nix/store/x") ∷ ("rev", "c1") ∷ []

released : release_fields registry "v1" entry ≡ ok fields
unfolding release_fields
released = refl

release_fields-IsRelease_example : IsRelease "v1" entry fields
release_fields-IsRelease_example = release_fields-IsRelease registry "v1" entry fields released

abbrev remote : Remote
remote = record {
  is_tag = λ name. has_prefix name "refs/tags/";
  short = λ name. elim (strip_prefix name "refs/tags/") [ none ↦ name | some tag ↦ tag ];
  load_key = λ file. ok tt;
  load_known_hosts = λ file. ok tt;
  list = λ repo method. ok [];
}

abbrev refs : List Reference
refs =
    record { name = "refs/tags/v1^{}"; hash = "commit" }
    ∷ record { name = "refs/tags/v1"; hash = "object" }
    ∷ []

lookup-tag_revs_from_refs_example :
    lookup "v1" (tag_revs_from_refs remote refs)
    ≡ or_else (last_plain remote "v1" refs) (last_peeled remote "v1" refs)
lookup-tag_revs_from_refs_example = lookup-tag_revs_from_refs remote "v1" refs

peeled_first : lookup "v1" (tag_revs_from_refs remote refs) ≡ some "commit"
unfolding tag_revs_from_refs has_prefix strip_prefix lookup
peeled_first = refl

abbrev system : System
system = record {
  temp_dir = "/tmp";
  euid = 1000;
  message = λ e. "";
  print = λ n. "";
  mkdir = λ n path. ok tt;
  lstat = λ n path. ok (record { file_type = directory; uid = 1000; mode = 448 });
  mkdir_temp = λ n root prefix. ok "/tmp/clone-2";
  open_lock = λ n path. ok 3;
  fstat = λ n descriptor. ok (record { file_type = directory; uid = 1000; mode = 448 });
  flock = λ n descriptor. ok tt;
  read_dir = λ n root. ok (".writeback.lock" ∷ "clone-1" ∷ []);
  remove_all = λ n path. ok tt;
}

abbrev trace : Trace
trace = record { calls = 0; removed = []; closed = []; unlocked = [] }

remove_interrupted_clones-Sweeps_example :
    Sweeps system "/tmp/writeback" trace (remove_interrupted_clones system "/tmp/writeback" trace).1
remove_interrupted_clones-Sweeps_example =
    remove_interrupted_clones-Sweeps system "/tmp/writeback" trace

swept :
    (remove_interrupted_clones system "/tmp/writeback" trace).1.removed
    ≡ "/tmp/writeback/clone-1" ∷ []
unfolding remove_interrupted_clones
swept = refl

-- Two pages, the first of which links to the second.
abbrev paged : HttpEnv
paged = record registry {
  send = λ n request. ok (record {
    status = 200;
    header = λ name. if eqb n 0 then "</v2/o/r/tags/list?last=v1>; rel=\"next\"" else "";
    read = λ limit. ok [];
  });
  parse_url = λ text. ok (record origin { scheme = "" });
  decode_tags = λ response. ok (if response.header "Link" == "" then "v2" ∷ [] else "v1" ∷ []);
}

first_page :
    Serves paged image "https" "ghcr.io" 0 "https://ghcr.io/v2/o/r/tags/list?n=1000"
      (("v1" ∷ []) ∷ ("v2" ∷ []) ∷ [])
unfolding next_page_url page_request
first_page = (
  is_there "https://ghcr.io/v2/o/r/tags/list?n=1000" refl,
  refl,
  (
    paged_response 0,
    refl,
    refl,
    refl,
    (
      is_there "https://ghcr.io/v2/o/r/tags/list?last=v1" refl,
      refl,
      (paged_response 1, refl, refl, refl, refl),
    ),
  ),
)
  where
    is_there : (url : String) → url == "" ≡ false → url ≢ ""
    is_there url h e = cc (h, (eq_iff url "").1 e)

    paged_response : ℕ → Response
    paged_response n = record {
      status = 200;
      header = λ name. if eqb n 0 then "</v2/o/r/tags/list?last=v1>; rel=\"next\"" else "";
      read = λ limit. ok [];
    }

pages_enough_example :
    (pages 3 paged image "https" "ghcr.io" "https://ghcr.io/v2/o/r/tags/list?n=1000" [] wire).0
    ≡ ok (some ([] ++ concat (("v1" ∷ []) ∷ ("v2" ∷ []) ∷ [])))
pages_enough_example =
    pages_enough paged image "https" "ghcr.io" "https://ghcr.io/v2/o/r/tags/list?n=1000"
      (("v1" ∷ []) ∷ ("v2" ∷ []) ∷ []) [] 3 wire (omega arith) first_page
