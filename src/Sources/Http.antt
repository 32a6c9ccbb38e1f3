-- ===== src/Sources/Http.antt =====
-- What internal/source uses of net/http, net/url and encoding/json.
use argocd_tag_updater.Base.{ℕ, ◌+◌, String, Bool, List, ◌∷◌, Result, ok, M}
use argocd_tag_updater.Base.Dict.{Dict}

pub record Request : Type 0 where
  pub method : String
  pub url : String
  pub accept : String
  pub authorization : String

-- `read` is `io.ReadAll` of an `io.LimitReader` over the body.
pub record Response : Type 0 where
  pub status : ℕ
  pub header : String → String
  pub read : ℕ → Result String (List ℕ)

pub record Url : Type 0 where
  pub scheme : String
  pub has_user : Bool
  pub host : String
  pub path : String
  pub raw_query : String
  pub fragment : String

-- The body that the cache stores for each tag.
pub record NixTagEntry : Type 0 where
  pub tag : String
  pub store_path : String
  pub root : String
  pub rev : String
  pub image_tag : String

-- The libraries. A response may depend on the number of requests made before. `encode_query` is
-- `Values.Encode`, `find_attributes` the matches of `challengeAttribute`.
pub record HttpEnv : Type 0 where
  pub new_request : String → String → Result String (Unit {0})
  pub send : ℕ → Request → Result String Response
  pub parse_url : String → Result String Url
  pub print_url : Url → String
  pub encode_query : Dict String → String
  pub path_escape : String → String
  pub quote : String → String
  pub print : ℕ → String
  pub decode_tags : Response → Result String (List String)
  pub decode_entry : Response → Result String NixTagEntry
  pub decode_token : List ℕ → Result String (String × String)
  pub find_attributes : String → List (String × String)

-- The requests sent so far, the last one first.
pub record Wire : Type 0 where
  pub calls : ℕ
  pub sent : List Request

abbrev pub Fetch : Type 0 → Type 0
Fetch A = M Wire String A

-- `httpClient.Do(req)`
unfoldable pub exchange : HttpEnv → Request → Fetch (Result String Response)
exchange env request s =
    (ok (env.send s.calls request), record { calls = s.calls + 1; sent = request ∷ s.sent })
