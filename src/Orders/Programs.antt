-- ===== src/Orders/Programs.antt =====
-- What api/main.py and auth/main.py do as they are imported, and what their requests do to the
-- registry of breakers, within the lifespan of shared/autosre_shared/app.py.
use auto_sre.Prelude.{◌≡◌, refl, ap, false, true, Option, none, some, List, [], ◌∷◌, ◌++◌, ℕ, All}
use auto_sre.Prelude.Text.{String}
use auto_sre.Breaker.{Config}
use auto_sre.Breaker.Registry.{
  get_or_create, all_breakers, find-get_or_create_self, get_or_create_found,
}
use auto_sre.Service.Lifespan.{Hook, left, lifespan, enter, leave, run_hook}
use auto_sre.Service.Startup.{or_default}
use auto_sre.Orders.Client.{Client, http_client, aclose, rstrip_slash}
use auto_sre.Orders.Create.{auth_breaker}
use auto_sre.Orders.Validate.{identity_breaker}

abbrev Breakers : Type 0
Breakers = List (String × Config)

-- The requests by what they do to the registry: those whose handler, or whose readiness check, asks
-- for the service's own breaker, and GET /breaker/status, with what it lists.
pub data Request : Type 0 where
  guarded : Request
  status : Request

-- `own` is `_auth_breaker` or `_identity_breaker`, by the breaker's name and its arguments.
module _ (name : String) (own : Config) where
  unfoldable pub own_breaker : Breakers → Breakers × Config
  own_breaker registry = get_or_create name own registry

  -- The new registry, and the breakers that are listed, where they are.
  unfoldable pub answer : Request → Breakers → Breakers × List (List Config)
  answer guarded registry = ((own_breaker registry).0, [])
  answer status registry = (registry, all_breakers registry ∷ [])

  unfoldable pub serve_all : List Request → Breakers → Breakers × List (List Config)
  serve_all [] registry = (registry, [])
  serve_all (r ∷ requests) registry =
      let (registry', listed) = answer r registry in
      let (last, more) = serve_all requests registry' in (last, listed ++ more)

  -- The call of `own_breaker` at the end of the import.
  unfoldable pub imported : Breakers
  imported = (own_breaker []).0

  own_breaker_again : own_breaker imported ≡ (imported, own)
  unfolding own_breaker imported get_or_create
  own_breaker_again =
      get_or_create_found name own own imported (find-get_or_create_self name own [])

  serve_all-imported :
      (requests : List Request)
      → let (registry, listings) = serve_all requests imported in
        (registry ≡ (name, own) ∷ []) × All (λ listed. listed ≡ own ∷ []) listings
  unfolding serve_all answer imported own_breaker get_or_create all_breakers
  serve_all-imported [] = (refl, tt)
  serve_all-imported (guarded ∷ requests) =
      rw (ap (λ p. p.0) own_breaker_again) (serve_all-imported requests)
  serve_all-imported (status ∷ requests) =
      ((serve_all-imported requests).0, (refl, (serve_all-imported requests).1))

-- The API service: its client of the Auth service, and the breakers of its process.
pub record Api : Type 0 where
  pub client : Client
  pub registry : Breakers

-- `AUTH_URL`
abbrev auth_url : Option String → String
auth_url none = "http://auth:8001"
auth_url (some url) = url

-- The import of api/main.py, with `os.getenv`.
pub import_api : (String → Option String) → ℕ → Api
import_api getenv second = record {
  client = http_client (auth_url (getenv "AUTH_URL"));
  registry = imported "auth" (auth_breaker second);
}

-- `_shutdown`
unfoldable pub shutdown : Hook Api
shutdown api = (record api { client = aclose api.client }, false)

-- What the requests between start and end do to it.
abbrev pub serving : ℕ → List Request → Api → Api
serving second requests api = record api {
  registry = (serve_all "auth" (auth_breaker second) requests api.registry).0;
}

auth_url_lem : (o : Option String) → auth_url o ≡ or_default "http://auth:8001" o
auth_url_lem none = refl
auth_url_lem (some url) = refl

-- After a lifespan of the API service, which comes to its end whatever requests there were, the client
-- of the Auth service is closed; it was made for the URL in AUTH_URL, or http://auth:8001 if that is
-- not set, without slashes at its end. Through the requests the process has one breaker, the one that
-- was made at the import, which each GET /breaker/status lists.
pub api_lifespan :
    (getenv : String → Option String) (second : ℕ) (requests : List Request)
    → let own = auth_breaker second in
      let api = import_api getenv second in
      let r = lifespan none (some shutdown) (serving second requests) api in
      (r.phase ≡ left)
      × (r.service_up ≡ 0)
      × (r.app.client.closed ≡ true)
      × (r.app.client.base_url ≡ rstrip_slash (or_default "http://auth:8001" (getenv "AUTH_URL")))
      × (r.app.registry ≡ ("auth", own) ∷ [])
      × All (λ listed. listed ≡ own ∷ []) (serve_all "auth" own requests api.registry).1
unfolding lifespan enter leave run_hook shutdown import_api aclose http_client
api_lifespan getenv second requests =
    let (registry, listings) = serve_all-imported "auth" (auth_breaker second) requests in
    (refl, refl, refl, ap rstrip_slash (auth_url_lem (getenv "AUTH_URL")), registry, listings)

-- The Auth service has one breaker too, through any requests.
auth_listings :
    (second : ℕ) (requests : List Request)
    → let own = identity_breaker second in
      let (registry, listings) =
        serve_all "identity-provider" own requests (imported "identity-provider" own) in
      (registry ≡ ("identity-provider", own) ∷ []) × All (λ listed. listed ≡ own ∷ []) listings
auth_listings second requests =
    serve_all-imported "identity-provider" (identity_breaker second) requests
