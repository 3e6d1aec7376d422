-- ===== src/Demo/Auth/Routes.antt =====
-- Where requests to the API of demo-app/cmd/auth/main.go go.
use Prim.Native.String.{◌++◌ as ◌+s+◌}
use platforma.Base.{All, ◌≡◌, refl, String, List, [], some}
use platforma.Base.Text.{codes}
use platforma.Log.Logger.{Context}
use platforma.HttpServer.Server.{HttpServer, group_serve}
use platforma.Session.{SessionDb}
use platforma.Auth.Service.{AuthEnv}
use platforma.Auth.Http.{Request, register_handler, login_handler, logout_handler}
use platforma.Auth.Domain.{Route, new_domain}
use platforma.Demo.Serving.{routing, root, started, at, traced}
use platforma.Demo.Replies.{Serve, mux, of_handler, auth_middleware, recover_middleware}
use platforma.Demo.Auth.{auth_domain, protected, new_api, profile}

module _ {W : Type 0} (env : AuthEnv W) (db : SessionDb W) where
  -- The group of the page for users alone, as Mount gives it a request for /api/profile.
  abbrev pub page_group : Serve W
  page_group =
      group_serve mux (protected env db) (record { path = codes "/profile"; raw_path = [] })

  pub page_group_route :
      (ctx : Context) (headers : List (String × String)) (r : Request W) (w : W)
      → page_group ctx headers r w
        ≡ auth_middleware env (auth_domain env db).service profile root ctx headers r w
  unfolding routing
  page_group_route ctx headers r w = refl

module _ {W : Type 0} (env : AuthEnv W) (db : SessionDb W) (new_id : Context → String) where
  abbrev pub api : HttpServer (Serve W)
  api = started (new_api env db new_id)

  -- No Mount panics.
  pub new_api-some : new_api env db new_id ≡ some api
  unfolding routing new_api
  new_api-some = refl

  module _ (ctx : Context) (headers : List (String × String)) (r : Request W) (w : W) where
    pub register_route :
        r.method ≡ "POST"
        → at api "/auth/register" ctx headers r w
          ≡ traced new_id
              (of_handler (register_handler env (auth_domain env db).service) root)
              ctx
              headers
              r
              w
    unfolding routing new_api
    register_route post = rw post refl

    pub login_route :
        r.method ≡ "POST"
        → at api "/auth/login" ctx headers r w
          ≡ traced new_id
              (of_handler (login_handler env (auth_domain env db).service) root)
              ctx
              headers
              r
              w
    unfolding routing new_api
    login_route post = rw post refl

    pub logout_route :
        r.method ≡ "POST"
        → at api "/auth/logout" ctx headers r w
          ≡ traced new_id
              (of_handler (logout_handler env (auth_domain env db).service) root)
              ctx
              headers
              r
              w
    unfolding routing new_api
    logout_route post = rw post refl

    pub profile_route :
        at api "/api/profile" ctx headers r w
        ≡ traced new_id
            (recover_middleware (auth_middleware env (auth_domain env db).service profile) root)
            ctx
            headers
            r
            w
    unfolding routing new_api
    profile_route = refl

    abbrev pub IsServed : Route W → Type 0
    IsServed route =
        let asked : Request W = record r { method = route.method } in
        at api ("/auth" +s+ route.path) ctx headers asked w
        ≡ traced new_id (of_handler route.handler root) ctx headers asked w

    -- Each route of the API is served below /auth: a request with its method and path is answered by
    -- its handler, with the trace ID in the context and in the headers. And no Mount panics.
    pub new_api-IsServed :
        (new_api env db new_id ≡ some api) × All IsServed (auth_domain env db).handle_group
    unfolding routing new_api new_domain
    new_api-IsServed = (new_api-some, (refl, (refl, (refl, (refl, (refl, (refl, tt)))))))
