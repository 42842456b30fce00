-- ===== src/Application/Tracing.antt =====
-- On the middleware stack of app/main.py, for requests that reach the routes.
use ops_pilot_be.Prelude.{◌≡◌, refl, some, List, [], ◌∷◌, ◌++◌, false, string_eq}
use ops_pilot_be.Prelude.Dict.{lookup, lookup-insert_self}
use ops_pilot_be.RateLimit.Dispatch.{Limiter, served, dispatch}
use ops_pilot_be.Maintenance.{passed, bypasses, dispatch_maintenance}
use ops_pilot_be.Application.{
  Middleware, added, HttpRequest, HttpResponse, World, Handler, Meets, after_read, started,
  finished, layer, serve, limit, maintain, dispatch_logging, dispatch_request_id, id_of_request,
  is_noise,
}
use ops_pilot_be.Application.Refusals.{Wrapping, stack-added}

module _ {A : Type 0} (e : Meets) (cors_layer : Handler A → Handler A) (routes : Handler A)
    (r : HttpRequest) (w : World A) (l : Limiter) where
  -- The world in which the routes, with CORS around them, meet a request that is logged.
  abbrev pub entered : World A
  entered =
      let before = after_read e (bypasses r.source.path) e.flag (record w { limiter = l }) in
      record before {
        request_id_ctx = some (id_of_request e r);
        lines = before.lines ++ started before.request_id_ctx r.method r.source.path ∷ [];
      }

  abbrev pub inner : HttpResponse × World A
  inner = cors_layer routes r entered

  -- What comes out of the stack, next to what came out of the routes.
  pub record Traced (answer : HttpResponse × World A) : Type 0 where
    pub status : answer.0.status_code ≡ inner.0.status_code
    pub echoed : lookup "X-Request-ID" answer.0.headers ≡ some (id_of_request e r)
    pub logged :
        answer.1.lines
        ≡ inner.1.lines ++ finished w.request_id_ctx r.method r.source.path inner.0.status_code ∷ []
    pub counted : answer.1.limiter ≡ inner.1.limiter
    pub left : answer.1.rest ≡ inner.1.rest

  -- Where the layer that is added last is the outermost, a request that the limiter and the
  -- maintenance mode let pass, on a path that is logged, comes out with the status of the routes and
  -- with its request id as X-Request-ID; after the lines of the routes one line is logged, with the
  -- status and the request id that was set before the request, not its own; and the limiter and the
  -- routes' state are as the routes left them.
  pub serve-Traced :
      (stack : List Middleware → List Middleware)
      → Wrapping stack
      → dispatch e.config e.moment r.source w.limiter ≡ (served, l)
      → dispatch_maintenance e.second_word e.security e.now r.source.path r.authorization e.flag
        ≡ passed
      → is_noise r.source.path ≡ false
      → Traced (serve e cors_layer (stack added) routes r w)
  unfolding serve layer maintain limit dispatch_logging dispatch_request_id
  serve-Traced stack wrapping admitted open_ loud =
      rw (stack-added stack wrapping, admitted, open_, loud)
        (record {
          status = refl;
          echoed = lookup-insert_self "X-Request-ID" (id_of_request e r) inner.0.headers;
          logged = refl;
          counted = refl;
          left = refl;
        })
