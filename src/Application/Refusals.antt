-- ===== src/Application/Refusals.antt =====
-- On the middleware stack of app/main.py, for requests that it refuses.
use ops_pilot_be.Prelude.{
  Option, ◌≡◌, refl, Bool, true, false, not, ◌&&◌, List, [], ◌∷◌, ◌++◌, ℕ, ◌+◌, ◌*◌, length, filter,
  leb, if◌then◌else◌, String, append-nil, ap, ◌∙◌, string_eq, arith,
}
use ops_pilot_be.Prelude.Dict.{lookup}
use ops_pilot_be.RateLimit.{fresh, check_memory}
use ops_pilot_be.RateLimit.Script.{kept_entries, sliding_window}
use ops_pilot_be.RateLimit.Dispatch.{
  Limiter, Verdict, served, too_many_requests, dispatch, is_exempt, limit_of, limiter_key,
  bucket_key, stored, bucket_of, check_redis, check_script, check_bucket,
}
use ops_pilot_be.Maintenance.{
  Stored, unavailable, missing, as_text, as_bytes, passed, blocked, dispatch_maintenance, bypasses,
  is_on, is_super_admin,
}
use ops_pilot_be.Application.{
  Middleware, cors, request_id, request_logging, maintenance, rate_limit, added, HttpRequest,
  HttpResponse, World, Handler, Meets, layer, serve, limit, maintain, rate_limit_hit,
  request_blocked, after_read, unread_lines,
}

-- Of the layers, the one added last is the outermost.
pub record Wrapping (stack : List Middleware → List Middleware) : Type 0 where
  pub none_added : stack [] ≡ []
  pub one_more : (ms : List Middleware) (m : Middleware) → stack (ms ++ m ∷ []) ≡ m ∷ stack ms

pub stack-added :
    (stack : List Middleware → List Middleware)
    → Wrapping stack
    → stack added ≡ rate_limit ∷ maintenance ∷ request_logging ∷ request_id ∷ cors ∷ []
stack-added stack w =
    rw
      (
        w.one_more (cors ∷ request_id ∷ request_logging ∷ maintenance ∷ []) rate_limit,
        w.one_more (cors ∷ request_id ∷ request_logging ∷ []) maintenance,
        w.one_more (cors ∷ request_id ∷ []) request_logging,
        w.one_more (cors ∷ []) request_id,
        w.one_more [] cors,
        w.none_added,
      )
      refl

module _ (e : Meets) (r : HttpRequest) where
  -- How many requests the limiter has on record for the key of the request in the last window.
  abbrev pub recorded : Limiter → ℕ
  recorded l =
      let window = e.config.window_seconds * 1000 in
      if e.moment.redis_up
      then length
          (kept_entries window e.moment.now_ms (stored (lookup (limiter_key r.source) l.redis)))
      else length (
          filter (fresh window e.moment.now_ms)
            (bucket_of (lookup (limiter_key r.source) l.buckets)))

  -- The path is limited, and the limit of the path is reached.
  abbrev pub is_over : Limiter → Bool
  is_over l = not (is_exempt r.source.path) && leb (limit_of e.config r.source) (recorded l)

  -- The path is closed for maintenance, and the request has no token of a super administrator.
  abbrev pub is_shut : Bool
  is_shut =
      not (bypasses r.source.path)
      && (is_on e.flag && not (is_super_admin e.second_word e.security e.now r.authorization))

  dispatch-is_over :
      (l : Limiter)
      → (dispatch e.config e.moment r.source l).0
        ≡ (if is_over l then too_many_requests e.config.window_seconds else served)
  unfolding dispatch check_redis check_script check_bucket sliding_window check_memory
  dispatch-is_over l = ground arith

  dispatch_maintenance-is_shut :
      dispatch_maintenance e.second_word e.security e.now r.source.path r.authorization e.flag
      ≡ (if is_shut then blocked else passed)
  unfolding dispatch_maintenance
  dispatch_maintenance-is_shut = ground arith

-- What comes out of the stack, next to the logging with what it is around: `over` and `shut` say
-- whether the request is over its limit, and whether it meets the maintenance mode.
abbrev pub Answered :
    {A : Type 0}
    → Meets
    → HttpRequest
    → Handler A
    → World A
    → Limiter
    → Bool
    → Bool
    → HttpResponse × World A
    → Type 0
Answered e r logging w l true shut answer = answer ≡ (
  record { status_code = 429; headers = ("Retry-After", e.str e.config.window_seconds) ∷ [] },
  record w {
    limiter = l;
    lines = w.lines ++ rate_limit_hit w.request_id_ctx (bucket_key r.source) r.source.path ∷ [];
    rejections = w.rejections + 1;
  },
)
Answered e r logging w l false true answer = answer ≡ (
  record { status_code = 503; headers = [] },
  record w { limiter = l; lines = w.lines ++ request_blocked w.request_id_ctx r.source.path ∷ [] },
)
Answered e r logging w l false false answer =
    answer ≡ logging r (after_read e (bypasses r.source.path) e.flag (record w { limiter = l }))

-- A flag that closes a path was read.
unread-shut :
    (is_bypassed : Bool) (flag : Stored) (super : Bool) (ctx : Option String)
    → (not is_bypassed && (is_on flag && not super)) ≡ true
    → unread_lines is_bypassed flag ctx ≡ []
unread-shut true flag super ctx h = cc
unread-shut false unavailable super ctx h = cc
unread-shut false missing super ctx h = refl
unread-shut false (as_text t) super ctx h = refl
unread-shut false (as_bytes t) super ctx h = refl

module _ {A : Type 0} (e : Meets) (cors_layer : Handler A → Handler A) (routes : Handler A)
    (r : HttpRequest) (w : World A) where
  -- The layers from the logging on.
  abbrev pub logging : Handler A
  logging = serve e cors_layer (request_logging ∷ request_id ∷ cors ∷ []) routes

  answers :
      (over shut : Bool) (v : Verdict × Limiter)
      → dispatch e.config e.moment r.source w.limiter ≡ v
      → v.0 ≡ (if over then too_many_requests e.config.window_seconds else served)
      → is_shut e r ≡ shut
      → Answered e r logging w v.1 over shut (
          serve e cors_layer
            (rate_limit ∷ maintenance ∷ request_logging ∷ request_id ∷ cors ∷ [])
            routes
            r
            w)
  unfolding serve layer maintain limit
  answers true shut v h verdict k =
      let refused : dispatch e.config e.moment r.source w.limiter
          ≡ (too_many_requests e.config.window_seconds, v.1) =
        h ∙ ap (λ x. (x, v.1)) verdict in
      rw refused refl
  answers false true v h verdict k =
      let admitted : dispatch e.config e.moment r.source w.limiter ≡ (served, v.1) =
        h ∙ ap (λ x. (x, v.1)) verdict in
      let read =
        unread-shut (bypasses r.source.path) e.flag
          (is_super_admin e.second_word e.security e.now r.authorization) w.request_id_ctx k in
      rw (admitted, maintain)
        (rw (dispatch_maintenance-is_shut e r, k, read, append-nil w.lines) refl)
  answers false false v h verdict k =
      let admitted : dispatch e.config e.moment r.source w.limiter ≡ (served, v.1) =
        h ∙ ap (λ x. (x, v.1)) verdict in
      rw (admitted, maintain) (rw (dispatch_maintenance-is_shut e r, k) refl)

  -- Where the layer that is added last is the outermost: if the path of a request is limited and its
  -- key has at least the limit of requests on record in the last window, in the Redis set or, with
  -- Redis down, in the bucket, the request is answered with 429 and its Retry-After alone, one
  -- warning is logged and one rejection counted; or else, if maintenance closes its path and it has
  -- no super administrator's token, with 503 and no header, and one warning is logged. Neither
  -- reaches CORS, the request logging, the request id or the routes, and nothing else but the
  -- limiter's record changes. Any other request is answered as the request logging, with the layers
  -- that it is around, answers it.
  pub serve-refusals :
      (stack : List Middleware → List Middleware)
      → Wrapping stack
      → Answered e r logging w
          (dispatch e.config e.moment r.source w.limiter).1
          (is_over e r w.limiter)
          (is_shut e r)
          (serve e cors_layer (stack added) routes r w)
  serve-refusals stack wrapping =
      rw (stack-added stack wrapping)
        (answers (is_over e r w.limiter) (is_shut e r) _ refl (dispatch-is_over e r w.limiter) refl)
