-- ===== src/Application.antt =====
-- app/main.py and app/middleware (request_id.py, logging.py): the middleware that a request passes
-- and the order in which it is added. CORS is Starlette's and enters as a layer around the routes, as
-- does what an `add_middleware` does to the layers that are there. Durations are not modelled, nor
-- exceptions that leave a layer, nor the layer that Prometheus adds.
pub mod Refusals
pub mod Tracing
use ops_pilot_be.Prelude.{
  ◌+◌, false, ℕ, Bool, Option, none, some, List, [], ◌∷◌, ◌++◌, String, string_eq, contains,
  if◌then◌else◌,
}
use ops_pilot_be.Prelude.Dict.{Dict, insert}
use ops_pilot_be.Auth.Models.{Time}
use ops_pilot_be.Auth.Tokens.{Security}
use ops_pilot_be.Maintenance.{
  Stored, unavailable, Passage, passed, blocked, bypasses, dispatch_maintenance,
}
use ops_pilot_be.RateLimit.Dispatch.{
  Request, Config, Moment, Limiter, Verdict, served, too_many_requests, dispatch, bucket_key,
}

pub data Middleware : Type 0 where
  cors request_id request_logging maintenance rate_limit : Middleware

-- The calls of `add_middleware`, from the first on.
abbrev pub added : List Middleware
added = cors ∷ request_id ∷ request_logging ∷ maintenance ∷ rate_limit ∷ []

pub record HttpRequest : Type 0 where
  pub source : Request
  pub method : String
  pub x_request_id : Option String
  pub authorization : Option String

pub record HttpResponse : Type 0 where
  pub status_code : ℕ
  pub headers : Dict String String

-- A line of the log, with the request id that the context variable has; lines for debugging are left
-- out.
pub data Line : Type 0 where
  started : Option String → String → String → Line
  finished : Option String → String → String → ℕ → Line
  -- the warnings of the limiter, with bucket and path, and of the maintenance mode, with the path
  rate_limit_hit : Option String → String → String → Line
  request_blocked : Option String → String → Line
  -- the error of the maintenance mode where Redis does not answer
  flag_unread : Option String → Line
  -- a line of the routes
  other : Option String → String → Line

-- `rejections` is `background_jobs_total` of the job `rate_limit` and the status `rejected`, and `rest`
-- the state of the routes.
pub record World (A : Type 0) : Type 0 where
  pub limiter : Limiter
  pub request_id_ctx : Option String
  pub lines : List Line
  pub rejections : ℕ
  pub rest : A

abbrev pub Handler : Type 0 → Type 0
Handler A = HttpRequest → World A → HttpResponse × World A

-- What a request meets: the limiter's settings and moment, the token library and the word after the
-- first blank, the time, the maintenance flag, a fresh UUID, and the text of a number.
pub record Meets : Type 0 where
  pub config : Config
  pub moment : Moment
  pub security : Security
  pub second_word : String → String
  pub now : Time
  pub flag : Stored
  pub new_id : String
  pub str : ℕ → String

-- `headers.get("X-Request-ID", str(uuid4()))`
abbrev pub id_of_request : Meets → HttpRequest → String
id_of_request e r = elim r.x_request_id [ some id ↦ id | none ↦ e.new_id ]

abbrev pub is_noise : String → Bool
is_noise path = contains path ("/health" ∷ "/healthz" ∷ "/" ∷ "/metrics" ∷ [])

-- A failure of Redis is logged, and the request passes.
abbrev pub unread_lines : Bool → Stored → Option String → List Line
unread_lines false unavailable ctx = flag_unread ctx ∷ []
unread_lines _ _ ctx = []

module _ {A : Type 0} (e : Meets) where
  -- The header goes on the response, and the context variable is reset.
  abbrev pub reset : Option String → String → HttpResponse × World A → HttpResponse × World A
  reset before id (response, w) = (
    record response { headers = insert "X-Request-ID" id response.headers },
    record w { request_id_ctx = before },
  )

  unfoldable pub dispatch_request_id : Handler A → Handler A
  dispatch_request_id call_next r w =
      reset w.request_id_ctx (id_of_request e r)
        (call_next r (record w { request_id_ctx = some (id_of_request e r) }))

  abbrev pub log_finished : HttpRequest → HttpResponse × World A → HttpResponse × World A
  log_finished r (response, w) = (
    response,
    record w {
      lines = w.lines ++ finished w.request_id_ctx r.method r.source.path response.status_code ∷ [];
    },
  )

  unfoldable pub dispatch_logging : Handler A → Handler A
  dispatch_logging call_next r w =
      if is_noise r.source.path
      then call_next r w
      else log_finished r (
          call_next r
            (record w { lines = w.lines ++ started w.request_id_ctx r.method r.source.path ∷ [] }))

  abbrev pub add_line : Line → World A → World A
  add_line line w = record w { lines = w.lines ++ line ∷ [] }

  abbrev pub after_read : Bool → Stored → World A → World A
  after_read is_bypassed flag w = record w {
    lines = w.lines ++ unread_lines is_bypassed flag w.request_id_ctx;
  }

  abbrev pub answer_blocked : Handler A → HttpRequest → World A → Passage → HttpResponse × World A
  answer_blocked call_next r w passed = call_next r w
  answer_blocked call_next r w blocked = (
    record { status_code = 503; headers = [] },
    add_line (request_blocked w.request_id_ctx r.source.path) w,
  )

  unfoldable pub maintain : Handler A → Handler A
  maintain call_next r w =
      answer_blocked call_next r (after_read (bypasses r.source.path) e.flag w)
        (dispatch_maintenance e.second_word e.security e.now r.source.path r.authorization e.flag)

  abbrev pub answer_limited :
      Handler A → HttpRequest → World A → Verdict × Limiter → HttpResponse × World A
  answer_limited call_next r w (served, l) = call_next r (record w { limiter = l })
  answer_limited call_next r w (too_many_requests seconds, l) = (
    record { status_code = 429; headers = ("Retry-After", e.str seconds) ∷ [] },
    record w {
      limiter = l;
      lines = w.lines ++ rate_limit_hit w.request_id_ctx (bucket_key r.source) r.source.path ∷ [];
      rejections = w.rejections + 1;
    },
  )

  unfoldable pub limit : Handler A → Handler A
  limit call_next r w = answer_limited call_next r w (dispatch e.config e.moment r.source w.limiter)

  unfoldable pub layer : (Handler A → Handler A) → Middleware → Handler A → Handler A
  layer cors_layer cors = cors_layer
  layer cors_layer request_id = dispatch_request_id
  layer cors_layer request_logging = dispatch_logging
  layer cors_layer maintenance = maintain
  layer cors_layer rate_limit = limit

  -- The layers from the outermost on, around the routes.
  unfoldable pub serve : (Handler A → Handler A) → List Middleware → Handler A → Handler A
  serve cors_layer [] routes = routes
  serve cors_layer (m ∷ ms) routes = layer cors_layer m (serve cors_layer ms routes)
