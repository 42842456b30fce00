-- ===== src/Logging.antt =====
-- app/core/logging.py: what a line of the log says, and the trace id. The record's own attributes are
-- texts; what `extra` adds may be any value. Handlers and levels are not modelled.
pub mod Lines
use Prim.Native.String.{◌++◌}
use text.Mathlib.Text.{starts_with}
use ops_pilot_be.Prelude.{
  ℕ, ◌||◌, Option, none, some, List, [], ◌∷◌, String, string_eq, ◌==◌, contains, if◌then◌else◌,
}
use ops_pilot_be.Prelude.Dict.{Dict, insert}

-- The context variables of a request or task.
pub record Context : Type 0 where
  pub request_id : Option String
  pub business_id : Option String
  pub user_id : Option String
  pub trace_id : Option String

pub record LogRecord (V : Type 0) : Type 0 where
  pub time : String
  pub levelname : String
  pub name : String
  pub message : String
  pub exception : Option String
  -- `__dict__` in order: what `extra` adds, and what the logging library keeps there
  pub extra : Dict String V

-- `ctx.get() or "-"`
abbrev pub or_dash : Option String → String
or_dash none = "-"
or_dash (some t) = if t == "" then "-" else t

unfoldable pub standard_attrs : List String
standard_attrs =
    "args" ∷ "asctime" ∷ "created" ∷ "exc_info" ∷ "filename" ∷ "funcName" ∷ "levelname" ∷ "levelno"
    ∷ "lineno" ∷ "module" ∷ "msecs" ∷ "message" ∷ "msg" ∷ "name" ∷ "pathname" ∷ "process"
    ∷ "processName" ∷ "relativeCreated" ∷ "stack_info" ∷ "thread" ∷ "threadName" ∷ "request_id"
    ∷ "business_id" ∷ "user_id" ∷ "trace_id" ∷ "module_name" ∷ []

module _ {V : Type 0} (text : String → V) where
  abbrev pub core : Context → LogRecord V → Dict String V
  core ctx r =
      ("timestamp", text r.time)
      ∷ ("level", text r.levelname)
      ∷ ("logger", text r.name)
      ∷ ("message", text r.message)
      ∷ ("request_id", text (or_dash ctx.request_id))
      ∷ ("business_id", text (or_dash ctx.business_id))
      ∷ ("user_id", text (or_dash ctx.user_id))
      ∷ ("trace_id", text (or_dash ctx.trace_id))
      ∷ []

  abbrev pub with_exception : Option String → Dict String V → Dict String V
  with_exception none d = d
  with_exception (some e) d = insert "exception" (text e) d

  -- The loop over the attributes of the record.
  unfoldable pub with_extra : Dict String V → Dict String V → Dict String V
  with_extra [] d = d
  with_extra ((key, val) ∷ attrs) d =
      with_extra attrs
        (if contains key standard_attrs || starts_with key "_" then d else insert key val d)

  -- `log_data` in production, before it is written as JSON.
  unfoldable pub format_production : Context → LogRecord V → Dict String V
  unfolding with_extra
  format_production ctx r = with_extra r.extra (with_exception r.exception (core ctx r))

  -- The line in development; `pad n` is the format `:<n`.
  unfoldable pub format_development : (ℕ → String → String) → Context → LogRecord V → String
  format_development pad ctx r =
      r.time
      ++ (" | "
          ++ (pad 8 r.levelname
              ++ (" | "
                  ++ (or_dash ctx.request_id
                      ++ (" | b:"
                          ++ (pad 36 (or_dash ctx.business_id)
                              ++ (" | u:"
                                  ++ (pad 36 (or_dash ctx.user_id)
                                      ++ (" | " ++ (r.name ++ (" | " ++ r.message)))))))))))

-- The id, and the context with it bound; `fresh` is a new UUID.
unfoldable pub get_trace_id : String → Context → String × Context
get_trace_id fresh ctx = elim ctx.trace_id [
  | some tid ↦ (tid, ctx)
  | none ↦ (fresh, record ctx { trace_id = some fresh })
]
