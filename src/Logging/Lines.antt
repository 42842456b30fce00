-- ===== src/Logging/Lines.antt =====
-- On the lines that app/core/logging.py writes in production.
use text.Mathlib.Text.{starts_with}
use ops_pilot_be.Prelude.{
  ◌≡◌, ◌≢◌, refl, true, false, ◌||◌, Option, none, some, [], ◌∷◌, String, string_eq, ◌==◌, contains,
  Bool-cases, inl, inr, ◌∙◌, eq_iff,
}
use ops_pilot_be.Prelude.Dict.{Dict, lookup, insert, lookup-insert_ne}
use ops_pilot_be.Logging.{
  Context, LogRecord, or_dash, standard_attrs, core, with_exception, with_extra, format_production,
}

module _ {V : Type 0} (text : String → V) where
  with_extra-keeps :
      (k : String) (attrs d : Dict String V)
      → contains k standard_attrs ≡ true
      → lookup k (with_extra text attrs d) ≡ lookup k d
  unfolding with_extra
  with_extra-keeps k [] d h = refl
  with_extra-keeps k ((key, val) ∷ attrs) d h =
      elim (Bool-cases (contains key standard_attrs || starts_with key "_")) [
        | inl skipped ↦ rw skipped (with_extra-keeps k attrs d h)
        | inr taken ↦
            let apart : key ≢ k = λ e. cc (rw (e, h) at taken) in
            rw taken
              (with_extra-keeps k attrs (insert key val d) h ∙ lookup-insert_ne key k val d apart)
      ]

  with_exception-keeps :
      (k : String) (e : Option String) (d : Dict String V)
      → "exception" ≢ k
      → lookup k (with_exception text e d) ≡ lookup k d
  with_exception-keeps k none d ne = refl
  with_exception-keeps k (some e) d ne = lookup-insert_ne "exception" k (text e) d ne

  -- The fields of the line that come from the message and the context.
  pub record Tells (ctx : Context) (r : LogRecord V) (d : Dict String V) : Type 0 where
    pub message : lookup "message" d ≡ some (text r.message)
    pub request_id : lookup "request_id" d ≡ some (text (or_dash ctx.request_id))
    pub business_id : lookup "business_id" d ≡ some (text (or_dash ctx.business_id))
    pub user_id : lookup "user_id" d ≡ some (text (or_dash ctx.user_id))
    pub trace_id : lookup "trace_id" d ≡ some (text (or_dash ctx.trace_id))

  field :
      (k : String) (ctx : Context) (r : LogRecord V)
      → contains k standard_attrs ≡ true
      → ("exception" == k) ≡ false
      → lookup k (format_production text ctx r) ≡ lookup k (core text ctx r)
  unfolding format_production
  field k ctx r h other =
      with_extra-keeps k r.extra (with_exception text r.exception (core text ctx r)) h
      ∙ with_exception-keeps k r.exception (core text ctx r) (λ e. cc ((eq_iff "exception" k).1 e))

  pub format_production-Tells :
      (ctx : Context) (r : LogRecord V) → Tells ctx r (format_production text ctx r)
  unfolding lookup standard_attrs
  format_production-Tells ctx r = record {
    message = field "message" ctx r refl refl;
    request_id = field "request_id" ctx r refl refl;
    business_id = field "business_id" ctx r refl refl;
    user_id = field "user_id" ctx r refl refl;
    trace_id = field "trace_id" ctx r refl refl;
  }
