-- ===== src/Integrations/Authentic.antt =====
-- On the webhooks of app/integrations/payments.
use ops_pilot_be.Prelude.{
  ℕ, ◌≡◌, refl, Bool, true, false, Option, none, some, List, [], ◌∷◌, String, Result, ok, err, ◌==◌,
  string_eq, Bool-cases, inl, inr, Option-cases, result-cases,
}
use ops_pilot_be.Workflows.Conditions.{
  Value, Fields, Python, dict, null, bool, num, str, array, get, end,
}
use ops_pilot_be.Store.{PaymentProvider}
use ops_pilot_be.Integrations.Json.{
  PyError, get_or, as_dict, is_text, PaymentSuccess, Reply, answered, acknowledged, single,
  setting_or,
}
use ops_pilot_be.Integrations.Paystack.{
  Gateway, charge, charge_event, read_charge, if_same, paystack_secret, paystack_webhook,
}
use ops_pilot_be.Integrations.Flutterwave.{
  completed, completed_event, details_in, or_empty_dict, read_completed, flutterwave_secret,
  flutterwave_webhook,
}

as_dict-ok : (v : Value) (fields : Fields) → as_dict v ≡ ok fields → v ≡ dict fields
as_dict-ok (dict f) fields e = cc
as_dict-ok null fields e = cc
as_dict-ok (bool b) fields e = cc
as_dict-ok (num n) fields e = cc
as_dict-ok (str s) fields e = cc
as_dict-ok (array i) fields e = cc

-- A header that is read as a text that is not empty was sent.
setting-given : (o : Option String) → (setting_or "" o == "") ≡ false → o ≡ some (setting_or "" o)
setting-given none h = cc
setting-given (some v) h = elim (Bool-cases (v == "")) [
  | inl h' ↦ cc (rw h' at h)
  | inr h' ↦ rw h' refl
]

module _ {F : Type 0} where
  -- An answer with an event is the acknowledgement of a payload that was read.
  acknowledged-events :
      (r : Result PyError (List (PaymentSuccess F))) (status : ℕ) (content : String)
      (events : List (PaymentSuccess F))
      → acknowledged r ≡ answered status content events
      → (r ≡ ok events) × (status ≡ 200)
  acknowledged-events (err e) status content events h = cc
  acknowledged-events (ok es) status content events h = (cc, cc)

  if_same-events :
      (g : Gateway F) (same : Option Bool) (refusal content : String) (accepted : Reply F)
      (status : ℕ) (e : PaymentSuccess F) (es : List (PaymentSuccess F))
      → if_same g same refusal accepted ≡ answered status content (e ∷ es)
      → (same ≡ some true) × (accepted ≡ answered status content (e ∷ es))
  if_same-events g none refusal content accepted status e es h = cc
  if_same-events g (some false) refusal content accepted status e es h = cc
  if_same-events g (some true) refusal content accepted status e es h = (refl, h)

  single-events :
      (r : Result PyError (PaymentSuccess F)) (e : PaymentSuccess F) (es : List (PaymentSuccess F))
      → single r ≡ ok (e ∷ es)
      → es ≡ []
  single-events (err x) e es h = cc
  single-events (ok e') e es h = cc

  charge-events :
      (g : Gateway F) (payload : Value) (e : PaymentSuccess F) (es : List (PaymentSuccess F))
      → charge g payload ≡ ok (e ∷ es)
      → (fields : Fields) × (payload ≡ dict fields)
        × (is_text "charge.success" (get "event" fields) ≡ true)
        × (es ≡ [])
  unfolding charge
  charge-events g payload e es h = elim (result-cases (as_dict payload)) [
    | inl (x, k) ↦ cc (rw k at h)
    | inr (fields, k) ↦ elim (Bool-cases (is_text "charge.success" (get "event" fields))) [
      | inr other ↦ cc (rw (k, other) at h)
      | inl paid ↦ (
        fields,
        as_dict-ok payload fields k,
        paid,
        single-events (charge_event g fields) e es (rw (k, paid) at h),
      )
    ]
  ]

  paystack_webhook-authentic :
      (g : Gateway F) (secret signature : Option String) (body : String) (status : ℕ)
      (content : String) (e : PaymentSuccess F) (es : List (PaymentSuccess F))
      → paystack_webhook g secret signature body ≡ answered status content (e ∷ es)
      → ((s : String) × (signature ≡ some s)
          × (g.compare_digest (g.hmac_sha512 (paystack_secret g secret) body) s ≡ some true))
        × ((fields : Fields) × (g.parse_json body ≡ some (dict fields))
            × (is_text "charge.success" (get "event" fields) ≡ true))
        × (es ≡ [])
        × (status ≡ 200)
  unfolding paystack_webhook
  paystack_webhook-authentic g secret signature body status content e es h =
      elim (Bool-cases (setting_or "" signature == "")) [
        | inl missing ↦ cc (rw missing at h)
        | inr sent ↦
            let (same, accepted) =
              if_same-events g
                (g.compare_digest (g.hmac_sha512 (paystack_secret g secret) body)
                  (setting_or "" signature))
                "Invalid signature" content (read_charge g (g.parse_json body)) status e es
                (rw sent at h) in
            elim (Option-cases (g.parse_json body)) [
              | inl invalid ↦ cc (rw invalid at accepted)
              | inr (payload, parsed) ↦
                  let (read, good) =
                    acknowledged-events (charge g payload) status content (e ∷ es)
                      (rw parsed at accepted) in
                  let (fields, is_fields, paid, one) = charge-events g payload e es read in
                  (
                    (setting_or "" signature, setting-given signature sent, same),
                    (fields, rw (parsed, is_fields) refl, paid),
                    one,
                    good,
                  )
            ]
      ]

module _ (py : Python) where
  completed-events :
      (g : Gateway py.Float) (payload : Value) (e : PaymentSuccess py.Float)
      (es : List (PaymentSuccess py.Float))
      → completed py g payload ≡ ok (e ∷ es)
      → (fields : Fields) × (payload ≡ dict fields)
        × (is_text "successful" (get "status" fields) ≡ true)
        × (es ≡ [])
  unfolding completed
  completed-events g payload e es h = elim (result-cases (as_dict payload)) [
    | inl (x, k) ↦ cc (rw k at h)
    | inr (fields, k) ↦ elim (result-cases (as_dict (details_in fields))) [
      | inl (x, k') ↦ cc (rw (k, k') at h)
      | inr (data_, k') ↦
          elim (result-cases (as_dict (or_empty_dict py g (get_or "meta" (dict end) data_)))) [
            | inl (x, k'') ↦ cc (rw (k, k', k'') at h)
            | inr (meta, k'') ↦ elim (Bool-cases (is_text "successful" (get "status" fields))) [
              | inr other ↦ cc (rw (k, k', k'', other) at h)
              | inl paid ↦ (
                fields,
                as_dict-ok payload fields k,
                paid,
                single-events (completed_event py g data_ meta) e es (rw (k, k', k'', paid) at h),
              )
            ]
          ]
    ]
  ]

  flutterwave_webhook-authentic :
      (g : Gateway py.Float) (secret verif_hash : Option String) (body : String) (status : ℕ)
      (content : String) (e : PaymentSuccess py.Float) (es : List (PaymentSuccess py.Float))
      → flutterwave_webhook py g secret verif_hash body ≡ answered status content (e ∷ es)
      → ((s : String) × (verif_hash ≡ some s)
          × (g.compare_digest (flutterwave_secret py g secret) s ≡ some true))
        × ((fields : Fields) × (g.parse_json body ≡ some (dict fields))
            × (is_text "successful" (get "status" fields) ≡ true))
        × (es ≡ [])
        × (status ≡ 200)
  unfolding flutterwave_webhook
  flutterwave_webhook-authentic g secret verif_hash body status content e es h =
      elim (Bool-cases (setting_or "" verif_hash == "")) [
        | inl missing ↦ cc (rw missing at h)
        | inr sent ↦
            let (same, accepted) =
              if_same-events g
                (g.compare_digest (flutterwave_secret py g secret) (setting_or "" verif_hash))
                "Invalid verif-hash" content (read_completed py g (g.parse_json body)) status e es
                (rw sent at h) in
            elim (Option-cases (g.parse_json body)) [
              | inl invalid ↦ cc (rw invalid at accepted)
              | inr (payload, parsed) ↦
                  let (read, good) =
                    acknowledged-events (completed py g payload) status content (e ∷ es)
                      (rw parsed at accepted) in
                  let (fields, is_fields, paid, one) = completed-events g payload e es read in
                  (
                    (setting_or "" verif_hash, setting-given verif_hash sent, same),
                    (fields, rw (parsed, is_fields) refl, paid),
                    one,
                    good,
                  )
            ]
      ]

  -- The webhook of a provider, its test of the header, and its test of the payload.
  abbrev pub webhook :
      Gateway py.Float → PaymentProvider → Option String → Option String → String → Reply py.Float
  webhook g PaymentProvider.paystack secret header body = paystack_webhook g secret header body
  webhook g PaymentProvider.flutterwave secret header body =
      flutterwave_webhook py g secret header body

  abbrev pub vouches_for :
      Gateway py.Float → PaymentProvider → Option String → String → String → Option Bool
  vouches_for g PaymentProvider.paystack secret body header =
      g.compare_digest (g.hmac_sha512 (paystack_secret g secret) body) header
  vouches_for g PaymentProvider.flutterwave secret body header =
      g.compare_digest (flutterwave_secret py g secret) header

  abbrev pub reports_payment : PaymentProvider → Fields → Bool
  reports_payment PaymentProvider.paystack fields = is_text "charge.success" (get "event" fields)
  reports_payment PaymentProvider.flutterwave fields = is_text "successful" (get "status" fields)

  -- If the webhook of Paystack or Flutterwave answers with an event emitted, then the header was
  -- sent and compares as equal, to the HMAC of the body under the secret for Paystack and to the
  -- secret hash for Flutterwave, the body is a JSON object that reports a charge.success event or
  -- the status successful, exactly one event is emitted and the status is 200.
  pub webhook-authentic :
      (g : Gateway py.Float) (provider : PaymentProvider) (secret header : Option String)
      (body : String) (status : ℕ) (content : String) (e : PaymentSuccess py.Float)
      (es : List (PaymentSuccess py.Float))
      → webhook g provider secret header body ≡ answered status content (e ∷ es)
      → ((s : String) × (header ≡ some s) × (vouches_for g provider secret body s ≡ some true))
        × ((fields : Fields) × (g.parse_json body ≡ some (dict fields))
            × (reports_payment provider fields ≡ true))
        × (es ≡ [])
        × (status ≡ 200)
  webhook-authentic g PaymentProvider.paystack secret header body status content e es h =
      paystack_webhook-authentic g secret header body status content e es h
  webhook-authentic g PaymentProvider.flutterwave secret header body status content e es h =
      flutterwave_webhook-authentic g secret header body status content e es h
