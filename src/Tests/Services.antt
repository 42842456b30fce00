-- ===== src/Tests/Services.antt =====
-- Automation rules and their cache, the gateways, the assistant and the broadcaster, on concrete
-- inputs.
use ops_pilot_be.Prelude.{
  ℕ, ◌≡◌, refl, Bool, true, false, none, some, List, [], ◌∷◌, ◌++◌, String, arith, string_eq,
  nat_eq, ◌==◌, if◌then◌else◌, any,
}
use ops_pilot_be.Repository.{has_id}
use ops_pilot_be.Workflows.Conditions.{Fields, str, dict, end, field, get}
use ops_pilot_be.Workflows.Rules.{
  workflow_model, RuleStore, WorkflowUpdate, get_active_by_trigger, get_active_workflows_cached,
}
use ops_pilot_be.Workflows.Rules.Requests.{
  Request, create_rule, update_rule, read_rules, perform_all, cached_rules-current,
}
use ops_pilot_be.Workflows.Rules.Stale.{interleaved, interleaved_read-stale}
use ops_pilot_be.Integrations.Json.{PaymentSuccess}
use ops_pilot_be.Integrations.Paystack.{Gateway, charge, charge_event, paystack_webhook}
use ops_pilot_be.Integrations.Authentic.{webhook-authentic, vouches_for, reports_payment}
use ops_pilot_be.Store.{PaymentProvider}
use ops_pilot_be.Ai.{Texts, Gemini, AiState}
use ops_pilot_be.Ai.Usage.{
  Request as AiRequest, chat, summary, stream, AnswersWithin, Metered, run_calls, run_calls-Metered,
}
use ops_pilot_be.WebSocket.{WebSocketManager}
use ops_pilot_be.WebSocket.Broadcaster.{
  Published, Signal, subscribed, received, timeout, failure, start, broadcast,
  redis_subscriber_loop,
}
use ops_pilot_be.WebSocket.Recovery.{Bounded, redis_subscriber_loop-recovers}
use ops_pilot_be.Metering.{tier_limit, get_business_tier}
use ops_pilot_be.Tests.Automation.{
  plain, on_lagos, january, january-IsTime, no_meters, no_meters-IsValid,
}

abbrev move_to_updates : WorkflowUpdate
move_to_updates = record {
  name = none;
  description = none;
  trigger_type = some "order.updated";
  conditions = none;
  actions = none;
  log_depth = none;
  is_active = none;
}

-- A rule is created, read, moved to another trigger and read again.
abbrev requests : List Request
requests =
    create_rule on_lagos
    ∷ read_rules true true 0 5 "order.created"
    ∷ update_rule 11 5 move_to_updates
    ∷ read_rules true true 1 5 "order.updated"
    ∷ []

cached_rules-current_example :
    (get_active_workflows_cached true true 2 5 "order.created"
      (perform_all requests (record { rules = []; cache = [] }))).0
    ≡ get_active_by_trigger 5 "order.created"
        (perform_all requests (record { rules = []; cache = [] })).rules
cached_rules-current_example =
    cached_rules-current requests [] true true 2 5 "order.created" (λ i. omega arith)

abbrev one_rule : RuleStore
one_rule = record { rules = on_lagos ∷ []; cache = [] }

interleaved_read-stale_example :
    ((get_active_workflows_cached true true 9 5 "order.created"
        (interleaved 5 move_to_updates on_lagos one_rule 0 9)).0
      ≡ get_active_by_trigger 5 "order.created" one_rule.rules)
    × (any (has_id 11) (
          get_active_by_trigger 5 "order.created"
            (interleaved 5 move_to_updates on_lagos one_rule 0 9).rules)
        ≡ false)
interleaved_read-stale_example =
    interleaved_read-stale 5 move_to_updates on_lagos "order.updated" one_rule 0 9 refl
      (λ e. let h = (string_eq.equal_iff "order.updated" "order.created").1 e in cc) (omega arith)

-- A gateway that signs a text with itself and knows one delivery.
abbrev delivery : Fields
delivery = field "event" (str "charge.success") (
    field "data"
      (dict (
        field "reference" (str "tx-1")
          (field "customer" (dict end) (field "metadata" (dict end) end))))
      end)

abbrev mirror : Gateway ℕ
mirror = record {
  hmac_sha512 = λ key text. text;
  compare_digest = λ a b. some (a == b);
  parse_json = λ text. if text == "paid" then some (dict delivery) else none;
  over_100 = λ v. some 0;
  to_str = λ v. "";
}

abbrev paid : PaymentSuccess ℕ
paid = record {
  business_id = get "business_id" end;
  order_id = get "order_id" end;
  amount = 0;
  reference = str "tx-1";
  email = get "email" end;
}

webhook-authentic_example :
    ((s : String) × (some "paid" ≡ some s)
      × (vouches_for plain mirror PaymentProvider.paystack none "paid" s ≡ some true))
    × ((fields : Fields) × (mirror.parse_json "paid" ≡ some (dict fields))
        × (reports_payment plain PaymentProvider.paystack fields ≡ true))
    × (◌≡◌ {A = List (PaymentSuccess ℕ)} [] [])
    × (◌≡◌ {A = ℕ} 200 200)
unfolding paystack_webhook charge charge_event get
webhook-authentic_example =
    webhook-authentic plain mirror PaymentProvider.paystack none (some "paid") "paid" 200 "OK" paid
      [] refl

-- A model that always answers with forty tokens.
abbrev pub forty : Gemini
forty = record {
  is_keyed = true;
  generate = λ prompt instruction model. some ("Fine.", 40);
  generate_stream = λ prompt instruction. record { chunks = "Fine." ∷ []; is_broken = false };
  words = λ text. 1;
  frame = λ text. text;
  memory_fails = λ text. false;
}

abbrev pub plain_texts : Texts
plain_texts = record { system_instruction = "Be brief."; prompt = "Report."; mock = "Hello." }

abbrev calls : List (AiRequest ℕ)
calls =
    record { business_id = 5; now = january; call = chat plain_texts "Hi" }
    ∷ record { business_id = 5; now = january; call = summary plain_texts }
    ∷ record { business_id = 5; now = january; call = stream "Be brief." "Hi" }
    ∷ []

abbrev quiet : AiState
quiet = record { metering = no_meters; logs = [] }

forty-AnswersWithin : AnswersWithin forty 40
forty-AnswersWithin = record {
  generated = λ prompt instruction model reply tokens e. let same : 40 ≡ tokens = cc in omega arith;
  streamed = λ b now prompt instruction. omega arith;
}

run_calls-Metered_example :
    Metered forty 40 forty-AnswersWithin 5 10000 (run_calls forty calls quiet).metering
unfolding tier_limit get_business_tier
run_calls-Metered_example =
    run_calls-Metered forty 40 forty-AnswersWithin 5 10000 calls quiet
      (january-IsTime, (january-IsTime, (january-IsTime, tt)))
      (record { is_valid = no_meters-IsValid; tier = refl; within = tt })

abbrev no_sockets : WebSocketManager
no_sockets = record { connections = []; presence = []; gauges = [] }

abbrev greeting : Published String
greeting = record {
  business_id = some 5;
  event_type = "order.created";
  payload = "Hi";
  user_id = none;
}

abbrev everyone : ℕ → Bool
everyone i = true

abbrev errors : List (Signal String)
errors = failure ∷ timeout ∷ failure ∷ []

redis_subscriber_loop-recovers_example :
    Bounded (redis_subscriber_loop everyone errors (start no_sockets))
    × ((redis_subscriber_loop everyone
          (errors ++ subscribed ∷ received greeting ∷ [])
          (start no_sockets)).sent
        ≡ (redis_subscriber_loop everyone errors (start no_sockets)).sent
          ++ (broadcast everyone 5 none "order.created" greeting.payload
              (redis_subscriber_loop everyone errors (start no_sockets)).manager).0)
    × ((redis_subscriber_loop everyone
          (errors ++ subscribed ∷ received greeting ∷ [])
          (start no_sockets)).manager
        ≡ (broadcast everyone 5 none "order.created" greeting.payload
            (redis_subscriber_loop everyone errors (start no_sockets)).manager).1)
redis_subscriber_loop-recovers_example =
    redis_subscriber_loop-recovers everyone errors no_sockets greeting 5 (refl, (refl, (refl, tt)))
      refl refl
