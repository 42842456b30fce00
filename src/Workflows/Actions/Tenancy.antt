-- ===== src/Workflows/Actions/Tenancy.antt =====
-- On the actions of a rule (app/modules/workflows/engine.py and actions.py) and the rows of other
-- businesses.
use Prim.Native.String
use ops_pilot_be.Integrations.Json.{get_or}
use ops_pilot_be.Prelude.{
  ℕ, ◌≡◌, refl, ◌∙◌, Bool, false, Option, none, some, List, [], ◌∷◌, ◌++◌, String, Result, ok,
  raise_if, bind-ok, result-cases, inl, inr, length, filter, filter-append, append-nil, ◌==◌,
  nat_eq, string_eq, arith, Bool-cases, ltb,
}
use ops_pilot_be.Exceptions.{Error}
use ops_pilot_be.Repository.{Uuid}
use ops_pilot_be.Repository.Rows.{create-ok}
use ops_pilot_be.Metering.{UsageMeter, increment_usage, check_usage_limit}
use ops_pilot_be.Metering.Cycle.{DateTime, get_current_cycle}
use ops_pilot_be.Metering.Usage.{filter-upsert_other}
use ops_pilot_be.Notifications.{Notification, create_notification}
use ops_pilot_be.Workflows.Conditions.{
  Value, Fields, Python, null, bool, num, str, array, dict, get,
}
use ops_pilot_be.Workflows.Engine.{Action}
use ops_pilot_be.Workflows.Templates.{resolve_templates}
use ops_pilot_be.Ai.{AiLog, Gemini, Texts, answer, chat_with_assistant, call_gemini, user_message}
use ops_pilot_be.Workflows.Actions.{
  ActionState, ActionResult, as_text, user_of, execute_send_notification,
  execute_generate_ai_message, logged, run_action, run_resolved, as_result, gather_actions,
}

-- The rows of a business: notifications, calls of the assistant, meters.
pub record Spared (c : Uuid) (s s' : ActionState) : Type 0 where
  pub notified :
      filter (λ (n : Notification). n.business_id == c) s'.notifications
      ≡ filter (λ (n : Notification). n.business_id == c) s.notifications
  pub asked :
      filter (λ (l : AiLog). l.business_id == c) s'.assistant.logs
      ≡ filter (λ (l : AiLog). l.business_id == c) s.assistant.logs
  pub metered :
      filter (λ (m : UsageMeter). m.business_id == c) s'.assistant.metering.meters
      ≡ filter (λ (m : UsageMeter). m.business_id == c) s.assistant.metering.meters
  pub subscribed : s'.assistant.metering.subscriptions ≡ s.assistant.metering.subscriptions

same-Spared : (c : Uuid) (s : ActionState) → Spared c s s
same-Spared c s = record { notified = refl; asked = refl; metered = refl; subscribed = refl }

then-Spared : (c : Uuid) (s t u : ActionState) → Spared c s t → Spared c t u → Spared c s u
then-Spared c s t u h k = record {
  notified = k.notified ∙ h.notified;
  asked = k.asked ∙ h.asked;
  metered = k.metered ∙ h.metered;
  subscribed = k.subscribed ∙ h.subscribed;
}

-- A row that the test refuses is not seen at the end.
filter-snoc :
    {A : Type 0} (p : A → Bool) (t : List A) (r : A)
    → p r ≡ false
    → filter p (t ++ r ∷ []) ≡ filter p t
filter-snoc p t r h = rw (filter-append p t (r ∷ []), h, append-nil (filter p t)) refl

module _ (b c : Uuid) (other : (b == c) ≡ false) where
  answer-Spared :
      (now : DateTime) (event : String) (texts : Texts) (reply : Option (String × ℕ))
      (s : ActionState)
      → Spared c s (record s { assistant = (answer event b now texts reply s.assistant).1 })
  unfolding increment_usage
  answer-Spared now event texts none s = record {
    notified = refl;
    asked = filter-snoc _ s.assistant.logs _ other;
    metered = refl;
    subscribed = refl;
  }
  answer-Spared now event texts (some (reply, tokens)) s = record {
    notified = refl;
    asked = filter-snoc _ s.assistant.logs _ other;
    metered =
        let (start, end) = get_current_cycle now in
        filter-upsert_other b "ai_tokens" tokens start end (λ m. m.business_id == c)
          s.assistant.metering.meters (λ m h. ground arith);
    subscribed = refl;
  }

  module _ (py : Python) (parse_uuid : Value → Result Error (Option Uuid)) (g : Gemini)
      (texts : Texts) (now : DateTime) where
    logged-Spared :
        (key : String) (value : Value) (s s' : ActionState) (x : ActionResult)
        → logged py parse_uuid g texts now key value s ≡ ok (x, s')
        → Spared c s s'
    logged-Spared key value s s' x e = let same : s ≡ s' = cc in rw (← same) (same-Spared c s)

    notification-Spared :
        (i : Uuid) (params : Fields) (s s' : ActionState) (x : ActionResult)
        → execute_send_notification py parse_uuid g texts now i b params s ≡ ok (x, s')
        → Spared c s s'
    unfolding execute_send_notification create_notification
    notification-Spared i params s s' x e =
        let (user, _, e1) =
          bind-ok (user_of py parse_uuid g texts now (get "user_id" params)) _ (x, s') e in
        let (title, _, e2) =
          bind-ok (as_text (get_or "title" (str "OpsPilot Automation") params)) _ (x, s') e1 in
        let (_, _, e3) = bind-ok (raise_if (ltb 200 (String.count title)) _) _ (x, s') e2 in
        let (message, _, e4) =
          bind-ok
            (as_text (get_or "message" (str "A custom workflow action was triggered.") params)) _
            (x, s') e3 in
        let ((n, t), made, e5) =
          bind-ok
            (create_notification i b (record { title = title; message = message; user_id = user })
              s.notifications)
            _ (x, s') e4 in
        let (_, _, added) = create-ok _ _ n s.notifications t made in
        let after : record s { notifications = t } ≡ s' = cc in
        rw (← after) (record {
          notified = rw added (filter-snoc _ s.notifications _ other);
          asked = refl;
          metered = refl;
          subscribed = refl;
        })

    message-Spared :
        (params : Fields) (s s' : ActionState) (x : ActionResult)
        → execute_generate_ai_message py parse_uuid g texts now b params s ≡ ok (x, s')
        → Spared c s s'
    unfolding execute_generate_ai_message chat_with_assistant
    message-Spared params s s' x e =
        let ((reply, a), said, e1) =
          bind-ok (chat_with_assistant g b now texts _ s.assistant) _ (x, s') e in
        let (_, _, e2) =
          bind-ok (check_usage_limit b "ai_tokens" 100 now s.assistant.metering) _ (reply, a)
            said in
        let asked = record texts {
          prompt =
              user_message g b now
                (py.to_str (get_or "prompt" (str "Draft a professional response.") params));
        } in
        let spared =
          answer-Spared now "chat" asked
            (call_gemini g asked.prompt texts.system_instruction "gemini-1.5-flash") s in
        let given : (answer "chat" b now asked
              (call_gemini g asked.prompt texts.system_instruction "gemini-1.5-flash")
              s.assistant).1
            ≡ a =
          cc in
        let after : record s { assistant = a } ≡ s' = cc in rw (← after) (rw given at spared)

    action-Spared :
        (i : Uuid) (action_type : String) (params : Fields) (s s' : ActionState) (x : ActionResult)
        → run_action py parse_uuid g texts now i action_type b params s ≡ ok (x, s')
        → Spared c s s'
    unfolding run_action
    action-Spared i action_type params s s' x e =
        elim (Bool-cases (action_type == "send_notification")) [
          | inl h ↦ notification-Spared i params s s' x (rw h at e)
          | inr h1 ↦ elim (Bool-cases (action_type == "generate_ai_message")) [
            | inl h ↦ message-Spared params s s' x (rw (h1, h) at e)
            | inr h2 ↦ elim (Bool-cases (action_type == "send_whatsapp")) [
              | inl h ↦
                  logged-Spared "recipient" (get_or "phone" (str "") params) s s' x
                    (rw (h1, h2, h) at e)
              | inr h3 ↦ elim (Bool-cases (action_type == "send_email")) [
                | inl h ↦
                    logged-Spared "recipient" (get_or "email" (str "") params) s s' x
                      (rw (h1, h2, h3, h) at e)
                | inr h4 ↦ elim (Bool-cases (action_type == "create_task")) [
                  | inl h ↦
                      logged-Spared "task_title" (get_or "title" (str "New Workflow Task") params) s
                        s' x (rw (h1, h2, h3, h4, h) at e)
                  | inr h5 ↦ cc (rw (h1, h2, h3, h4, h5) at e)
                ]
              ]
            ]
          ]
        ]

    resolved-Spared :
        (str_of : Error → String) (i : Uuid) (action_type : String) (params : Value)
        (s : ActionState)
        → Spared c s
            (as_result py parse_uuid g texts now str_of s
              (run_resolved py parse_uuid g texts now i action_type b params s)).1
    resolved-Spared str_of i action_type null s = same-Spared c s
    resolved-Spared str_of i action_type (bool _) s = same-Spared c s
    resolved-Spared str_of i action_type (num _) s = same-Spared c s
    resolved-Spared str_of i action_type (str _) s = same-Spared c s
    resolved-Spared str_of i action_type (array _) s = same-Spared c s
    resolved-Spared str_of i action_type (dict fields) s =
        elim (result-cases (run_action py parse_uuid g texts now i action_type b fields s)) [
          | inl (x, h) ↦ rw h (same-Spared c s)
          | inr ((x, s'), h) ↦ rw h (action-Spared i action_type fields s s' x h)
        ]

    -- The actions of a business's rule, run one after the other on any payload and failed or not,
    -- give one result each and leave every other business's notifications, assistant logs and usage
    -- meters, and all subscriptions, as they were.
    pub gather_actions-Spared :
        (str_of : Error → String) (new_id : ℕ → Uuid) (payload : Value) (actions : List Action)
        (s : ActionState)
        → let (results, s') =
            gather_actions py parse_uuid g texts now str_of new_id b payload actions s in
          (length results ≡ length actions) × Spared c s s'
    unfolding gather_actions
    gather_actions-Spared str_of new_id payload [] s = (refl, same-Spared c s)
    gather_actions-Spared str_of new_id payload (a ∷ actions) s =
        let first =
          resolved-Spared str_of (new_id (length actions)) a.type
            (resolve_templates py a.params payload) s in
        let (counted, rest) = gather_actions-Spared str_of new_id payload actions _ in
        (omega (arith, counted), then-Spared c s _ _ first rest)
