-- ===== src/Workflows/Actions.antt =====
-- app/modules/workflows/actions.py: the registry of actions. The database that they change is the
-- table of notifications and the state of the assistant. The actions of a rule, which engine.py
-- gathers, run one after the other here.
pub mod Tenancy
use Prim.Native.String
use ops_pilot_be.Prelude.{
  ℕ, [], ◌∷◌, length, some, Option, none, List, String, Result, ok, err, ◌>>=◌, ◌>>◌, raise_if, ltb,
  ◌==◌, string_eq, if◌then◌else◌,
}
use ops_pilot_be.Exceptions.{Error, value_error}
use ops_pilot_be.Repository.{Uuid}
use ops_pilot_be.Metering.Cycle.{DateTime}
use ops_pilot_be.Notifications.{Notification, create_notification}
use ops_pilot_be.Workflows.Conditions.{
  Value, Fields, Python, null, bool, num, str, array, dict, get, truth,
}
use ops_pilot_be.Workflows.Engine.{Action}
use ops_pilot_be.Workflows.Templates.{resolve_templates}
use ops_pilot_be.Integrations.Json.{get_or}
use ops_pilot_be.Ai.{AiState, Gemini, Texts, chat_with_assistant}

pub record ActionState : Type 0 where
  pub notifications : List Notification
  pub assistant : AiState

-- A field that the schema wants as a text.
abbrev pub as_text : Value → Result Error String
as_text (str s) = ok s
as_text null = err (value_error "Input should be a valid string")
as_text (bool b) = err (value_error "Input should be a valid string")
as_text (num n) = err (value_error "Input should be a valid string")
as_text (array items) = err (value_error "Input should be a valid string")
as_text (dict fields) = err (value_error "Input should be a valid string")

-- The answer of an action: the key and the value that it has next to its status.
pub record ActionResult : Type 0 where
  pub key : String
  pub value : Value

-- `parse_uuid` is `uuid.UUID` with its `ValueError` suppressed; on a value that is no text it raises
-- another exception.
module _ (py : Python) (parse_uuid : Value → Result Error (Option Uuid)) (g : Gemini)
    (texts : Texts) (now : DateTime) where
  abbrev pub user_of : Value → Result Error (Option Uuid)
  user_of v = if truth py v then parse_uuid v else ok none

  unfoldable pub execute_send_notification :
      Uuid → Uuid → Fields → ActionState → Result Error (ActionResult × ActionState)
  unfolding create_notification
  execute_send_notification i b params s = do
    user ← user_of (get "user_id" params)
    title ← as_text (get_or "title" (str "OpsPilot Automation") params)
    raise_if (ltb 200 (String.count title))
        (value_error "String should have at most 200 characters")
    message ← as_text (get_or "message" (str "A custom workflow action was triggered.") params)
    (n, t) ←
        create_notification i b (record { title = title; message = message; user_id = user })
          s.notifications
    ok (record { key = "title"; value = str n.title }, record s { notifications = t })

  -- The prompt is put after "User Message: ", as texts are.
  unfoldable pub execute_generate_ai_message :
      Uuid → Fields → ActionState → Result Error (ActionResult × ActionState)
  unfolding chat_with_assistant
  execute_generate_ai_message b params s = do
    (reply, a) ←
        chat_with_assistant g b now texts
          (py.to_str (get_or "prompt" (str "Draft a professional response.") params)) s.assistant
    ok (record { key = "generated_message"; value = str reply }, record s { assistant = a })

  -- The actions that are only logged.
  abbrev pub logged : String → Value → ActionState → Result Error (ActionResult × ActionState)
  logged key value s = ok (record { key = key; value = value }, s)

  unfoldable pub run_action :
      Uuid → String → Uuid → Fields → ActionState → Result Error (ActionResult × ActionState)
  unfolding execute_send_notification execute_generate_ai_message
  run_action i action_type b params s =
      if action_type == "send_notification"
      then execute_send_notification i b params s
      else if action_type == "generate_ai_message"
      then execute_generate_ai_message b params s
      else if action_type == "send_whatsapp"
      then logged "recipient" (get_or "phone" (str "") params) s
      else if action_type == "send_email"
      then logged "recipient" (get_or "email" (str "") params) s
      else if action_type == "create_task"
      then logged "task_title" (get_or "title" (str "New Workflow Task") params) s
      else err (value_error (String.◌++◌ "Unsupported action type: " action_type))

  -- `params` that are no dict have no `get`.
  abbrev pub run_resolved :
      Uuid → String → Uuid → Value → ActionState → Result Error (ActionResult × ActionState)
  run_resolved i action_type b (dict fields) s = run_action i action_type b fields s
  run_resolved i action_type b params s = err (value_error "object has no attribute 'get'")

  -- With `return_exceptions=True` an exception is an answer; what the action had not done is not done.
  abbrev pub as_result :
      (Error → String)
      → ActionState
      → Result Error (ActionResult × ActionState)
      → Option String × ActionState
  as_result str_of s (ok (_, s')) = (none, s')
  as_result str_of s (err e) = (some (str_of e), s)

  -- The parameters are resolved against the payload. `new_id` numbers the rows that are added.
  unfoldable pub gather_actions :
      (Error → String)
      → (ℕ → Uuid)
      → Uuid
      → Value
      → List Action
      → ActionState
      → List (Option String) × ActionState
  unfolding run_action resolve_templates
  gather_actions str_of new_id b payload [] s = ([], s)
  gather_actions str_of new_id b payload (a ∷ actions) s =
      let (r, s') = as_result str_of s (
        run_resolved (new_id (length actions)) a.type b (resolve_templates py a.params payload)
          s) in
      let (rs, t) = gather_actions str_of new_id b payload actions s' in (r ∷ rs, t)
