-- ===== src/Tests/Actions.antt =====
-- The actions of a rule, on a concrete payload.
use ops_pilot_be.Prelude.{◌≡◌, refl, none, false, List, [], ◌∷◌, ok, length}
use ops_pilot_be.Notifications.{Notification}
use ops_pilot_be.Workflows.Conditions.{Value, str, dict, end, field}
use ops_pilot_be.Workflows.Engine.{Action}
use ops_pilot_be.Workflows.Actions.{ActionState, gather_actions}
use ops_pilot_be.Workflows.Actions.Tenancy.{Spared, gather_actions-Spared}
use ops_pilot_be.Tests.Automation.{january, no_meters, plain}
use ops_pilot_be.Tests.Services.{forty, plain_texts}

-- Business 5 is notified and asks the assistant; the third action is unknown.
abbrev three_actions : List Action
three_actions =
    record { type = "send_notification"; params = dict (field "title" (str "Hi {{city}}") end) }
    ∷ record { type = "generate_ai_message"; params = dict end }
    ∷ record { type = "fly"; params = dict end }
    ∷ []

abbrev her_note : Notification
her_note = record {
  id = 40;
  title = "Hello";
  message = "Hello";
  read = false;
  business_id = 6;
  user_id = none;
}

abbrev one_note : ActionState
one_note = record {
  notifications = her_note ∷ [];
  assistant = record { metering = no_meters; logs = [] };
}

abbrev city : Value
city = dict (field "city" (str "Lagos") end)

gather_actions-Spared_example :
    let (results, s') =
      gather_actions plain
        (λ v. ok none)
        forty
        plain_texts
        january
        (λ e. "failed")
        (λ n. n)
        5
        city
        three_actions
        one_note in
    (length results ≡ 3) × Spared 6 one_note s'
gather_actions-Spared_example =
    gather_actions-Spared 5 6 refl plain (λ v. ok none) forty plain_texts january (λ e. "failed")
      (λ n. n) city three_actions one_note
