-- ===== src/Tests/Modules.antt =====
-- Slugs, maintenance mode, notifications, feature flags and incoming messages, on concrete inputs.
use Prim.Native.Char.{code}
use ops_pilot_be.Prelude.{
  ◌≡◌, refl, true, false, ◌&&◌, ◌||◌, none, some, [], ◌∷◌, ok, string_eq, ltb, nat_beq,
}
use ops_pilot_be.Auth.Slug.{
  CharClasses, generate_slug, keep_matching, squeeze, strip_left, strip_right,
}
use ops_pilot_be.Maintenance.{as_text, as_bytes, passed, blocked, dispatch_maintenance}
use ops_pilot_be.Notifications.{Notification, mark_all_read, get_notifications_scoped}
use ops_pilot_be.Repository.{get_many, get_one_by, scalar_one_or_none}
use ops_pilot_be.FeatureFlags.{
  FlagTables, get_flag, get_business_override, is_feature_enabled_for_business,
}
use ops_pilot_be.Workflows.Conditions.{Value, array, cons, nil, dict, field, end, str, get}
use ops_pilot_be.Integrations.Whatsapp.{extract_whatsapp_message}
use ops_pilot_be.Tests.Access.{two_tokens}

-- The classes `\w` and `\s` on ASCII.
abbrev ascii : CharClasses
ascii = record {
  is_word = λ c.
      (ltb 96 (code c) && ltb (code c) 123)
      || (ltb 47 (code c) && ltb (code c) 58)
      || nat_beq (code c) 95;
  is_space = λ c. nat_beq (code c) 32;
}

slug_joins_words :
    generate_slug ascii (λ s. s) "1a2b3c" " ade's  shop_no 2- " ≡ "ades-shop-no-2-1a2b3c"
unfolding generate_slug keep_matching squeeze strip_left strip_right
slug_joins_words = refl

-- The client of the program decodes what Redis answers, so the flag is a text.
text_flag_passes :
    dispatch_maintenance (λ h. "access") two_tokens 0 "/api/v1/orders" none (as_text "true")
    ≡ passed
unfolding dispatch_maintenance
text_flag_passes = refl

bytes_flag_blocks :
    dispatch_maintenance (λ h. "access") two_tokens 0 "/api/v1/orders" none (as_bytes "true")
    ≡ blocked
unfolding dispatch_maintenance
bytes_flag_blocks = refl

abbrev for_all : Notification
for_all = record {
  id = 1;
  title = "New Order Created";
  message = "";
  read = false;
  business_id = 5;
  user_id = none;
}

-- The user is shown the workspace-wide row, which stays unread.
mark_all_read_leaves_shared :
    (get_notifications_scoped
      (λ t. t)
      5
      (some 4)
      0
      20
      (mark_all_read 5 (some 4) (for_all ∷ [])).1).0
    ≡ for_all ∷ []
unfolding mark_all_read get_notifications_scoped get_many
mark_all_read_leaves_shared = refl

abbrev unknown_tier : FlagTables
unknown_tier = record {
  flags = record { id = "reports"; is_global_active = false; minimum_tier = some "platinum" } ∷ [];
  overrides = [];
}

unknown_tier_enables : is_feature_enabled_for_business 5 "reports" "free" unknown_tier ≡ ok true
unfolding is_feature_enabled_for_business get_flag get_business_override get_one_by
    scalar_one_or_none
unknown_tier_enables = refl

abbrev message : Value
message =
    dict (field "from" (str "+234") (field "text" (dict (field "body" (str "Buy rice") end)) end))

abbrev delivery : Value
delivery = dict (
    field "entry"
      (array (
        cons
          (dict (
            field "changes"
              (array (
                cons
                  (dict
                    (field "value" (dict (field "messages" (array (cons message nil)) end)) end))
                  nil))
              end))
          nil))
      end)

reads_message : extract_whatsapp_message delivery ≡ (str "+234", str "Buy rice")
unfolding extract_whatsapp_message get
reads_message = refl
