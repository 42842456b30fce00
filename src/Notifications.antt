-- ===== src/Notifications.antt =====
-- app/modules/notifications: the service and the repository on the table of notifications, and the
-- handlers of events.py, which read the id of the business from the event or from the order.
use ops_pilot_be.Prelude.{
  ℕ, Bool, true, false, not, ◌&&◌, ◌||◌, Option, none, some, List, [], ◌∷◌, String, Result, ok,
  ◌>>=◌, or_raise, ◌==◌, nat_eq, option_eq, length, filter, if◌then◌else◌,
}
use ops_pilot_be.Exceptions.{Error, ErrorClass, init}
use ops_pilot_be.Repository.{
  Uuid, Model, get_one_by, get_by_id, get_many, count, create, update, has_id,
}
use ops_pilot_be.Store.{Order, order_model}

pub record Notification : Type 0 where
  pub id : Uuid
  pub title : String
  pub message : String
  pub read : Bool
  pub business_id : Uuid
  pub user_id : Option Uuid

pub record NotificationCreate : Type 0 where
  pub title : String
  pub message : String
  pub user_id : Option Uuid

instance abbrev pub notification_model : Model Notification
notification_model = record { id_of = λ (n : Notification). n.id }

abbrev notification_clash : Notification → Notification → Bool
notification_clash a b = b.id == a.id

-- `i` is the new id.
unfoldable pub create_notification :
    Uuid
    → Uuid
    → NotificationCreate
    → List Notification
    → Result Error (Notification × List Notification)
create_notification i b p t =
    create notification_clash
      (record {
        id = i;
        title = p.title;
        message = p.message;
        read = false;
        business_id = b;
        user_id = p.user_id;
      })
      t

unfoldable pub get_notification : Uuid → Uuid → List Notification → Result Error Notification
get_notification b i t = do
  found ← get_one_by (λ (n : Notification). has_id i n && n.business_id == b) t
  or_raise found (init ErrorClass.not_found (some "Notification not found."))

abbrev pub as_read : Notification → Notification
as_read n = record n { read = true }

unfoldable pub mark_read :
    Uuid → Uuid → List Notification → Result Error (Notification × List Notification)
unfolding get_notification
mark_read b i t = do n ← get_notification b i t; ok (as_read n, update n.id as_read t)

-- The user's own, where a user is given.
abbrev pub is_for : Option Uuid → Notification → Bool
is_for none n = true
is_for (some u) n = n.user_id == some u

abbrev pub is_unread_for : Uuid → Option Uuid → Notification → Bool
is_unread_for b user n = (n.business_id == b && not n.read) && is_for user n

abbrev pub read_where : (Notification → Bool) → List Notification → List Notification
read_where p [] = []
read_where p (n ∷ t) = let rest = read_where p t in if p n then as_read n ∷ rest else n ∷ rest

-- The number of rows that changed, and the table.
unfoldable pub mark_all_read : Uuid → Option Uuid → List Notification → ℕ × List Notification
mark_all_read b user t =
    (length (filter (is_unread_for b user) t), read_where (is_unread_for b user) t)

-- Workspace-wide, or targeted to the user that is given.
abbrev pub is_visible_to : Option Uuid → Notification → Bool
is_visible_to none n = n.user_id == none
is_visible_to (some u) n = n.user_id == some u || n.user_id == none

abbrev pub is_scoped : Uuid → Option Uuid → Notification → Bool
is_scoped b user n = n.business_id == b && is_visible_to user n

unfoldable pub get_notifications_scoped :
    (List Notification → List Notification)
    → Uuid
    → Option Uuid
    → ℕ
    → ℕ
    → List Notification
    → List Notification × ℕ
get_notifications_scoped order_by b user offset limit t =
    (get_many order_by offset limit (is_scoped b user) t, count (is_scoped b user) t)

-- What a handler leaves: nothing new where the event names no business, or no order.
abbrev pub notify :
    Uuid → String → String → Option Uuid → List Notification → Result Error (List Notification)
notify i title message none t = ok t
notify i title message (some b) t = do
  (n, t') ← create_notification i b (record { title = title; message = message; user_id = none }) t
  ok t'

unfoldable pub handle_order_created :
    Uuid → String → Option Uuid → List Notification → Result Error (List Notification)
unfolding create_notification
handle_order_created i message business_id t = notify i "New Order Created" message business_id t

unfoldable pub handle_order_status_changed :
    Uuid → String → Option Uuid → List Notification → Result Error (List Notification)
unfolding create_notification
handle_order_status_changed i message business_id t =
    notify i "Order Status Updated" message business_id t

abbrev pub business_of_order : Option Order → Option Uuid
business_of_order none = none
business_of_order (some o) = some o.business_id

unfoldable pub handle_payment_successful :
    Uuid → String → Option Uuid → List Order → List Notification → Result Error (List Notification)
unfolding create_notification
handle_payment_successful i message none orders t = ok t
handle_payment_successful i message (some order_id) orders t = do
  order ← get_by_id order_id orders
  notify i "Payment Received" message (business_of_order order) t
