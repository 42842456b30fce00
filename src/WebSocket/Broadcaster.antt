-- ===== src/WebSocket/Broadcaster.antt =====
-- app/websocket/broadcaster.py and the bridge of app/websocket/events.py: events that go through a
-- Redis channel to the sockets of every process. Times are in milliseconds.
use ops_pilot_be.Prelude.{
  ℕ, ◌*◌, min, Bool, true, false, Option, none, some, List, [], ◌∷◌, ◌++◌, String, ◌==◌, string_eq,
  if◌then◌else◌,
}
use ops_pilot_be.WebSocket.{WebSocketManager, Sent, broadcast_to_business, broadcast_to_user}

-- What is published: an id that is empty or absent is `none`.
pub record Published (P : Type 0) : Type 0 where
  pub business_id : Option ℕ
  pub event_type : String
  pub payload : P
  pub user_id : Option ℕ

-- The message on the channel, or none where Redis refuses it, which is only logged.
unfoldable pub publish_event :
    {P : Type 0} → Bool → ℕ → String → P → Option ℕ → Option (Published P)
publish_event false b event_type payload user_id = none
publish_event true b event_type payload user_id =
    some (record {
      business_id = some b;
      event_type = event_type;
      payload = payload;
      user_id = user_id;
    })

-- `business_of` reads the key business_id of the payload.
abbrev pub publish_for : {P : Type 0} → Bool → String → P → Option ℕ → Option (Published P)
publish_for up event_type payload none = none
publish_for up event_type payload (some b) = publish_event up b event_type payload none

-- `business_of` reads the key business_id of the payload.
unfoldable pub forward_event_to_websockets :
    {P : Type 0} → Bool → (P → Option ℕ) → String → P → Option (Published P)
unfolding publish_event
forward_event_to_websockets up business_of event_type payload =
    publish_for up event_type payload (business_of payload)

pub data Mode : Type 0 where
  connecting listening stopped : Mode

-- The loop of one process: its mode, the delay before the next attempt after an error, the pauses
-- that it made, oldest first, the manager of the process and what was sent to the sockets.
pub record Loop (P : Type 0) : Type 0 where
  pub mode : Mode
  pub retry_delay : ℕ
  pub pauses : List ℕ
  pub manager : WebSocketManager
  pub sent : List (Sent P)

-- What the loop meets: the subscription succeeds, a message that is no publication or no JSON, a
-- publication, an exception whose text has "timeout", another exception, and the cancellation.
pub data Signal (P : Type 0) : Type 0 where
  subscribed : Signal P
  unreadable : Signal P
  received : Published P → Signal P
  timeout : Signal P
  failure : Signal P
  cancelled : Signal P

abbrev pub initial_delay : ℕ
initial_delay = 1000

abbrev pub max_retry_delay : ℕ
max_retry_delay = 60000

abbrev pub timeout_pause : ℕ
timeout_pause = 100

unfoldable pub start : {P : Type 0} → WebSocketManager → Loop P
start m = record {
  mode = connecting;
  retry_delay = initial_delay;
  pauses = [];
  manager = m;
  sent = [];
}

module _ {P : Type 0} (alive : ℕ → Bool) where
  -- The broadcast that a publication asks for.
  abbrev pub broadcast :
      ℕ → Option ℕ → String → P → WebSocketManager → List (Sent P) × WebSocketManager
  broadcast b none event_type payload m = broadcast_to_business alive b event_type payload m
  broadcast b (some u) event_type payload m = broadcast_to_user alive b u event_type payload m

  abbrev pub after_broadcast : Loop P → List (Sent P) × WebSocketManager → Loop P
  after_broadcast l (sent, m) = record l { sent = l.sent ++ sent; manager = m }

  abbrev pub route_to : Option ℕ → Published P → Loop P → Loop P
  route_to none p l = l
  route_to (some b) p l =
      if p.event_type == ""
      then l
      else after_broadcast l (broadcast b p.user_id p.event_type p.payload l.manager)

  -- The body of `async for message in pubsub.listen()`.
  unfoldable pub route : Published P → Loop P → Loop P
  route p l = route_to p.business_id p l

  -- `except Exception`: a pause, and a longer delay unless it was a timeout.
  abbrev pub pause_timeout : Loop P → Loop P
  pause_timeout l = record l { mode = connecting; pauses = l.pauses ++ timeout_pause ∷ [] }

  abbrev pub pause_failure : Loop P → Loop P
  pause_failure l = record l {
    mode = connecting;
    pauses = l.pauses ++ l.retry_delay ∷ [];
    retry_delay = min (l.retry_delay * 2) max_retry_delay;
  }

  -- What is published while the loop does not listen is lost to this process.
  abbrev pub react_connecting : Signal P → Loop P → Loop P
  react_connecting subscribed l = record l { mode = listening; retry_delay = initial_delay }
  react_connecting unreadable l = l
  react_connecting (received p) l = l
  react_connecting timeout l = pause_timeout l
  react_connecting failure l = pause_failure l
  react_connecting cancelled l = record l { mode = stopped }

  abbrev pub react_listening : Signal P → Loop P → Loop P
  react_listening subscribed l = l
  react_listening unreadable l = l
  react_listening (received p) l = route p l
  react_listening timeout l = pause_timeout l
  react_listening failure l = pause_failure l
  react_listening cancelled l = record l { mode = stopped }

  abbrev pub react_in : Mode → Signal P → Loop P → Loop P
  react_in connecting signal l = react_connecting signal l
  react_in listening signal l = react_listening signal l
  react_in stopped signal l = l

  unfoldable pub redis_subscriber_loop : List (Signal P) → Loop P → Loop P
  unfolding route
  redis_subscriber_loop [] l = l
  redis_subscriber_loop (signal ∷ signals) l =
      redis_subscriber_loop signals (react_in l.mode signal l)
