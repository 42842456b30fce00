-- ===== src/WebSocket/Session.antt =====
-- app/websocket/auth.py and routes.py: who may open a socket, and what one session does with the
-- frames that it receives.
use ops_pilot_be.Prelude.{
  ℕ, Bool, not, Option, none, some, List, [], ◌∷◌, ◌++◌, String, Result, ok, err, ◌==◌, string_eq,
  if◌then◌else◌,
}
use ops_pilot_be.Exceptions.{Error}
use ops_pilot_be.Auth.Models.{Uuid, Time, User}
use ops_pilot_be.Auth.Tokens.{Security}
use ops_pilot_be.Auth.Service.{Tables, get_current_user}
use ops_pilot_be.WebSocket.{
  ActiveConnection, PresenceDetails, WebSocketManager, Sent, connect, disconnect, update_presence,
  get_presence, broadcast_to_business,
}

-- The token of the argument, or else of the query; an empty one counts as none.
abbrev pub text_or : String → Option String → String
text_or other none = other
text_or other (some text) = if text == "" then other else text

-- A connection that may go on, of a user and a business, or the reason for which it is closed with
-- the code 1008. `reason` is the detail of a domain exception, or "Authentication failed.".
abbrev pub with_business : User → Option Uuid → Result String (User × Uuid)
with_business u none = err "User has no business assigned."
with_business u (some b) = ok (u, b)

abbrev pub admitted : (Error → String) → Result Error User → Result String (User × Uuid)
admitted reason (err e) = err (reason e)
admitted reason (ok u) =
    if not u.is_active then err "Inactive account." else with_business u u.business_id

unfoldable pub authenticate_websocket :
    (Error → String)
    → Security
    → Time
    → Option String
    → Option String
    → Tables
    → Result String (User × Uuid)
authenticate_websocket reason s now token query t =
    let chosen = text_or (text_or "" query) token in
    if chosen == "" then err "Missing token." else admitted reason (get_current_user s now chosen t)

-- A frame: not JSON, of the type presence with its status and view, or of another type.
pub data Frame : Type 0 where
  malformed other : Frame
  presence : Option String → Option String → Frame

abbrev pub status_or : Option String → String
status_or none = "online"
status_or (some s) = s

-- What a session sends: a broadcast of the presence of its business, or an error to itself alone.
pub data Output : Type 0 where
  presence_list : List (Sent (List PresenceDetails)) → Output
  invalid_frame : ActiveConnection → Output

module _ (alive : ℕ → Bool) (c : ActiveConnection) where
  abbrev pub broadcast_presence : WebSocketManager → Output × WebSocketManager
  broadcast_presence m =
      let (sent, m') =
        broadcast_to_business alive c.business_id "presence.update" (get_presence c.business_id m)
          m in
      (presence_list sent, m')

  unfoldable pub receive : Frame → WebSocketManager → List Output × WebSocketManager
  receive malformed m = (invalid_frame c ∷ [], m)
  receive other m = ([], m)
  receive (presence status view) m =
      let (out, m') =
        broadcast_presence (update_presence c.business_id c.user_id (status_or status) view m) in
      (out ∷ [], m')

  unfoldable pub receive_all : List Frame → WebSocketManager → List Output × WebSocketManager
  unfolding receive
  receive_all [] m = ([], m)
  receive_all (f ∷ fs) m =
      let (out, m') = receive f m in let (outs, m'') = receive_all fs m' in (out ++ outs, m'')

  -- The session of an admitted connection: the frames that arrive until it ends.
  unfoldable pub websocket_endpoint : List Frame → WebSocketManager → List Output × WebSocketManager
  unfolding receive_all
  websocket_endpoint frames m =
      let (first, m1) = broadcast_presence (connect c m) in
      let (outs, m2) = receive_all frames m1 in
      let (last, m3) = broadcast_presence (disconnect c m2) in (first ∷ (outs ++ last ∷ []), m3)
