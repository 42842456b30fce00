-- ===== src/WebSocket/Presence.antt =====
-- On runs of the manager of app/websocket/manager.py.
use ops_pilot_be.Prelude.{
  ℕ, ◌≡◌, ◌≢◌, refl, Bool, true, false, ◌&&◌, ◌||◌, Option, none, List, [], ◌∷◌, ◌++◌, String, any,
  not, arith, All, ap, ◌==◌, nat_eq, if◌then◌else◌, Bool-cases, Option-cases, inl, inr, sym, ◌∙◌,
  is_some, any-append, All-append,
}
use ops_pilot_be.Prelude.Dict.{Dict, lookup, insert, erase, lookup-insert, lookup-erase}
use ops_pilot_be.WebSocket.{
  ActiveConnection, PresenceDetails, WebSocketManager, connections_of, presence_of, is_same, remove,
  connect, disconnect, or_empty, update_presence, online,
}
use ops_pilot_be.WebSocket.Delivery.{IsFiled}

-- The calls that change the manager; a broadcast is a run of `disconnect`s.
pub data Call : Type 0 where
  connects disconnects : ActiveConnection → Call
  updates : ℕ → ℕ → String → Option String → Call

unfoldable pub step : Call → WebSocketManager → WebSocketManager
step (connects c) m = connect c m
step (disconnects c) m = disconnect c m
step (updates b u status view) m = update_presence b u status view m

unfoldable pub run : List Call → WebSocketManager → WebSocketManager
unfolding step
run [] m = m
run (c ∷ cs) m = run cs (step c m)

abbrev pub empty : WebSocketManager
empty = record { connections = []; presence = []; gauges = [] }

abbrev pub of_user : ℕ → ActiveConnection → Bool
of_user u c = c.user_id == u

-- Whoever is shown as present has a connection.
abbrev pub PresentAreConnected : WebSocketManager → Type 0
PresentAreConnected m =
    (b u : ℕ)
    → is_some (lookup u (presence_of b m)) ≡ true
    → any (λ (c : ActiveConnection). c.user_id == u) (connections_of b m) ≡ true

any-remove :
    (p : ActiveConnection → Bool) (c : ActiveConnection) (cs : List ActiveConnection)
    → p c ≡ false
    → any p (remove c cs) ≡ any p cs
unfolding remove
any-remove p c [] h = refl
any-remove p c (d ∷ ds) h = elim (Bool-cases (is_same c d)) [
  | inl same ↦ let e : c ≡ d = ground arith in rw (same, ← e, h) refl
  | inr other ↦ rw other (ap (λ (x : Bool). p d || x) (any-remove p c ds h))
]

All-remove :
    (P : ActiveConnection → Type 0) (c : ActiveConnection) (cs : List ActiveConnection)
    → All P cs
    → All P (remove c cs)
unfolding remove
All-remove P c [] h = tt
All-remove P c (d ∷ ds) (q, h) = elim (Bool-cases (is_same c d)) [
  | inl same ↦ rw same h
  | inr other ↦ rw other (q, All-remove P c ds h)
]

connections-connect :
    (c : ActiveConnection) (m : WebSocketManager) (b : ℕ)
    → connections_of b (connect c m)
      ≡ (if c.business_id == b then connections_of b m ++ c ∷ [] else connections_of b m)
unfolding connect
connections-connect c m b =
    ground (
      arith,
      lookup-insert c.business_id b (connections_of c.business_id m ++ c ∷ []) m.connections,
    )

connections-disconnect :
    (c : ActiveConnection) (m : WebSocketManager) (b : ℕ)
    → connections_of b (disconnect c m)
      ≡ (if c.business_id == b then remove c (connections_of b m) else connections_of b m)
unfolding disconnect
connections-disconnect c m b =
    ground (
      arith,
      lookup-insert c.business_id b (remove c (connections_of c.business_id m)) m.connections,
    )

presence-insert :
    (b' b : ℕ) (p : Dict ℕ PresenceDetails) (d : Dict ℕ (Dict ℕ PresenceDetails))
    → or_empty (lookup b (insert b' p d)) ≡ (if b' == b then p else or_empty (lookup b d))
presence-insert b' b p d = ground (arith, lookup-insert b' b p d)

present-connect :
    (c : ActiveConnection) (m : WebSocketManager) (b u : ℕ)
    → is_some (lookup u (presence_of b (connect c m)))
      ≡ ((c.business_id == b && c.user_id == u) || is_some (lookup u (presence_of b m)))
unfolding connect
present-connect c m b u =
    let p = insert c.user_id (online c.user_id) (presence_of c.business_id m) in
    ground (
      arith,
      presence-insert c.business_id b p m.presence,
      lookup-insert c.user_id u (online c.user_id) (presence_of c.business_id m),
    )

present-disconnect :
    (c : ActiveConnection) (m : WebSocketManager) (b u : ℕ)
    → is_some (lookup u (presence_of b (disconnect c m)))
      ≡ (not (c.business_id == b && c.user_id == u) && is_some (lookup u (presence_of b m)))
unfolding disconnect
present-disconnect c m b u =
    let p = erase c.user_id (presence_of c.business_id m) in
    ground (
      arith,
      presence-insert c.business_id b p m.presence,
      lookup-erase c.user_id u (presence_of c.business_id m),
    )

present-update :
    (b' u' : ℕ) (status : String) (view : Option String) (m : WebSocketManager) (b u : ℕ)
    → is_some (lookup u (presence_of b (update_presence b' u' status view m)))
      ≡ is_some (lookup u (presence_of b m))
unfolding update_presence
present-update b' u' status view m b u = elim (Option-cases (lookup u' (presence_of b' m))) [
  | inl absent ↦ ground (arith, absent)
  | inr (old, found) ↦
      let new : PresenceDetails = record old { status = status; current_view = view } in
      let p = insert u' new (presence_of b' m) in
      ground
        (arith, found, presence-insert b' b p m.presence, lookup-insert u' u new (presence_of b' m))
]

-- Presence and connections agree, and connections are filed.
abbrev pub IsSound : WebSocketManager → Type 0
IsSound m = IsFiled m × PresentAreConnected m

connect-IsSound : (c : ActiveConnection) (m : WebSocketManager) → IsSound m → IsSound (connect c m)
connect-IsSound c m (filed, present) = (
  λ b. rw (connections-connect c m b) (elim (Bool-cases (c.business_id == b)) [
    | inl same ↦
        let e : c.business_id ≡ b = ground arith in
        rw same
          (All-append (λ d. d.business_id ≡ b) (connections_of b m) (c ∷ []) (filed b) (e, tt))
    | inr other ↦ rw other (filed b)
  ]),
  λ b u h. rw (connections-connect c m b) (elim (Bool-cases (c.business_id == b)) [
    | inl same ↦
        rw (same, any-append (of_user u) (connections_of b m) (c ∷ []))
          (ground (arith, present-connect c m b u, present b u))
    | inr other ↦ rw other (ground (arith, present-connect c m b u, present b u))
  ]),
)

disconnect-IsSound :
    (c : ActiveConnection) (m : WebSocketManager) → IsSound m → IsSound (disconnect c m)
disconnect-IsSound c m (filed, present) = (
  λ b. rw (connections-disconnect c m b) (elim (Bool-cases (c.business_id == b)) [
    | inl same ↦ rw same (All-remove (λ d. d.business_id ≡ b) c (connections_of b m) (filed b))
    | inr other ↦ rw other (filed b)
  ]),
  λ b u h. rw (connections-disconnect c m b) (elim (Bool-cases (c.business_id == b)) [
    | inl same ↦ rw same (
        ground (
          arith,
          present-disconnect c m b u,
          present b u,
          any-remove (of_user u) c (connections_of b m),
        ))
    | inr other ↦ rw other (ground (arith, present-disconnect c m b u, present b u))
  ]),
)

connections-update :
    (b' u' : ℕ) (status : String) (view : Option String) (m : WebSocketManager) (b : ℕ)
    → connections_of b (update_presence b' u' status view m) ≡ connections_of b m
unfolding update_presence
connections-update b' u' status view m b = ground arith

step-IsSound : (call : Call) (m : WebSocketManager) → IsSound m → IsSound (step call m)
unfolding step
step-IsSound (connects c) m h = connect-IsSound c m h
step-IsSound (disconnects c) m h = disconnect-IsSound c m h
step-IsSound (updates b' u' status view) m (filed, present) = (
  λ b. rw (connections-update b' u' status view m b) (filed b),
  λ b u h.
      rw (connections-update b' u' status view m b)
        (present b u (sym (present-update b' u' status view m b u) ∙ h)),
)

run-IsSound : (calls : List Call) (m : WebSocketManager) → IsSound m → IsSound (run calls m)
unfolding run
run-IsSound [] m h = h
run-IsSound (call ∷ calls) m h = run-IsSound calls (step call m) (step-IsSound call m h)

empty-IsSound : IsSound empty
unfolding lookup
empty-IsSound = (λ b. tt, λ b u h. cc)

from_empty-IsSound : (calls : List Call) → IsSound (run calls empty)
from_empty-IsSound calls = run-IsSound calls empty empty-IsSound

-- After any sequence of connects, disconnects and presence updates on a new manager, whoever is
-- present in a business has a connection registered there.
pub present-connected :
    (calls : List Call) (b u : ℕ)
    → is_some (lookup u (presence_of b (run calls empty))) ≡ true
    → any (of_user u) (connections_of b (run calls empty)) ≡ true
present-connected calls b u h = (from_empty-IsSound calls).1 b u h

-- After any sequence of connects, disconnects and presence updates on a new manager, every
-- connection registered under a business belongs to that business.
pub run_from_empty-filed :
    (calls : List Call) (b : ℕ)
    → All (λ (c : ActiveConnection). c.business_id ≡ b) (connections_of b (run calls empty))
run_from_empty-filed calls b = (from_empty-IsSound calls).0 b

-- If two different connections of one user and business are at hand and the first is registered,
-- closing the second takes the user's presence away although the first stays registered.
pub second_tab_loses_presence :
    (c d : ActiveConnection) (m : WebSocketManager)
    → c.user_id ≡ d.user_id
    → c.business_id ≡ d.business_id
    → c.identity ≢ d.identity
    → any (is_same c) (connections_of c.business_id m) ≡ true
    → let m' = disconnect d m in
      (lookup c.user_id (presence_of c.business_id m') ≡ none)
      × (any (is_same c) (connections_of c.business_id m') ≡ true)
second_tab_loses_presence c d m user business other there = (
  ground (arith, present-disconnect d m c.business_id c.user_id),
  rw (connections-disconnect d m c.business_id)
      (ground (arith, any-remove (is_same c) d (connections_of c.business_id m))),
)
