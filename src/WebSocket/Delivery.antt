-- ===== src/WebSocket/Delivery.antt =====
-- On the broadcasts of app/websocket/manager.py.
use ops_pilot_be.Prelude.{
  ℕ, ◌≡◌, ◌≢◌, refl, Bool, true, false, List, [], ◌∷◌, String, filter, not, arith, All, ap, nat_eq,
  Bool-cases, inl, inr, ◌∙◌, map, All-filter,
}
use ops_pilot_be.Prelude.Dict.{lookup-insert_self, lookup-insert_ne}
use ops_pilot_be.WebSocket.{
  ActiveConnection, WebSocketManager, connections_of, is_same, remove, disconnect, disconnect_all,
  or_empty, broadcast_to_business, Sent, send_all,
}

is_same_refl : (c : ActiveConnection) → is_same c c ≡ true
is_same_refl c = ground arith

connections-disconnect :
    (b : ℕ) (d : ActiveConnection) (m : WebSocketManager)
    → d.business_id ≡ b
    → connections_of b (disconnect d m) ≡ remove d (connections_of b m)
unfolding disconnect
connections-disconnect b d m e =
    rw (← e) (ap or_empty (lookup-insert_self d.business_id _ m.connections))

connections-disconnect_ne :
    (b other : ℕ) (d : ActiveConnection) (m : WebSocketManager)
    → b ≢ other
    → d.business_id ≡ b
    → connections_of other (disconnect d m) ≡ connections_of other m
unfolding disconnect
connections-disconnect_ne b other d m ne e =
    ap or_empty (lookup-insert_ne d.business_id other _ m.connections (rw e ne))

targets-send_all :
    {A : Type 0} (e : String) (b : ℕ) (payload : A) (cs : List ActiveConnection)
    → map (λ (s : Sent A). s.target) (send_all cs e b payload) ≡ cs
targets-send_all e b payload [] = refl
targets-send_all e b payload (c ∷ cs) =
    ap (λ (l : List ActiveConnection). c ∷ l) (targets-send_all e b payload cs)

module _ (alive : ℕ → Bool) where
  abbrev is_live : ActiveConnection → Bool
  is_live c = alive c.identity

  abbrev is_lost : ActiveConnection → Bool
  is_lost c = not (alive c.identity)

  -- All connections of the list are of business `b`.
  abbrev In : ℕ → List ActiveConnection → Type 0
  In b = All (λ c. c.business_id ≡ b)

  remove_all : List ActiveConnection → List ActiveConnection → List ActiveConnection
  remove_all [] cs = cs
  remove_all (d ∷ ds) cs = remove_all ds (remove d cs)

  -- Removing lost connections passes over a live one.
  remove_all-cons_live :
      (c : ActiveConnection) (ds cs : List ActiveConnection)
      → alive c.identity ≡ true
      → All (λ d. alive d.identity ≡ false) ds
      → remove_all ds (c ∷ cs) ≡ c ∷ remove_all ds cs
  unfolding remove_all remove
  remove_all-cons_live c [] cs live h = refl
  remove_all-cons_live c (d ∷ ds) cs live (lost, h) = elim (Bool-cases (is_same d c)) [
    | inl same ↦ let e : d.identity ≡ c.identity = ground arith in cc (ap alive e)
    | inr other ↦ rw other (remove_all-cons_live c ds (remove d cs) live h)
  ]

  lost-filter :
      (cs : List ActiveConnection) → All (λ d. alive d.identity ≡ false) (filter is_lost cs)
  lost-filter [] = tt
  lost-filter (c ∷ cs) = elim (Bool-cases (alive c.identity)) [
    | inl live ↦ rw live (lost-filter cs)
    | inr lost ↦ rw lost (lost, lost-filter cs)
  ]

  remove_all-lost :
      (cs : List ActiveConnection) → remove_all (filter is_lost cs) cs ≡ filter is_live cs
  unfolding remove_all remove
  remove_all-lost [] = refl
  remove_all-lost (c ∷ cs) = elim (Bool-cases (alive c.identity)) [
    | inl live ↦ rw live (
        remove_all-cons_live c _ cs live (lost-filter cs)
        ∙ ap (λ (l : List ActiveConnection). c ∷ l) (remove_all-lost cs))
    | inr lost ↦ rw (lost, is_same_refl c) (remove_all-lost cs)
  ]

  connections-disconnect_all :
      (b : ℕ) (ds : List ActiveConnection) (m : WebSocketManager)
      → In b ds
      → connections_of b (disconnect_all ds m) ≡ remove_all ds (connections_of b m)
  unfolding remove_all disconnect_all
  connections-disconnect_all b [] m h = refl
  connections-disconnect_all b (d ∷ ds) m (e, h) =
      connections-disconnect_all b ds (disconnect d m) h
      ∙ ap (remove_all ds) (connections-disconnect b d m e)

  -- Lost connections of one business leave every other business as it was.
  connections-disconnect_all_ne :
      (b other : ℕ) (ds : List ActiveConnection) (m : WebSocketManager)
      → b ≢ other
      → In b ds
      → connections_of other (disconnect_all ds m) ≡ connections_of other m
  unfolding disconnect_all
  connections-disconnect_all_ne b other [] m ne h = refl
  connections-disconnect_all_ne b other (d ∷ ds) m ne (e, h) =
      connections-disconnect_all_ne b other ds (disconnect d m) ne h
      ∙ connections-disconnect_ne b other d m ne e

-- Every connection stands under the business that it belongs to.
abbrev pub IsFiled : WebSocketManager → Type 0
IsFiled m = (b : ℕ) → All (λ (c : ActiveConnection). c.business_id ≡ b) (connections_of b m)

module _ {A : Type 0} (alive : ℕ → Bool) (b : ℕ) (e : String) (payload : A) where
  -- If every connection is registered under its own business, a broadcast to a business sends to
  -- exactly its live connections, in order, leaves exactly these registered there, and leaves the
  -- connections of every other business as they were.
  pub broadcast_to_business-delivers :
      (m : WebSocketManager) (other : ℕ)
      → b ≢ other
      → IsFiled m
      → let (sent, m') = broadcast_to_business alive b e payload m in
        let live = filter (λ (c : ActiveConnection). alive c.identity) (connections_of b m) in
        (map (λ (s : Sent A). s.target) sent ≡ live)
        × (connections_of b m' ≡ live)
        × (connections_of other m' ≡ connections_of other m)
  unfolding broadcast_to_business
  broadcast_to_business-delivers m other ne filed =
      let lost = filter (λ (c : ActiveConnection). not (alive c.identity)) (connections_of b m) in
      let in_b =
        All-filter (λ (c : ActiveConnection). c.business_id ≡ b) (λ c. not (alive c.identity))
          (connections_of b m) (filed b) in
      (
        targets-send_all e b payload _,
        connections-disconnect_all alive b lost m in_b ∙ remove_all-lost alive (connections_of b m),
        connections-disconnect_all_ne alive b other lost m ne in_b,
      )
