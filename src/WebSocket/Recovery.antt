-- ===== src/WebSocket/Recovery.antt =====
-- On the subscriber loop of app/websocket/broadcaster.py.
use ops_pilot_be.Prelude.{
  Bool, ℕ, ◌≤◌, ◌≡◌, ◌⊎◌, refl, arith, List, [], ◌∷◌, ◌++◌, All, All-append, inl, inr, none, some,
  Option, Bool-cases, ◌==◌, string_eq, false, true,
}
use ops_pilot_be.WebSocket.{WebSocketManager}
use ops_pilot_be.WebSocket.Broadcaster.{
  Published, Mode, connecting, listening, stopped, Loop, Signal, subscribed, unreadable, received,
  timeout, failure, cancelled, initial_delay, max_retry_delay, timeout_pause, start, broadcast,
  route_to, route, pause_timeout, pause_failure, react_in, redis_subscriber_loop,
}

-- The delay is between one second and one minute, and so is every pause after an error.
pub record Bounded {P : Type 0} (l : Loop P) : Type 0 where
  pub shortest : initial_delay ≤ l.retry_delay
  pub longest : l.retry_delay ≤ max_retry_delay
  pub pauses : All (λ p. (timeout_pause ≤ p) × (p ≤ max_retry_delay)) l.pauses

abbrev pub is_cancelled : {P : Type 0} → Signal P → Bool
is_cancelled subscribed = false
is_cancelled unreadable = false
is_cancelled (received p) = false
is_cancelled timeout = false
is_cancelled failure = false
is_cancelled cancelled = true

abbrev IsRunning : Mode → Type 0
IsRunning mode = (mode ≡ connecting) ⊎ (mode ≡ listening)

module _ {P : Type 0} (alive : ℕ → Bool) where
  route-Bounded : (p : Published P) (l : Loop P) → Bounded l → Bounded (route alive p l)
  unfolding route
  route-Bounded p l b = go p.business_id
    where
      go : (o : Option ℕ) → Bounded (route_to alive o p l)
      go none = b
      go (some i) = elim (Bool-cases (p.event_type == "")) [
        | inl h ↦ rw h b
        | inr h ↦ rw h (record { shortest = b.shortest; longest = b.longest; pauses = b.pauses })
      ]

  timeout-Bounded : (l : Loop P) → Bounded l → Bounded (pause_timeout alive l)
  timeout-Bounded l b = record {
    shortest = b.shortest;
    longest = b.longest;
    pauses =
        All-append (λ p. (timeout_pause ≤ p) × (p ≤ max_retry_delay)) l.pauses (timeout_pause ∷ [])
          b.pauses ((omega arith, omega arith), tt);
  }

  failure-Bounded : (l : Loop P) → Bounded l → Bounded (pause_failure alive l)
  failure-Bounded l b =
      let low = b.shortest in
      let high = b.longest in
      record {
        shortest = omega arith;
        longest = omega arith;
        pauses =
            All-append (λ p. (timeout_pause ≤ p) × (p ≤ max_retry_delay)) l.pauses
              (l.retry_delay ∷ []) b.pauses ((omega arith, omega arith), tt);
      }

  subscribed-Bounded : (l : Loop P) → Bounded l → Bounded (react_in alive connecting subscribed l)
  subscribed-Bounded l b = record {
    shortest = omega arith;
    longest = omega arith;
    pauses = b.pauses;
  }

  stopped-Bounded : (l : Loop P) → Bounded l → Bounded (record l { mode = stopped })
  stopped-Bounded l b = record { shortest = b.shortest; longest = b.longest; pauses = b.pauses }

  react-Bounded :
      (mode : Mode) (x : Signal P) (l : Loop P) → Bounded l → Bounded (react_in alive mode x l)
  react-Bounded connecting subscribed l b = subscribed-Bounded l b
  react-Bounded connecting unreadable l b = b
  react-Bounded connecting (received p) l b = b
  react-Bounded connecting timeout l b = timeout-Bounded l b
  react-Bounded connecting failure l b = failure-Bounded l b
  react-Bounded connecting cancelled l b = stopped-Bounded l b
  react-Bounded listening subscribed l b = b
  react-Bounded listening unreadable l b = b
  react-Bounded listening (received p) l b = route-Bounded p l b
  react-Bounded listening timeout l b = timeout-Bounded l b
  react-Bounded listening failure l b = failure-Bounded l b
  react-Bounded listening cancelled l b = stopped-Bounded l b
  react-Bounded stopped x l b = b

  -- Routing does not change the mode.
  route-mode : (p : Published P) (l : Loop P) → (route alive p l).mode ≡ l.mode
  unfolding route
  route-mode p l = go p.business_id
    where
      go : (o : Option ℕ) → (route_to alive o p l).mode ≡ l.mode
      go none = refl
      go (some i) = elim (Bool-cases (p.event_type == "")) [ inl h ↦ rw h refl | inr h ↦ rw h refl ]

  react-IsRunning :
      (x : Signal P) (l : Loop P)
      → IsRunning l.mode
      → is_cancelled x ≡ false
      → IsRunning (react_in alive l.mode x l).mode
  react-IsRunning subscribed l (inl h) e = rw h (inr refl)
  react-IsRunning unreadable l (inl h) e = rw h (inl refl)
  react-IsRunning (received p) l (inl h) e = rw h (inl refl)
  react-IsRunning timeout l (inl h) e = rw h (inl refl)
  react-IsRunning failure l (inl h) e = rw h (inl refl)
  react-IsRunning cancelled l r e = cc
  react-IsRunning subscribed l (inr h) e = rw h (inr refl)
  react-IsRunning unreadable l (inr h) e = rw h (inr refl)
  react-IsRunning (received p) l (inr h) e =
      rw h (inr (route-mode p (record l { mode = listening })))
  react-IsRunning timeout l (inr h) e = rw h (inl refl)
  react-IsRunning failure l (inr h) e = rw h (inl refl)

  loop-IsRunning :
      (xs : List (Signal P)) (l : Loop P)
      → IsRunning l.mode
      → Bounded l
      → All (λ x. is_cancelled x ≡ false) xs
      → IsRunning (redis_subscriber_loop alive xs l).mode
        × Bounded (redis_subscriber_loop alive xs l)
  unfolding redis_subscriber_loop
  loop-IsRunning [] l r b h = (r, b)
  loop-IsRunning (x ∷ xs) l r b (here, h) =
      loop-IsRunning xs (react_in alive l.mode x l) (react-IsRunning x l r here)
        (react-Bounded l.mode x l b) h

  loop-append :
      (xs ys : List (Signal P)) (l : Loop P)
      → redis_subscriber_loop alive (xs ++ ys) l
        ≡ redis_subscriber_loop alive ys (redis_subscriber_loop alive xs l)
  unfolding redis_subscriber_loop
  loop-append [] ys l = refl
  loop-append (x ∷ xs) ys l = loop-append xs ys (react_in alive l.mode x l)

  start-Bounded : (m : WebSocketManager) → Bounded {P = P} (start m)
  unfolding start
  start-Bounded m = record { shortest = omega arith; longest = omega arith; pauses = tt }

  delivered :
      (p : Published P) (b : ℕ) (l : Loop P)
      → IsRunning l.mode
      → p.business_id ≡ some b
      → (p.event_type == "") ≡ false
      → ((redis_subscriber_loop alive (subscribed ∷ received p ∷ []) l).sent
          ≡ l.sent ++ (broadcast alive b p.user_id p.event_type p.payload l.manager).0)
        × ((redis_subscriber_loop alive (subscribed ∷ received p ∷ []) l).manager
            ≡ (broadcast alive b p.user_id p.event_type p.payload l.manager).1)
  unfolding redis_subscriber_loop route
  delivered p b l (inl h) here named = rw (h, here, named) (refl, refl)
  delivered p b l (inr h) here named = rw (h, here, named) (refl, refl)

  -- After any signals but a cancellation, the subscriber loop's delay lies between one second and
  -- one minute and each of its pauses between a tenth of a second and one minute; and once it is
  -- subscribed, the next publication with a business and an event name is sent exactly as the
  -- manager's broadcast to that business, or to the named user of it, sends it, and leaves the
  -- manager as that does.
  pub redis_subscriber_loop-recovers :
      (signals : List (Signal P)) (m : WebSocketManager) (p : Published P) (b : ℕ)
      → All (λ x. is_cancelled x ≡ false) signals
      → p.business_id ≡ some b
      → (p.event_type == "") ≡ false
      → Bounded (redis_subscriber_loop alive signals (start m))
        × ((redis_subscriber_loop alive (signals ++ subscribed ∷ received p ∷ []) (start m)).sent
            ≡ (redis_subscriber_loop alive signals (start m)).sent
              ++ (broadcast alive b p.user_id p.event_type p.payload
                  (redis_subscriber_loop alive signals (start m)).manager).0)
        × ((redis_subscriber_loop alive (signals ++ subscribed ∷ received p ∷ []) (start m)).manager
            ≡ (broadcast alive b p.user_id p.event_type p.payload
                (redis_subscriber_loop alive signals (start m)).manager).1)
  unfolding start
  redis_subscriber_loop-recovers signals m p b h here named =
      let (running, bounded) = loop-IsRunning signals (start m) (inl refl) (start-Bounded m) h in
      let (sent, manager) =
        delivered p b (redis_subscriber_loop alive signals (start m)) running here named in
      (
        bounded,
        rw (loop-append signals (subscribed ∷ received p ∷ []) (start m)) sent,
        rw (loop-append signals (subscribed ∷ received p ∷ []) (start m)) manager,
      )
