-- ===== src/Tests/Traffic.antt =====
-- Rate limiting, the event bus, the connection manager and pages of listings, on concrete inputs.
use ops_pilot_be.Prelude.{
  ℕ, ◌≡◌, ◌≤◌, refl, ◌+◌, if◌then◌else◌, Bool, true, false, Option, none, some, List, [], ◌∷◌, ◌++◌,
  String, filter, length, any, ltb, map, arith, ◌==◌, string_eq, nat_eq,
}
use ops_pilot_be.Prelude.Dict.{lookup, insert}
use ops_pilot_be.RateLimit.{check_memory, serve}
use ops_pilot_be.RateLimit.Window.{Ascending, in_window, serve-at_most_limit, check_memory-exact}
use ops_pilot_be.RateLimit.Script.{SortedSet, Agrees, sliding_window, sliding_window-refines}
use ops_pilot_be.Events.{
  Task, ended, awaiting, RunMode, testing, production, Event, EventBus, emit, handlers_of, gather,
  collect, interleave, advance, results_of,
}
use ops_pilot_be.Events.Bus.{subscribe_all, new_bus}
use ops_pilot_be.Events.Emission.{Returned, thread, emit-runs_all}
use ops_pilot_be.Events.Wiring.{BridgesAgree, service_events_reach_bridges}
use ops_pilot_be.WebSocket.{
  ActiveConnection, WebSocketManager, connections_of, presence_of, is_same, connect, disconnect,
  broadcast_to_business, Sent,
}
use ops_pilot_be.WebSocket.Delivery.{broadcast_to_business-delivers}
use ops_pilot_be.WebSocket.Presence.{
  connects, step, run, empty, of_user, present-connected, run_from_empty-filed,
  second_tab_loses_presence,
}

-- Four requests in a window of ten, of which two may pass.
abbrev arrivals : List ℕ
arrivals = 1 ∷ 2 ∷ 3 ∷ 12 ∷ []

arrivals-Ascending : Ascending 0 arrivals
arrivals-Ascending = (omega arith, (omega arith, (omega arith, (omega arith, tt))))

serve-at_most_limit_example : length (filter (in_window 10 12) (serve 10 2 [] arrivals).0) ≤ 2
serve-at_most_limit_example = serve-at_most_limit 10 2 12 arrivals arrivals-Ascending

check_memory-exact_example :
    (check_memory 10 2 13 (serve 10 2 [] arrivals).1).0
    ≡ ltb (length (filter (in_window 10 13) (serve 10 2 [] arrivals).0)) 2
check_memory-exact_example = check_memory-exact 10 2 13 arrivals arrivals-Ascending (omega arith)

abbrev empty_set : SortedSet
empty_set = record { entries = []; deadline = none }

empty_set-Agrees : Agrees 10 0 empty_set []
empty_set-Agrees = record { covered = tt; before = tt; same = λ later le. refl }

sliding_window-refines_example :
    ((sliding_window 10 2 5 77 empty_set).0 ≡ (check_memory 10 2 5 []).0)
    × Agrees 10 5 (sliding_window 10 2 5 77 empty_set).1 (check_memory 10 2 5 []).1
sliding_window-refines_example =
    sliding_window-refines 10 2 5 77 empty_set [] (omega arith) empty_set-Agrees refl

-- A bus of two numbered handlers; handler 2 raises after a step.
abbrev call : ℕ → Event String → Task ℕ
call h event = awaiting (λ w. w + h) (λ w. ended (if h == 2 then some "boom" else none))

abbrev two_handlers : EventBus ℕ
two_handlers = subscribe_all (("order.created", 1) ∷ ("order.created", 2) ∷ []) new_bus

abbrev an_order : Event String
an_order = record { event_type = "order.created"; payload = "o1"; source_module = "orders" }

emit-runs_all_example :
    ((mode : RunMode)
      → Returned call an_order two_handlers (emit mode call an_order two_handlers 5))
    × ((answer : List (Option String) × EventBus ℕ × ℕ) × (emit testing call an_order two_handlers 5
          ≡ some answer)
        × (answer.2 ≡ thread call an_order (handlers_of "order.created" two_handlers) 5))
    × ((turns : List ℕ)
        → (more : List ℕ) × (answer : List (Option String) × EventBus ℕ × ℕ) × (emit
              (production (turns ++ more))
              call
              an_order
              two_handlers
              5
            ≡ some answer))
    × ((turns : List ℕ) × (emit (production turns) call an_order two_handlers 5
          ≡ emit testing call an_order two_handlers 5))
emit-runs_all_example = emit-runs_all call an_order two_handlers 5

-- The handlers in the opposite order of their turns: the results stay in the order of the handlers.
second_first :
    gather (1 ∷ 0 ∷ []) (map (λ h. call h an_order) (1 ∷ 2 ∷ [])) 5
    ≡ some (none ∷ some "boom" ∷ [], 8)
unfolding gather collect interleave advance results_of
second_first = refl

service_events_example : BridgesAgree false "payment.successful"
service_events_example = service_events_reach_bridges "payment.successful" refl

-- Two connections of user 7 of business 1.
abbrev tab_one : ActiveConnection
tab_one = record { identity = 100; user_id = 7; business_id = 1 }

abbrev tab_two : ActiveConnection
tab_two = record { identity = 101; user_id = 7; business_id = 1 }

abbrev both_tabs : WebSocketManager
both_tabs = run (connects tab_one ∷ connects tab_two ∷ []) empty

present-connected_example : any (of_user 7) (connections_of 1 both_tabs) ≡ true
unfolding lookup insert run step connect
present-connected_example = present-connected (connects tab_one ∷ connects tab_two ∷ []) 1 7 refl

second_tab_example :
    (lookup 7 (presence_of 1 (disconnect tab_two both_tabs)) ≡ none)
    × (any (is_same tab_one) (connections_of 1 (disconnect tab_two both_tabs)) ≡ true)
unfolding lookup insert run step connect
second_tab_example =
    second_tab_loses_presence tab_one tab_two both_tabs refl refl (ground arith) refl

-- The second connection is lost.
abbrev first_only : ℕ → Bool
first_only i = i == 100

broadcast_example :
    let (sent, m') =
      broadcast_to_business {A = String} first_only 1 "order.created" "o1" both_tabs in
    let live =
      filter (λ (c : ActiveConnection). first_only c.identity) (connections_of 1 both_tabs) in
    (map (λ (s : Sent String). s.target) sent ≡ live)
    × (connections_of 1 m' ≡ live)
    × (connections_of 2 m' ≡ connections_of 2 both_tabs)
broadcast_example =
    broadcast_to_business-delivers first_only 1 "order.created" "o1" both_tabs 2 (ground arith)
      (run_from_empty-filed (connects tab_one ∷ connects tab_two ∷ []))
