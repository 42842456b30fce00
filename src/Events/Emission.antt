-- ===== src/Events/Emission.antt =====
-- On `emit` of app/core/events.py, in both modes.
use mathlib.Core.Option
use ops_pilot_be.Prelude.{
  ℕ, suc, ◌+◌, ◌≡◌, refl, ◌∙◌, ap, Option, none, some, List, [], ◌∷◌, ◌++◌, String, string_eq,
  length, map, filter, is_some, arith,
}
use ops_pilot_be.Prelude.Dict.{lookup, lookup-insert_self}
use ops_pilot_be.Events.{
  Task, run_task, interleave, results_of, gather, collect, with_state, RunMode, testing, production,
  Event, EventBus, handlers_of, run_handlers, run_in, count_results, emit_to, emit, counted,
}
use ops_pilot_be.Events.Interleaving.{
  OneEach, results_of-OneEach, length-interleave, run_tasks, all_turns, gather-ends,
}

length-map : {A B : Type 0} (f : A → B) (l : List A) → length (map f l) ≡ length l
length-map f [] = refl
length-map f (x ∷ l) = ap suc (length-map f l)

module _ {H P W : Type 0} (call : H → Event P → Task W) where
  -- The state after the handlers, one after the other, computed apart from the exceptions.
  abbrev pub thread : Event P → List H → W → W
  thread event [] w = w
  thread event (h ∷ hs) w = thread event hs (run_task (call h event) w).1

  state-run_handlers :
      (event : Event P) (hs : List H) (w : W) → (run_handlers call event hs w).1 ≡ thread event hs w
  unfolding run_handlers
  state-run_handlers event [] w = refl
  state-run_handlers event (h ∷ hs) w = state-run_handlers event hs (run_task (call h event) w).1

  length-run_handlers :
      (event : Event P) (hs : List H) (w : W) → length (run_handlers call event hs w).0 ≡ length hs
  unfolding run_handlers
  length-run_handlers event [] w = refl
  length-run_handlers event (h ∷ hs) w =
      ap suc (length-run_handlers event hs (run_task (call h event) w).1)

  run_tasks-handlers :
      (event : Event P) (hs : List H) (w : W)
      → run_tasks (map (λ h. call h event) hs) w ≡ run_handlers call event hs w
  unfolding run_handlers run_tasks
  run_tasks-handlers event [] w = refl
  run_tasks-handlers event (h ∷ hs) w =
      rw (run_tasks-handlers event hs (run_task (call h event) w).1) refl

  -- One result for each handler, the exceptions counted, and the subscriptions as they were.
  abbrev pub Recorded : Event P → EventBus H → List (Option String) × EventBus H × W → Type 0
  Recorded event bus (results, bus', w) =
      (length results ≡ length (handlers_of event.event_type bus))
      × (counted (lookup event.event_type bus'.failures_total)
          ≡ counted (lookup event.event_type bus.failures_total) + length (filter is_some results))
      × (bus'.handlers ≡ bus.handlers)

  -- Where the emission returns.
  abbrev pub Returned :
      Event P → EventBus H → Option (List (Option String) × EventBus H × W) → Type 0
  Returned event bus none = Unit {0}
  Returned event bus (some answer) = Recorded event bus answer

  count_results-Recorded :
      (event : Event P) (bus : EventBus H) (results : List (Option String)) (w : W)
      → length results ≡ length (handlers_of event.event_type bus)
      → Recorded event bus (count_results event bus (results, w))
  count_results-Recorded event bus results w h = (h, rw lookup-insert_self refl, refl)

  -- As many results as handlers, where there are results.
  abbrev Complete : List H → Option (List (Option String) × W) → Type 0
  Complete hs none = Unit {0}
  Complete hs (some (results, w)) = length results ≡ length hs

  OneEach-Complete :
      (hs : List H) (ts : List (Task W)) (w : W) (rest : Option (List (Option String)))
      → length ts ≡ length hs
      → OneEach ts rest
      → Complete hs (with_state w rest)
  OneEach-Complete hs ts w none e h = tt
  OneEach-Complete hs ts w (some rs) e h = h ∙ e

  run_in-Complete :
      (mode : RunMode) (event : Event P) (hs : List H) (w : W)
      → Complete hs (run_in mode call event hs w)
  unfolding run_in gather collect
  run_in-Complete testing event hs w = length-run_handlers event hs w
  run_in-Complete (production turns) event hs w =
      let (ts, w') = interleave turns (map (λ h. call h event) hs) w in
      OneEach-Complete hs ts w' (results_of ts)
        (length-interleave turns (map (λ h. call h event) hs) w ∙ length-map (λ h. call h event) hs)
        (results_of-OneEach ts)

  Complete-Returned :
      (event : Event P) (bus : EventBus H) (o : Option (List (Option String) × W))
      → Complete (handlers_of event.event_type bus) o
      → Returned event bus (Option.map (count_results event bus) o)
  Complete-Returned event bus none h = tt
  Complete-Returned event bus (some (results, w)) h = count_results-Recorded event bus results w h

  emit_to-Returned :
      (mode : RunMode) (event : Event P) (bus : EventBus H) (hs : List H) (w : W)
      → handlers_of event.event_type bus ≡ hs
      → Returned event bus (emit_to mode call event bus hs w)
  unfolding emit_to
  emit_to-Returned mode event bus [] w e = (rw e refl, omega arith, refl)
  emit_to-Returned mode event bus (h ∷ hs) w e =
      Complete-Returned event bus (run_in mode call event (h ∷ hs) w)
        (rw e (run_in-Complete mode event (h ∷ hs) w))

  -- The turns with which every handler ends, after the given ones.
  abbrev rest_of : Event P → List H → W → List ℕ → List ℕ
  rest_of event hs w turns =
      let (ts, w') = interleave turns (map (λ h. call h event) hs) w in all_turns ts w'

  emit_to-ends :
      (event : Event P) (bus : EventBus H) (hs : List H) (w : W) (turns : List ℕ)
      → (answer : List (Option String) × EventBus H × W) × (emit_to
            (production (turns ++ rest_of event hs w turns))
            call
            event
            bus
            hs
            w
          ≡ some answer)
  unfolding emit_to run_in
  emit_to-ends event bus [] w turns = (([], bus, w), refl)
  emit_to-ends event bus (h ∷ hs) w turns =
      let (ts, w') = interleave turns (map (λ x. call x event) (h ∷ hs)) w in
      (
        count_results event bus (run_tasks ts w'),
        ap (Option.map (count_results event bus))
            (gather-ends turns (map (λ x. call x event) (h ∷ hs)) w),
      )

  emit_to-testing :
      (event : Event P) (bus : EventBus H) (hs : List H) (w : W)
      → (answer : List (Option String) × EventBus H × W) × (emit_to testing call event bus hs w
          ≡ some answer)
        × (answer.2 ≡ thread event hs w)
  unfolding emit_to run_in
  emit_to-testing event bus [] w = (([], bus, w), refl, refl)
  emit_to-testing event bus (h ∷ hs) w = (_, refl, state-run_handlers event (h ∷ hs) w)

  emit_to-one_by_one :
      (event : Event P) (bus : EventBus H) (hs : List H) (w : W)
      → emit_to (production (rest_of event hs w [])) call event bus hs w
        ≡ emit_to testing call event bus hs w
  unfolding emit_to run_in interleave
  emit_to-one_by_one event bus [] w = refl
  emit_to-one_by_one event bus (h ∷ hs) w =
      rw (gather-ends [] (map (λ x. call x event) (h ∷ hs)) w, run_tasks-handlers event (h ∷ hs) w)
        refl

  -- Where an emission returns, in testing mode or in production, under whatever turns the event loop
  -- takes, it gives one result for each handler of the event's type, adds the number of exceptions
  -- to the type's failure counter, and changes no subscription. In testing mode it always returns,
  -- and each handler runs on the state that the one before left, failed or not. In production any
  -- turns can be followed by others with which it returns, and some turns lead to exactly what the
  -- testing mode does.
  pub emit-runs_all :
      (event : Event P) (bus : EventBus H) (w : W)
      → ((mode : RunMode) → Returned event bus (emit mode call event bus w))
        × ((answer : List (Option String) × EventBus H × W) × (emit testing call event bus w
              ≡ some answer)
            × (answer.2 ≡ thread event (handlers_of event.event_type bus) w))
        × ((turns : List ℕ)
            → (more : List ℕ) × (answer : List (Option String) × EventBus H × W) × (emit
                  (production (turns ++ more))
                  call
                  event
                  bus
                  w
                ≡ some answer))
        × ((turns : List ℕ) × (emit (production turns) call event bus w
              ≡ emit testing call event bus w))
  unfolding emit
  emit-runs_all event bus w =
      let hs = handlers_of event.event_type bus in
      (
        λ mode. emit_to-Returned mode event bus hs w refl,
        emit_to-testing event bus hs w,
        λ turns.
            let (answer, done) = emit_to-ends event bus hs w turns in
            (rest_of event hs w turns, answer, done),
        (rest_of event hs w [], emit_to-one_by_one event bus hs w),
      )
