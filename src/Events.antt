-- ===== src/Events.antt =====
-- app/core/events.py: the in-process event bus. A handler stands for its steps on the state `W` that
-- the handlers share, and for the exception that it may end in.
pub mod Bus
pub mod Interleaving
pub mod Emission
pub mod Wiring
use mathlib.Core.Option
use ops_pilot_be.Prelude.{
  ℕ, zero, suc, map, ◌+◌, Option, none, some, List, [], ◌∷◌, ◌++◌, String, string_eq, length,
  filter, is_some, contains, Eq, if◌then◌else◌,
}
use ops_pilot_be.Prelude.Dict.{Dict, lookup, insert}

pub record Event (P : Type 0) : Type 0 where
  pub event_type : String
  pub payload : P
  pub source_module : String

-- The handlers of each event type, and the two counters of app/core/metrics.py.
pub record EventBus (H : Type 0) : Type 0 where
  pub handlers : Dict String (List H)
  pub emissions_total : Dict String ℕ
  pub failures_total : Dict String ℕ

abbrev pub listed {ℓ} : {A : Type ℓ} → Option (List A) → List A
listed none = []
listed (some hs) = hs

abbrev pub counted : Option ℕ → ℕ
counted none = 0
counted (some n) = n

abbrev pub add_to : String → ℕ → Dict String ℕ → Dict String ℕ
add_to k n d = insert k (counted (lookup k d) + n) d

-- A coroutine: it has ended, in an exception or not, or it does a step on the state, after which it
-- awaits and goes on with the state that it then finds.
pub data Task (W : Type 0) : Type 0 where
  ended : Option String → Task W
  awaiting : (W → W) → (W → Task W) → Task W

module _ {W : Type 0} where
  -- `await` of one coroutine: no other runs in between.
  unfoldable pub run_task : Task W → W → Option String × W
  run_task (ended r) w = (r, w)
  run_task (awaiting act next) w = run_task (next w) (act w)

  -- One step of the task with the number, if it has not ended.
  unfoldable pub advance : ℕ → List (Task W) → W → List (Task W) × W
  advance i [] w = ([], w)
  advance zero (ended r ∷ ts) w = (ended r ∷ ts, w)
  advance zero (awaiting act next ∷ ts) w = (next w ∷ ts, act w)
  advance (suc i) (t ∷ ts) w = let (ts', w') = advance i ts w in (t ∷ ts', w')

  -- The event loop: whose turn it is, turn by turn.
  unfoldable pub interleave : List ℕ → List (Task W) → W → List (Task W) × W
  unfolding advance
  interleave [] ts w = (ts, w)
  interleave (i ∷ turns) ts w = let (ts', w') = advance i ts w in interleave turns ts' w'

  -- The results in the order of the tasks, once all have ended.
  unfoldable pub results_of : List (Task W) → Option (List (Option String))
  results_of [] = some []
  results_of (awaiting act next ∷ ts) = none
  results_of (ended r ∷ ts) =
      let rest = results_of ts in elim rest [ none ↦ none | some rs ↦ some (r ∷ rs) ]

  abbrev pub with_state : W → Option (List (Option String)) → Option (List (Option String) × W)
  with_state w none = none
  with_state w (some rs) = some (rs, w)

  unfoldable pub collect : List (Task W) × W → Option (List (Option String) × W)
  unfolding results_of
  collect (ts, w) = with_state w (results_of ts)

  -- `asyncio.gather(*tasks, return_exceptions=True)` under an event loop that takes the given turns;
  -- `none` while a task has not ended.
  unfoldable pub gather : List ℕ → List (Task W) → W → Option (List (Option String) × W)
  unfolding interleave collect
  gather turns ts w = collect (interleave turns ts w)

-- `is_testing`, or not, with the turns that the event loop takes.
pub data RunMode : Type 0 where
  testing : RunMode
  production : List ℕ → RunMode

module _ {H : Type 0} where
  abbrev pub handlers_of : String → EventBus H → List H
  handlers_of e bus = listed (lookup e bus.handlers)

  -- `subscribe`, and the decorator that `on` returns.
  unfoldable pub subscribe : ⦃q : Eq H⦄ → String → H → EventBus H → EventBus H
  subscribe e h bus =
      let hs = handlers_of e bus in
      if contains h hs then bus else record bus { handlers = insert e (hs ++ h ∷ []) bus.handlers }

  -- The loop of the testing mode: each handler runs, whether or not an earlier one failed. The
  -- exceptions, in the order of the handlers.
  unfoldable pub run_handlers :
      {P W : Type 0} → (H → Event P → Task W) → Event P → List H → W → List (Option String) × W
  unfolding run_task
  run_handlers call event [] w = ([], w)
  run_handlers call event (h ∷ hs) w =
      let (r, w') = run_task (call h event) w in
      let (results, w'') = run_handlers call event hs w' in (r ∷ results, w'')

  unfoldable pub run_in :
      {P W : Type 0}
      → RunMode
      → (H → Event P → Task W)
      → Event P
      → List H
      → W
      → Option (List (Option String) × W)
  unfolding run_handlers gather
  run_in testing call event hs w = some (run_handlers call event hs w)
  run_in (production turns) call event hs w = gather turns (map (λ h. call h event) hs) w

  -- The counters, after the results.
  abbrev pub count_results :
      {P W : Type 0}
      → Event P
      → EventBus H
      → List (Option String) × W
      → List (Option String) × EventBus H × W
  count_results event bus (results, w) = (
    results,
    record bus {
      emissions_total = add_to event.event_type 1 bus.emissions_total;
      failures_total = add_to event.event_type (length (filter is_some results)) bus.failures_total;
    },
    w,
  )

  -- `emit`, once its handlers are looked up; `none` while it has not returned.
  unfoldable pub emit_to :
      {P W : Type 0}
      → RunMode
      → (H → Event P → Task W)
      → Event P
      → EventBus H
      → List H
      → W
      → Option (List (Option String) × EventBus H × W)
  unfolding run_in
  emit_to mode call event bus [] w = some ([], bus, w)
  emit_to mode call event bus (h ∷ hs) w =
      Option.map (count_results event bus) (run_in mode call event (h ∷ hs) w)

  unfoldable pub emit :
      {P W : Type 0}
      → RunMode
      → (H → Event P → Task W)
      → Event P
      → EventBus H
      → W
      → Option (List (Option String) × EventBus H × W)
  unfolding emit_to
  emit mode call event bus w = emit_to mode call event bus (handlers_of event.event_type bus) w
