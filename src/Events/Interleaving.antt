-- ===== src/Events/Interleaving.antt =====
-- On `asyncio.gather` in `emit` of app/core/events.py: the turns that the event loop takes.
use ops_pilot_be.Prelude.{
  ℕ, zero, suc, ◌≡◌, refl, ◌∙◌, ap, Option, none, some, List, [], ◌∷◌, ◌++◌, String, length, map,
}
use ops_pilot_be.Events.{
  Task, ended, awaiting, run_task, advance, interleave, results_of, gather, collect, with_state,
}

results_of-ended :
    (W : Type 0) (rs : List (Option String)) → results_of {W = W} (map ended rs) ≡ some rs
unfolding results_of
results_of-ended W [] = refl
results_of-ended W (r ∷ rs) = rw (results_of-ended W rs) refl

module _ {W : Type 0} where
  length-advance : (i : ℕ) (ts : List (Task W)) (w : W) → length (advance i ts w).0 ≡ length ts
  unfolding advance
  length-advance i [] w = refl
  length-advance zero (ended r ∷ ts) w = refl
  length-advance zero (awaiting act next ∷ ts) w = refl
  length-advance (suc i) (t ∷ ts) w = ap suc (length-advance i ts w)

  pub length-interleave :
      (turns : List ℕ) (ts : List (Task W)) (w : W) → length (interleave turns ts w).0 ≡ length ts
  unfolding interleave
  length-interleave [] ts w = refl
  length-interleave (i ∷ turns) ts w =
      length-interleave turns (advance i ts w).0 (advance i ts w).1 ∙ length-advance i ts w

  -- As many results as tasks, where there are results.
  abbrev pub OneEach : List (Task W) → Option (List (Option String)) → Type 0
  OneEach ts none = Unit {0}
  OneEach ts (some rs) = length rs ≡ length ts

  OneEach-ended :
      (r : Option String) (ts : List (Task W)) (rest : Option (List (Option String)))
      → OneEach ts rest
      → OneEach (ended r ∷ ts) (elim rest [ none ↦ none | some rs ↦ some (r ∷ rs) ])
  OneEach-ended r ts none h = tt
  OneEach-ended r ts (some rs) h = ap suc h

  pub results_of-OneEach : (ts : List (Task W)) → OneEach ts (results_of ts)
  unfolding results_of
  results_of-OneEach [] = refl
  results_of-OneEach (awaiting act next ∷ ts) = tt
  results_of-OneEach (ended r ∷ ts) = OneEach-ended r ts (results_of ts) (results_of-OneEach ts)

  pub interleave-append :
      (xs ys : List ℕ) (ts : List (Task W)) (w : W)
      → interleave (xs ++ ys) ts w ≡ interleave ys (interleave xs ts w).0 (interleave xs ts w).1
  unfolding interleave
  interleave-append [] ys ts w = refl
  interleave-append (i ∷ xs) ys ts w = interleave-append xs ys (advance i ts w).0 (advance i ts w).1

  -- Turns of the first task until it has ended.
  turns_of : Task W → W → List ℕ
  turns_of (ended r) w = []
  turns_of (awaiting act next) w = 0 ∷ turns_of (next w) (act w)

  interleave-turns_of :
      (t : Task W) (ts : List (Task W)) (w : W)
      → interleave (turns_of t w) (t ∷ ts) w ≡ (ended (run_task t w).0 ∷ ts, (run_task t w).1)
  unfolding turns_of interleave advance run_task
  interleave-turns_of (ended r) ts w = refl
  interleave-turns_of (awaiting act next) ts w = interleave-turns_of (next w) ts (act w)

  interleave-suc :
      (turns : List ℕ) (t : Task W) (ts : List (Task W)) (w : W)
      → interleave (map suc turns) (t ∷ ts) w
        ≡ (t ∷ (interleave turns ts w).0, (interleave turns ts w).1)
  unfolding interleave advance
  interleave-suc [] t ts w = refl
  interleave-suc (i ∷ turns) t ts w = interleave-suc turns t (advance i ts w).0 (advance i ts w).1

  -- One task after the other.
  unfoldable pub run_tasks : List (Task W) → W → List (Option String) × W
  run_tasks [] w = ([], w)
  run_tasks (t ∷ ts) w =
      let (r, w') = run_task t w in let (rs, w'') = run_tasks ts w' in (r ∷ rs, w'')

  pub all_turns : List (Task W) → W → List ℕ
  all_turns [] w = []
  all_turns (t ∷ ts) w = turns_of t w ++ map suc (all_turns ts (run_task t w).1)

  pub interleave-all_turns :
      (ts : List (Task W)) (w : W)
      → interleave (all_turns ts w) ts w ≡ (map ended (run_tasks ts w).0, (run_tasks ts w).1)
  unfolding all_turns run_tasks
  interleave-all_turns [] w = unfold interleave in refl
  interleave-all_turns (t ∷ ts) w =
      rw
        (
          interleave-append (turns_of t w) (map suc (all_turns ts (run_task t w).1)) (t ∷ ts) w,
          interleave-turns_of t ts w,
          interleave-suc (all_turns ts (run_task t w).1) (ended (run_task t w).0) ts
              (run_task t w).1,
          interleave-all_turns ts (run_task t w).1,
        )
        refl

  -- From wherever some turns have led, more turns end every task.
  pub gather-ends :
      (turns : List ℕ) (ts : List (Task W)) (w : W)
      → let (ts', w') = interleave turns ts w in
        gather (turns ++ all_turns ts' w') ts w ≡ some (run_tasks ts' w')
  unfolding gather collect
  gather-ends turns ts w =
      let (ts', w') = interleave turns ts w in
      ap collect (interleave-append turns (all_turns ts' w') ts w ∙ interleave-all_turns ts' w')
      ∙ ap (with_state (run_tasks ts' w').1) (results_of-ended W (run_tasks ts' w').0)
