-- ===== src/Workflows/Rules/Requests.antt =====
-- Sequences of requests on the rules and of reads of the cache, one after the other.
use ops_pilot_be.Prelude.{
  ◌≡◌, refl, Bool, true, false, Option, none, some, List, [], ◌∷◌, String, Result, ok, err, inl,
  inr, result-cases, Bool-cases, Option-cases, ltb, ◌+◌, ◌*◌,
}
use ops_pilot_be.Prelude.Dict.{lookup}
use ops_pilot_be.Exceptions.{Error}
use ops_pilot_be.Repository.{Uuid}
use ops_pilot_be.Auth.Models.{Time}
use ops_pilot_be.Workflows.Engine.{Workflow}
use ops_pilot_be.Workflows.Rules.{
  key_eq, get_cache_key, RuleStore, get_active_by_trigger, unexpired, fill,
  get_active_workflows_cached, create_workflow, WorkflowUpdate, update_workflow, delete_workflow,
}
use ops_pilot_be.Workflows.Rules.Agreement.{insert-Agrees}
use ops_pilot_be.Workflows.Rules.Coherence.{
  Sound, UniqueIds, create_workflow-Sound, update_workflow-Sound, delete_workflow-Sound,
}

-- A read says when it takes place and whether Redis answers its `GET` and its `SETEX`.
pub data Request : Type 0 where
  create_rule : Workflow → Request
  update_rule : Uuid → Uuid → WorkflowUpdate → Request
  delete_rule : Uuid → Uuid → Request
  read_rules : Bool → Bool → Time → Uuid → String → Request

-- A request that fails is rolled back.
abbrev pub or_rolled_back : RuleStore → Result Error RuleStore → RuleStore
or_rolled_back s (err x) = s
or_rolled_back s (ok s') = s'

abbrev pub stored_by : Result Error (Workflow × RuleStore) → Result Error RuleStore
stored_by (err x) = err x
stored_by (ok (w, s)) = ok s

unfoldable pub perform : Request → RuleStore → RuleStore
perform (create_rule w) s = or_rolled_back s (stored_by (create_workflow true w s))
perform (update_rule i b p) s = or_rolled_back s (stored_by (update_workflow true i b p s))
perform (delete_rule i b) s = or_rolled_back s (delete_workflow true i b s)
perform (read_rules reads writes now b trigger_type) s =
    (get_active_workflows_cached reads writes now b trigger_type s).1

unfoldable pub perform_all : List Request → RuleStore → RuleStore
unfolding perform
perform_all [] s = s
perform_all (r ∷ rs) s = perform_all rs (perform r s)

module _ (now : Time) (b : Uuid) (trigger_type : String) where
  read-agrees :
      (reads writes : Bool) (s : RuleStore)
      → Sound s
      → ((get_active_workflows_cached reads writes now b trigger_type s).0
          ≡ get_active_by_trigger b trigger_type s.rules)
        × Sound (get_active_workflows_cached reads writes now b trigger_type s).1
        × ((get_active_workflows_cached reads writes now b trigger_type s).1.rules ≡ s.rules)
  unfolding get_active_workflows_cached
  read-agrees false writes s sound = (refl, sound, refl)
  read-agrees true writes s sound =
      elim (Option-cases (unexpired now (lookup (get_cache_key b trigger_type) s.cache))) [
        | inl h ↦ rw h (refl, filled writes, by_writes writes)
        | inr (rules, h) ↦
            rw h (hit (lookup (get_cache_key b trigger_type) s.cache) refl rules h, sound, refl)
      ]
    where
      filled :
          (w : Bool)
          → Sound (
              fill w now
                (get_cache_key b trigger_type)
                (get_active_by_trigger b trigger_type s.rules)
                s)
      filled false = sound
      filled true = record {
        agrees =
            insert-Agrees (get_cache_key b trigger_type) (now + 86400 * 1000000) s.cache s.rules
              sound.agrees;
        unique = sound.unique;
      }

      by_writes :
          (w : Bool)
          → (fill w now
              (get_cache_key b trigger_type)
              (get_active_by_trigger b trigger_type s.rules)
              s).rules
            ≡ s.rules
      by_writes false = refl
      by_writes true = refl

      hit :
          (o : Option (List Workflow × Time))
          → lookup (get_cache_key b trigger_type) s.cache ≡ o
          → (rules : List Workflow) → unexpired now o ≡ some rules
          → rules ≡ get_active_by_trigger b trigger_type s.rules
      hit none h rules e = cc
      hit (some (found, until)) h rules e = elim (Bool-cases (ltb now until)) [
        | inr late ↦ cc (rw late at e)
        | inl fresh ↦
            let same : found ≡ rules = cc (rw fresh at e) in
            sound.agrees (get_cache_key b trigger_type) rules until (rw (← same) h)
      ]

stored_by-Sound :
    (s : RuleStore) (r : Result Error (Workflow × RuleStore))
    → Sound s
    → ((w : Workflow) (s' : RuleStore) → r ≡ ok (w, s') → Sound s')
    → Sound (or_rolled_back s (stored_by r))
stored_by-Sound s (err x) sound keeps = sound
stored_by-Sound s (ok (w, s')) sound keeps = keeps w s' refl

perform-Sound : (r : Request) (s : RuleStore) → Sound s → Sound (perform r s)
unfolding perform
perform-Sound (create_rule w) s sound =
    stored_by-Sound s (create_workflow true w s) sound
      (λ w' s' e. create_workflow-Sound w w' s s' sound e)
perform-Sound (update_rule i b p) s sound =
    stored_by-Sound s (update_workflow true i b p s) sound
      (λ w' s' e. update_workflow-Sound i b p w' s s' sound e)
perform-Sound (delete_rule i b) s sound = elim (result-cases (delete_workflow true i b s)) [
  | inl (x, h) ↦ rw h sound
  | inr (s', h) ↦ rw h (delete_workflow-Sound i b s s' sound h)
]
perform-Sound (read_rules reads writes now b trigger_type) s sound =
    (read-agrees now b trigger_type reads writes s sound).1

perform_all-Sound : (rs : List Request) (s : RuleStore) → Sound s → Sound (perform_all rs s)
unfolding perform_all
perform_all-Sound [] s sound = sound
perform_all-Sound (r ∷ rs) s sound = perform_all-Sound rs (perform r s) (perform-Sound r s sound)

-- If the ids of the rules are unique, the cache is empty and Redis does every invalidation, then
-- after any sequence of creations, updates, deletions and cached reads, one after the other, a
-- cached read of any business and trigger, whether or not Redis answers it, returns the rules that
-- the database has as active for them.
pub cached_rules-current :
    (rs : List Request) (rules : List Workflow) (reads writes : Bool) (now : Time) (b : Uuid)
    (trigger_type : String)
    → UniqueIds rules
    → (get_active_workflows_cached reads writes now b trigger_type
        (perform_all rs (record { rules = rules; cache = [] }))).0
      ≡ get_active_by_trigger b trigger_type
          (perform_all rs (record { rules = rules; cache = [] })).rules
cached_rules-current rs rules reads writes now b trigger_type unique =
    (read-agrees now b trigger_type reads writes
      (perform_all rs (record { rules = rules; cache = [] }))
      (perform_all-Sound rs (record { rules = rules; cache = [] })
        (record { agrees = λ k v u e. unfold lookup in cc; unique = unique }))).0
