-- ===== src/Workflows/Rules.antt =====
-- The rules of a business: app/modules/workflows/routes.py on the table of rules, and the cache of
-- active rules in Redis of app/modules/workflows/triggers.py. A cached text reads back, through
-- JSON, as the list that was written.
pub mod Agreement
pub mod Coherence
pub mod Requests
pub mod Stale
use ops_pilot_be.Prelude.{
  ℕ, ◌+◌, ◌*◌, ◌≡◌, ◌↔◌, Bool, true, ◌&&◌, Option, none, some, List, String, Result, ok, ◌>>=◌,
  or_raise, if◌then◌else◌, filter, ltb, ◌==◌, Eq, nat_eq, string_eq, arith,
}
use ops_pilot_be.Prelude.Dict.{Dict, lookup, insert, erase}
use ops_pilot_be.Exceptions.{Error, ErrorClass, init}
use ops_pilot_be.Repository.{Uuid, Model, get_one_by, create, update, delete, has_id}
use ops_pilot_be.Auth.Models.{Time}
use ops_pilot_be.Auth.Tokens.{second}
use ops_pilot_be.Workflows.Conditions.{Condition}
use ops_pilot_be.Workflows.Engine.{Workflow, Action, LogDepth}

instance abbrev pub workflow_model : Model Workflow
workflow_model = record { id_of = λ (w : Workflow). w.id }

abbrev pub workflow_clash : Workflow → Workflow → Bool
workflow_clash a b = b.id == a.id

-- A key is the text `prefix:business:trigger`, which tells both parts, as a UUID has no colon.
abbrev pub CacheKey : Type 0
CacheKey = Uuid × String

abbrev key_beq : CacheKey → CacheKey → Bool
key_beq (b, t) (c, u) = b == c && t == u

pub key_beq_iff : (k j : CacheKey) → (key_beq k j ≡ true) ↔ (k ≡ j)
key_beq_iff (b, t) (c, u) = ground (arith, nat_eq.equal_iff b c, string_eq.equal_iff t u)

instance abbrev pub key_eq : Eq CacheKey
key_eq = record { equal = key_beq; equal_iff = key_beq_iff }

abbrev pub get_cache_key : Uuid → String → CacheKey
get_cache_key b trigger_type = (b, trigger_type)

-- An entry of Redis: the rules and when it expires.
abbrev pub Cache : Type 0
Cache = Dict CacheKey (List Workflow × Time)

pub record RuleStore : Type 0 where
  pub rules : List Workflow
  pub cache : Cache

abbrev pub cache_expiry_seconds : ℕ
cache_expiry_seconds = 86400

abbrev pub is_active_for : Uuid → String → Workflow → Bool
is_active_for b trigger_type w =
    w.business_id == b && (w.trigger_type == trigger_type && w.is_active)

unfoldable pub get_active_by_trigger : Uuid → String → List Workflow → List Workflow
get_active_by_trigger b trigger_type rules = filter (is_active_for b trigger_type) rules

-- `up`: whether Redis answers; where it does not, the failure is only logged.
unfoldable pub invalidate_workflow_cache : Bool → Uuid → String → RuleStore → RuleStore
invalidate_workflow_cache up b trigger_type s =
    if up then record s { cache = erase (get_cache_key b trigger_type) s.cache } else s

-- `GET`: the entry, unless it has expired.
abbrev pub unexpired : Time → Option (List Workflow × Time) → Option (List Workflow)
unexpired now none = none
unexpired now (some (rules, until)) = if ltb now until then some rules else none

-- The rules from the database are written where the read of Redis did not fail, and the write
-- succeeds.
abbrev pub fill : Bool → Time → CacheKey → List Workflow → RuleStore → RuleStore
fill up now key found s =
    if up
    then record s { cache = insert key (found, now + cache_expiry_seconds * second) s.cache }
    else s

abbrev pub or_database :
    Bool → Time → Uuid → String → RuleStore → Option (List Workflow) → List Workflow × RuleStore
or_database up now b trigger_type s (some rules) = (rules, s)
or_database up now b trigger_type s none =
    let found = get_active_by_trigger b trigger_type s.rules in
    (found, fill up now (get_cache_key b trigger_type) found s)

unfoldable pub get_active_workflows_cached :
    Bool → Bool → Time → Uuid → String → RuleStore → List Workflow × RuleStore
unfolding get_active_by_trigger
get_active_workflows_cached reads writes now b trigger_type s =
    or_database (reads && writes) now b trigger_type s
      (if reads then unexpired now (lookup (get_cache_key b trigger_type) s.cache) else none)

-- The row as the request gives it, with its new id.
unfoldable pub create_workflow : Bool → Workflow → RuleStore → Result Error (Workflow × RuleStore)
unfolding invalidate_workflow_cache
create_workflow up w s = do
  (created, rules) ← create workflow_clash w s.rules
  ok (
    created,
    invalidate_workflow_cache up w.business_id w.trigger_type (record s { rules = rules }),
  )

-- A field that is absent, or null, is not changed.
pub record WorkflowUpdate : Type 0 where
  pub name : Option String
  pub description : Option String
  pub trigger_type : Option String
  pub conditions : Option (List Condition)
  pub actions : Option (List Action)
  pub log_depth : Option LogDepth
  pub is_active : Option Bool

abbrev pub or_old {ℓ} : {A : Type ℓ} → Option A → A → A
or_old none old = old
or_old (some new_) old = new_

abbrev pub or_old_text : Option String → Option String → Option String
or_old_text none old = old
or_old_text (some new_) old = some new_

abbrev pub with_updates : WorkflowUpdate → Workflow → Workflow
with_updates p w = record w {
  name = or_old p.name w.name;
  description = or_old_text p.description w.description;
  trigger_type = or_old p.trigger_type w.trigger_type;
  is_active = or_old p.is_active w.is_active;
  log_depth = or_old p.log_depth w.log_depth;
  conditions = or_old p.conditions w.conditions;
  actions = or_old p.actions w.actions;
}

abbrev pub is_own : Uuid → Uuid → Workflow → Bool
is_own i b w = has_id i w && w.business_id == b

unfoldable pub find_workflow : Uuid → Uuid → RuleStore → Result Error Workflow
find_workflow i b s = do
  found ← get_one_by (is_own i b) s.rules
  or_raise found (init ErrorClass.not_found (some "Workflow not found."))

-- `update_workflow` up to the commit: the key of the old trigger is dropped if a trigger is given.
abbrev pub drop_old_key : Bool → Uuid → Option String → Workflow → RuleStore → RuleStore
drop_old_key up b none w s = s
drop_old_key up b (some _) w s = invalidate_workflow_cache up b w.trigger_type s

unfoldable pub begin_update : Bool → Uuid → WorkflowUpdate → Workflow → RuleStore → RuleStore
unfolding invalidate_workflow_cache
begin_update up b p w s = drop_old_key up b p.trigger_type w s

-- The commit, and the key of the trigger that the rule has then.
unfoldable pub finish_update : Bool → Uuid → WorkflowUpdate → Workflow → RuleStore → RuleStore
unfolding invalidate_workflow_cache
finish_update up b p w s =
    invalidate_workflow_cache up b (with_updates p w).trigger_type
      (record s { rules = update w.id (with_updates p) s.rules })

unfoldable pub update_workflow :
    Bool → Uuid → Uuid → WorkflowUpdate → RuleStore → Result Error (Workflow × RuleStore)
unfolding find_workflow begin_update finish_update
update_workflow up i b p s = do
  w ← find_workflow i b s
  ok (with_updates p w, finish_update up b p w (begin_update up b p w s))

unfoldable pub delete_workflow : Bool → Uuid → Uuid → RuleStore → Result Error RuleStore
unfolding find_workflow invalidate_workflow_cache
delete_workflow up i b s = do
  w ← find_workflow i b s
  ok (invalidate_workflow_cache up b w.trigger_type (record s { rules = delete w.id s.rules }))
