-- ===== src/Workflows/Rules/Stale.antt =====
-- A read of the cache between the two halves of `update_workflow` of app/modules/workflows/routes.py.
use ops_pilot_be.Prelude.{
  nat_beq_iff, ◌≡◌, ◌<◌, refl, true, false, some, String, List, [], ◌∷◌, false, any, string_eq,
  arith, lt→ltb, ◌+◌, ◌*◌, ◌==◌, nat_eq, ◌≢◌, Bool-cases, inl, inr,
}
use ops_pilot_be.Prelude.Dict.{insert, erase, lookup-erase, lookup-insert_self}
use ops_pilot_be.Repository.{Uuid, update, has_id}
use ops_pilot_be.Auth.Models.{Time}
use ops_pilot_be.Auth.Tokens.{second}
use ops_pilot_be.Workflows.Engine.{Workflow}
use ops_pilot_be.Workflows.Rules.{
  workflow_model, is_active_for, key_eq, key_beq_iff, get_cache_key, RuleStore,
  get_active_by_trigger, get_active_workflows_cached, WorkflowUpdate, with_updates,
  invalidate_workflow_cache, begin_update, finish_update, cache_expiry_seconds,
}

string_ne : (a b : String) → a ≢ b → (a == b) ≡ false
string_ne a b ne = ground (arith, string_eq.equal_iff a b)

-- A rule that moves to another trigger is no longer among those of the old one.
moved-inactive :
    (i b : Uuid) (old : String) (p : WorkflowUpdate) (new_ : String) (rules : List Workflow)
    → p.trigger_type ≡ some new_
    → new_ ≢ old
    → any (has_id i) (get_active_by_trigger b old (update i (with_updates p) rules)) ≡ false
unfolding get_active_by_trigger update
moved-inactive i b old p new_ [] given_ moved = refl
moved-inactive i b old p new_ (r ∷ rules) given_ moved =
    let rest = moved-inactive i b old p new_ rules given_ moved in
    let other : (new_ == old) ≡ false = string_ne new_ old moved in
    elim (Bool-cases (has_id i r)) [
      | inl here ↦ elim (Bool-cases (r.business_id == b)) [
        | inl mine ↦ rw (here, mine, given_, other) rest
        | inr theirs ↦ rw (here, theirs) rest
      ]
      | inr other_id ↦ elim (Bool-cases (is_active_for b old r)) [
        | inl h ↦ rw (other_id, h, other_id) rest
        | inr h ↦ rw (other_id, h) rest
      ]
    ]

module _ (b : Uuid) (p : WorkflowUpdate) (w : Workflow) (s : RuleStore) (now later : Time) where
  -- The store after the first half of the update, a read, and the second half.
  abbrev pub interleaved : RuleStore
  interleaved =
      finish_update true b p w
        (get_active_workflows_cached true true now b w.trigger_type (begin_update true b p w s)).1

  read-filled :
      (new_ : String)
      → p.trigger_type ≡ some new_
      → (get_active_workflows_cached true true now b w.trigger_type (begin_update true b p w s)).1
        ≡ record {
          rules = s.rules;
          cache =
              insert
                (get_cache_key b w.trigger_type)
                (
                  get_active_by_trigger b w.trigger_type s.rules,
                  now + cache_expiry_seconds * second,
                )
                (erase (get_cache_key b w.trigger_type) s.cache);
        }
  unfolding get_active_workflows_cached begin_update invalidate_workflow_cache
  read-filled new_ given_ =
      let key = get_cache_key b w.trigger_type in
      rw (given_, lookup-erase key key s.cache, (key_beq_iff key key).1 refl) refl

-- If, with Redis up, an update moves a rule to another trigger, and a cached read of the rule's old
-- trigger falls between the invalidation of the old key and the commit, then a cached read of the
-- old trigger after the update, at a time before 24 hours from the one in between, returns the rules
-- that were active for it before the update, while no row with the rule's id is active for the old
-- trigger in the database.
pub interleaved_read-stale :
    (b : Uuid) (p : WorkflowUpdate) (w : Workflow) (new_ : String) (s : RuleStore)
    (now later : Time)
    → p.trigger_type ≡ some new_
    → new_ ≢ w.trigger_type
    → later < now + cache_expiry_seconds * second
    → ((get_active_workflows_cached true true later b w.trigger_type
          (interleaved b p w s now later)).0
        ≡ get_active_by_trigger b w.trigger_type s.rules)
      × (any
            (has_id w.id)
            (get_active_by_trigger b w.trigger_type (interleaved b p w s now later).rules)
          ≡ false)
unfolding get_active_workflows_cached finish_update invalidate_workflow_cache
interleaved_read-stale b p w new_ s now later given_ moved soon =
    let old = get_cache_key b w.trigger_type in
    let other : (new_ == w.trigger_type) ≡ false = string_ne new_ w.trigger_type moved in
    let entry : List Workflow × Time =
      (get_active_by_trigger b w.trigger_type s.rules, now + cache_expiry_seconds * second) in
    rw
      (
        read-filled b p w s now later new_ given_,
        given_,
        lookup-erase (get_cache_key b new_) old (insert old entry (erase old s.cache)),
        (nat_beq_iff b b).1 refl,
        other,
        lookup-insert_self old entry (erase old s.cache),
        lt→ltb later (now + cache_expiry_seconds * second) soon,
      )
      (
        refl,
        moved-inactive w.id b w.trigger_type (record p { trigger_type = some new_ }) new_ s.rules
            refl moved,
      )
