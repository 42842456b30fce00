-- ===== src/Workflows/Rules/Coherence.antt =====
-- On the cache of active rules in app/modules/workflows/triggers.py, under the requests of
-- app/modules/workflows/routes.py.
use mathlib.Core.Path.{subst}
use ops_pilot_be.Prelude.{
  not, Option-cases, ◌≡◌, ◌≢◌, ◌⊎◌, refl, sym, ap, ◌∙◌, true, false, none, some, List, [], ◌∷◌,
  ◌++◌, String, ok, arith, filter, filter-append, append-nil, All, All-imp, Bool-cases, inl, inr,
  ◌==◌, nat_eq, string_eq, bind-ok, or_raise, or_raise-ok, result-cases, length-filter-le,
}
use ops_pilot_be.Prelude.Dict.{lookup, lookup-erase}
use ops_pilot_be.Exceptions.{ErrorClass, init}
use ops_pilot_be.Repository.{Uuid, get_one_by, update, delete, has_id}
use ops_pilot_be.Repository.Rows.{
  AtMostOne, AtMostOne-create, get_one_by-some, length-filter-update, insertion, refused, stored,
}
use ops_pilot_be.Repository.Unique.{
  filter-filter, only-get_one_by, filter-update_outside, filter-delete_outside,
}
use ops_pilot_be.Workflows.Engine.{Workflow}
use ops_pilot_be.Workflows.Rules.{
  workflow_model, workflow_clash, CacheKey, key_beq_iff, key_eq, get_cache_key, RuleStore,
  is_active_for, get_active_by_trigger, invalidate_workflow_cache, create_workflow, WorkflowUpdate,
  with_updates, is_own, find_workflow, begin_update, finish_update, update_workflow,
  delete_workflow,
}
use ops_pilot_be.Workflows.Rules.Agreement.{active, Agrees, erase-Agrees, other-key}

abbrev pub UniqueIds : List Workflow → Type 0
UniqueIds rules = (i : Uuid) → AtMostOne (has_id i) rules

find_workflow-ok :
    (i b : Uuid) (s : RuleStore) (w : Workflow)
    → find_workflow i b s ≡ ok w
    → get_one_by (is_own i b) s.rules ≡ ok (some w)
unfolding find_workflow
find_workflow-ok i b s w e =
    let (o, got, raised) =
      bind-ok (get_one_by (is_own i b) s.rules)
        (λ o. or_raise o (init ErrorClass.not_found (some "Workflow not found."))) w e in
    rw (← or_raise-ok o (init ErrorClass.not_found (some "Workflow not found.")) w raised) got

own-ids : (i b : Uuid) (w : Workflow) → is_own i b w ≡ true → (w.id ≡ i) × (w.business_id ≡ b)
own-ids i b w h = ground (arith)

-- The row that is found is the only one with its id.
only-found :
    (i b : Uuid) (s : RuleStore) (w : Workflow)
    → UniqueIds s.rules
    → find_workflow i b s ≡ ok w
    → (w.business_id ≡ b) × All (λ r. has_id w.id r ≡ true → r ≡ w) s.rules
only-found i b s w unique e =
    let got = find_workflow-ok i b s w e in
    let (here, mine) = own-ids i b w (get_one_by-some (is_own i b) s.rules w got) in
    (
      mine,
      subst (λ j. All (λ r. has_id j r ≡ true → r ≡ w) s.rules) (sym here)
          (only-get_one_by (has_id i) (λ (r : Workflow). r.business_id == b) s.rules w (unique i)
            got),
    )

pub record Sound (s : RuleStore) : Type 0 where
  pub agrees : Agrees s.cache s.rules
  pub unique : UniqueIds s.rules

invalidate-Sound :
    (b : Uuid) (trigger_type : String) (s : RuleStore) (rules' : List Workflow)
    → Agrees s.cache s.rules
    → UniqueIds rules'
    → ((k : CacheKey)
        → get_cache_key b trigger_type ≢ k
        → (lookup k s.cache ≡ none) ⊎ (active k rules' ≡ active k s.rules))
    → Sound (invalidate_workflow_cache true b trigger_type (record s { rules = rules' }))
unfolding invalidate_workflow_cache
invalidate-Sound b trigger_type s rules' agrees unique others = record {
  agrees = erase-Agrees (get_cache_key b trigger_type) s.cache s.rules rules' agrees others;
  unique = unique;
}

pub create_workflow-Sound :
    (w w' : Workflow) (s s' : RuleStore)
    → Sound s
    → create_workflow true w s ≡ ok (w', s')
    → Sound s'
unfolding create_workflow
create_workflow-Sound w w' s s' sound e = elim (insertion workflow_clash w s.rules) [
  | refused h ↦ cc (rw h at e)
  | stored h none_ ↦
      let left : s'
          ≡ invalidate_workflow_cache true w.business_id w.trigger_type
              (record s { rules = s.rules ++ w ∷ [] }) =
        cc (rw h at e) in
      rw left (
        invalidate-Sound w.business_id w.trigger_type s (s.rules ++ w ∷ []) sound.agrees
          (λ i.
            AtMostOne-create (has_id i) workflow_clash w s.rules (λ x h k. ground arith)
              (sound.unique i) none_)
          (λ k ne. inr (
            unfold get_active_by_trigger in
            rw (filter-append (is_active_for k.0 k.1) s.rules (w ∷ []), other-key k w ne)
              (append-nil (filter (is_active_for k.0 k.1) s.rules)))))
]

delete-UniqueIds : (i : Uuid) (rules : List Workflow) → UniqueIds rules → UniqueIds (delete i rules)
unfolding delete
delete-UniqueIds i rules unique j =
    rw (filter-filter (has_id j) (λ (r : Workflow). not (has_id i r)) rules) (
      omega (
        arith,
        unique j,
        length-filter-le (λ (r : Workflow). not (has_id i r)) (filter (has_id j) rules),
      ))

pub delete_workflow-Sound :
    (i b : Uuid) (s s' : RuleStore) → Sound s → delete_workflow true i b s ≡ ok s' → Sound s'
unfolding delete_workflow
delete_workflow-Sound i b s s' sound e = elim (result-cases (find_workflow i b s)) [
  | inl (x, h) ↦ cc (rw h at e)
  | inr (w, h) ↦
      let (mine, only) = only-found i b s w sound.unique h in
      let left : s'
          ≡ invalidate_workflow_cache true b w.trigger_type
              (record s { rules = delete w.id s.rules }) =
        cc (rw h at e) in
      rw left (
        invalidate-Sound b w.trigger_type s (delete w.id s.rules) sound.agrees
          (delete-UniqueIds w.id s.rules sound.unique)
          (λ k ne. inr (
            unfold get_active_by_trigger in
            filter-delete_outside (is_active_for k.0 k.1) w.id s.rules (
              All-imp (λ r. has_id w.id r ≡ true → r ≡ w)
                (λ r. has_id w.id r ≡ true → is_active_for k.0 k.1 r ≡ false) s.rules
                (λ r same here. rw (same here) (other-key k w (rw mine ne))) only))))
]

-- After the first half of an update, the old key is gone if the rule may leave it.
begin_update-gone :
    (b : Uuid) (p : WorkflowUpdate) (w : Workflow) (s : RuleStore)
    → Agrees s.cache s.rules
    → Agrees (begin_update true b p w s).cache s.rules
      × ((begin_update true b p w s).rules ≡ s.rules)
      × ((lookup (get_cache_key b w.trigger_type) (begin_update true b p w s).cache ≡ none)
          ⊎ (w.trigger_type ≡ (with_updates p w).trigger_type))
unfolding begin_update invalidate_workflow_cache
begin_update-gone b p w s agrees = elim (Option-cases p.trigger_type) [
  | inl h ↦ rw h (agrees, refl, inr refl)
  | inr (new_, h) ↦ rw h (
    erase-Agrees (get_cache_key b w.trigger_type) s.cache s.rules s.rules agrees (λ k ne. inr refl),
    refl,
    inl (
        rw
          (
            lookup-erase (get_cache_key b w.trigger_type) (get_cache_key b w.trigger_type) s.cache,
            (key_beq_iff (get_cache_key b w.trigger_type) (get_cache_key b w.trigger_type)).1 refl,
          )
          refl),
  )
]

pub update_workflow-Sound :
    (i b : Uuid) (p : WorkflowUpdate) (w' : Workflow) (s s' : RuleStore)
    → Sound s
    → update_workflow true i b p s ≡ ok (w', s')
    → Sound s'
unfolding update_workflow finish_update
update_workflow-Sound i b p w' s s' sound e = elim (result-cases (find_workflow i b s)) [
  | inl (x, h) ↦ cc (rw h at e)
  | inr (w, h) ↦
      let (mine, only) = only-found i b s w sound.unique h in
      let (agrees, rules_same, gone) = begin_update-gone b p w s sound.agrees in
      let left : s' ≡ finish_update true b p w (begin_update true b p w s) = cc (rw h at e) in
      rw left (
        rw rules_same (
          invalidate-Sound b (with_updates p w).trigger_type
            (record (begin_update true b p w s) { rules = s.rules })
            (update w.id (with_updates p) s.rules) agrees
            (λ j.
              rw (length-filter-update (has_id j) w.id (with_updates p) s.rules (λ r. refl))
                (sound.unique j))
            (λ k ne. elim (Bool-cases (get_cache_key b w.trigger_type == k)) [
              | inl old ↦
                  let here = (key_beq_iff (get_cache_key b w.trigger_type) k).0 old in
                  elim gone [
                    | inl none_ ↦ inl (rw (← here) none_)
                    | inr same ↦
                        absurd (ne (ap (λ (t : String). get_cache_key b t) (sym same) ∙ here))
                  ]
              | inr other ↦ inr (
                  unfold get_active_by_trigger in
                  filter-update_outside (is_active_for k.0 k.1) w.id (with_updates p) s.rules (
                    All-imp (λ r. has_id w.id r ≡ true → r ≡ w)
                      (λ r.
                        has_id w.id r ≡ true
                        → (is_active_for k.0 k.1 r ≡ false)
                          × (is_active_for k.0 k.1 (with_updates p r) ≡ false))
                      s.rules
                      (λ r same id_. rw (same id_) (
                        other-key k w (
                            rw mine (λ here.
                              let yes = (key_beq_iff (get_cache_key b w.trigger_type) k).1 here in
                              cc)),
                        other-key k (with_updates p w) (rw mine ne),
                      ))
                      only))
            ])))
]
