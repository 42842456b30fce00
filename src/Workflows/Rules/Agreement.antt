-- ===== src/Workflows/Rules/Agreement.antt =====
-- The agreement of the cache of app/modules/workflows/triggers.py with the table of rules.
use ops_pilot_be.Prelude.{
  ◌≡◌, ◌≢◌, ◌⊎◌, refl, sym, ap, ◌∙◌, false, none, some, List, Bool-cases, inl, inr, ◌==◌, nat_eq,
  string_eq,
}
use ops_pilot_be.Prelude.Dict.{lookup, insert, erase, lookup-erase, lookup-insert}
use ops_pilot_be.Auth.Models.{Time}
use ops_pilot_be.Workflows.Engine.{Workflow}
use ops_pilot_be.Workflows.Rules.{
  workflow_model, CacheKey, key_beq_iff, key_eq, get_cache_key, Cache, is_active_for,
  get_active_by_trigger,
}

abbrev pub active : CacheKey → List Workflow → List Workflow
active (b, t) rules = get_active_by_trigger b t rules

-- Whatever is cached is what the database has.
abbrev pub Agrees : Cache → List Workflow → Type 0
Agrees c rules =
    (k : CacheKey) (v : List Workflow) (u : Time) → lookup k c ≡ some (v, u) → v ≡ active k rules

-- Where the rules of the other keys are as before, dropping one key keeps the agreement.
pub erase-Agrees :
    (key : CacheKey) (c : Cache) (rules rules' : List Workflow)
    → Agrees c rules
    → ((k : CacheKey) → key ≢ k → (lookup k c ≡ none) ⊎ (active k rules' ≡ active k rules))
    → Agrees (erase key c) rules'
erase-Agrees key c rules rules' agrees others k v u e =
    let e' = rw (lookup-erase key k c) at e in
    elim (Bool-cases (key == k)) [
      | inl same ↦ cc (rw same at e')
      | inr other ↦
          let cached : lookup k c ≡ some (v, u) = rw other at e' in
          elim (others k (λ same. let here = (key_beq_iff key k).1 same in cc)) [
            | inl nothing ↦ cc
            | inr before ↦ agrees k v u cached ∙ sym before
          ]
    ]

pub insert-Agrees :
    (key : CacheKey) (u : Time) (c : Cache) (rules : List Workflow)
    → Agrees c rules
    → Agrees (insert key (active key rules, u) c) rules
insert-Agrees key u c rules agrees k v u' e =
    let e' = rw (lookup-insert key k (active key rules, u) c) at e in
    elim (Bool-cases (key == k)) [
      | inl same ↦
          let here : key ≡ k = (key_beq_iff key k).0 same in
          let value : active key rules ≡ v = cc (rw same at e') in
          sym value ∙ ap (λ (j : CacheKey). active j rules) here
      | inr other ↦ agrees k v u' (rw other at e')
    ]

-- A rule of another key is not among the active ones.
pub other-key :
    (k : CacheKey) (w : Workflow)
    → get_cache_key w.business_id w.trigger_type ≢ k
    → is_active_for k.0 k.1 w ≡ false
other-key (b, t) w ne = elim (Bool-cases (w.business_id == b)) [
  | inr h ↦ rw h refl
  | inl h ↦ elim (Bool-cases (w.trigger_type == t)) [
    | inr h' ↦ rw (h, h') refl
    | inl h' ↦
        absurd (ne ((key_beq_iff (w.business_id, w.trigger_type) (b, t)).0 (rw (h, h') refl)))
  ]
]
