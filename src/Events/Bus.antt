-- ===== src/Events/Bus.antt =====
-- On `EventBus` of app/core/events.py.
use ops_pilot_be.Prelude.{
  ◌≡◌, refl, false, List, [], ◌∷◌, ◌++◌, String, string_eq, contains, Eq, if◌then◌else◌, arith,
  any-append, Bool-cases, inl, inr, ◌==◌, eq_iff,
}
use ops_pilot_be.Prelude.Dict.{lookup, lookup-insert}
use ops_pilot_be.Events.{EventBus, handlers_of, subscribe}

module _ {H : Type 0} ⦃q : Eq H⦄ where
  -- No handler is listed twice.
  abbrev pub Distinct : List H → Type 0
  Distinct [] = Unit {0}
  Distinct (h ∷ hs) = (contains h hs ≡ false) × Distinct hs

  Distinct-append :
      (hs : List H) (h : H) → contains h hs ≡ false → Distinct hs → Distinct (hs ++ h ∷ [])
  Distinct-append [] h fresh d = (refl, tt)
  Distinct-append (g ∷ hs) h fresh (new, d) = (
    rw (any-append (λ x. x == g) hs (h ∷ [])) (ground (arith, q.equal_iff h g, q.equal_iff g h)),
    Distinct-append hs h (ground arith) d,
  )

  handlers-subscribe :
      (e f : String) (h : H) (bus : EventBus H)
      → handlers_of f (subscribe e h bus) ≡ (
          if e == f
          then (if contains h (handlers_of f bus)
              then handlers_of f bus
              else handlers_of f bus ++ h ∷ [])
          else handlers_of f bus)
  unfolding subscribe
  handlers-subscribe e f h bus = elim (Bool-cases (contains h (handlers_of e bus))) [
    | inl there ↦ rw there (ground (arith, eq_iff e f, there))
    | inr new ↦ rw new (
        ground
          (arith, eq_iff e f, new, lookup-insert e f (handlers_of e bus ++ h ∷ []) bus.handlers))
  ]

  subscribe-Distinct :
      (e f : String) (h : H) (bus : EventBus H)
      → Distinct (handlers_of f bus)
      → Distinct (handlers_of f (subscribe e h bus))
  subscribe-Distinct e f h bus d = rw (handlers-subscribe e f h bus) (elim (Bool-cases (e == f)) [
    | inl same ↦ rw same (elim (Bool-cases (contains h (handlers_of f bus))) [
      | inl there ↦ rw there d
      | inr new ↦ rw new (Distinct-append (handlers_of f bus) h new d)
    ])
    | inr other ↦ rw other d
  ])

  -- A bus on which the given subscriptions were made.
  unfoldable pub subscribe_all : List (String × H) → EventBus H → EventBus H
  subscribe_all [] bus = bus
  subscribe_all ((e, h) ∷ subscriptions) bus = subscribe_all subscriptions (subscribe e h bus)

  abbrev pub new_bus : EventBus H
  new_bus = record { handlers = []; emissions_total = []; failures_total = [] }

  subscribe_all-Distinct :
      (f : String) (subscriptions : List (String × H)) (bus : EventBus H)
      → Distinct (handlers_of f bus)
      → Distinct (handlers_of f (subscribe_all subscriptions bus))
  unfolding subscribe_all
  subscribe_all-Distinct f [] bus d = d
  subscribe_all-Distinct f ((e, h) ∷ subscriptions) bus d =
      subscribe_all-Distinct f subscriptions (subscribe e h bus) (subscribe-Distinct e f h bus d)

  -- After any sequence of subscriptions on a new bus, no event type lists a handler twice.
  pub subscribe_all-Distinct_new :
      (f : String) (subscriptions : List (String × H))
      → Distinct (handlers_of f (subscribe_all subscriptions new_bus))
  subscribe_all-Distinct_new f subscriptions =
      subscribe_all-Distinct f subscriptions new_bus (unfold lookup in tt)
