-- ===== src/EventBus/Tests.antt =====
-- Runs of the bus; handlers are numbers.
use antimony_backend.Base.{nat_eq, string_eq, lookup, put, ℕ, ◌≡◌, refl, ◌↔◌, List, [], ◌∷◌, arith}
use mathlib.Core.List.{Perm}
use mathlib.Core.List.Perm
use antimony_backend.EventBus.{
  EventBus, Subscription, create_event_bus, handlers, Publishes, subscribe, unsubscribe,
}
use antimony_backend.EventBus.Delivery.{IsFresh, publish-subscribe, unsubscribe-subscribe}

abbrev bus : EventBus ℕ
bus = record { next_id = 1; subscribers = ("lab.created", (1, 7) ∷ []) ∷ [] }

bus_built : (subscribe create_event_bus "lab.created" 7).0 ≡ bus
unfolding subscribe create_event_bus lookup put
bus_built = refl

bus-IsFresh : IsFresh bus
unfolding handlers lookup
bus-IsFresh topic id h = ground arith

publish-subscribe_example :
    ((calls : List ℕ)
      → Publishes (subscribe bus "lab.created" 8).0 "lab.created" calls ↔ Perm calls (8 ∷ 7 ∷ []))
    × IsFresh (subscribe bus "lab.created" 8).0
unfolding Publishes handlers lookup
publish-subscribe_example =
    publish-subscribe bus "lab.created" "lab.created" 8 (7 ∷ []) bus-IsFresh (omega arith)
      (Perm.refl (7 ∷ []))

abbrev first : Subscription
first = record { topic = "lab.created"; id = 1 }

unsubscribe-subscribe_example :
    let (b', sub) = subscribe bus "lab.moved" 9 in
    (handlers (unsubscribe b' sub) "lab.created" ≡ handlers bus "lab.created")
    × (Publishes (unsubscribe b' sub) "lab.created" ≡ Publishes bus "lab.created")
unsubscribe-subscribe_example =
    unsubscribe-subscribe bus "lab.moved" "lab.created" 9 bus-IsFresh (omega arith)
