-- ===== src/EventBus.antt =====
-- utils/event_bus.go: subscribers by topic and id. A handler stands as a value of a type `H`, and
-- `Publish` as a relation between the bus and the handlers that are called: Go goes through a map in
-- an order that it leaves open. The mutex makes each call one step.
pub mod Delivery
pub mod Tests
use antimony_backend.Base.{
  Eq, ◌==◌, nat_eq, string_eq, ==_refl, ltb, leb, nat_beq, if◌then◌else◌, ltb→lt, leb→le, ltb-of_lt,
  ltb-of_le, nat_beq_iff, Bool-cases, Option-cases, some-injective, split_option, ◌>>=◌, length,
  get_elem?, take, drop, replicate, store, length-append, length-take, length-drop,
  length-replicate, take-append-drop, take_all, drop_all, drop-append, drop-drop, get_elem?-some,
  Stores, store-some, All, In, All-In, All-of_In, All-imp, All-append, In-append_left,
  In-append_right, lookup, put, delete, Map, lookup-put, lookup-delete, lookup-put_self,
  lookup-put_ne, lookup-delete_self, lookup-delete_ne, lookup-put-some, lookup-delete-some, ℕ, zero,
  suc, ◌+◌, ◌-◌, ◌*◌, ◌/◌, ◌%◌, ◌^◌, ◌≤◌, ◌<◌, min, String, ◌≡◌, refl, sym, ap, subst, ◌∙◌, ◌≢◌,
  ◌↔◌, ◌⊎◌, inl, inr, Bool, true, false, not, ◌&&◌, ◌||◌, Option, none, some, List, [], ◌∷◌, ◌++◌,
  map, append-nil, append_assoc, arith,
}
use mathlib.Core.List.{Perm}

pub record EventBus {ℓ} (H : Type ℓ) : Type ℓ where
  pub next_id : ℕ  -- uint64
  pub subscribers : Map String (Map ℕ H)

-- What `Subscribe` returns is a function of the topic and the id.
pub record Subscription : Type 0 where
  pub topic : String
  pub id : ℕ

module _ {ℓ} {H : Type ℓ} where
  unfoldable pub create_event_bus : EventBus H
  create_event_bus = record { next_id = 0; subscribers = [] }

  -- A nil inner map reads as an empty one.
  unfoldable pub handlers : EventBus H → String → Map ℕ H
  handlers b topic = elim (lookup topic b.subscribers) [ none ↦ [] | some m ↦ m ]

  -- The calls of one `Publish`: each handler of the topic once, in any order.
  unfoldable pub Publishes : EventBus H → String → List H → Type ℓ
  unfolding handlers
  Publishes b topic calls = Perm calls (map (λ e. e.1) (handlers b topic))

  unfoldable pub subscribe : EventBus H → String → H → EventBus H × Subscription
  unfolding handlers
  subscribe b topic handler =
      let id = (b.next_id + 1) % 2 ^ 64 in
      (
        record {
          next_id = id;
          subscribers = put topic (put id handler (handlers b topic)) b.subscribers;
        },
        record { topic = topic; id = id },
      )

  -- The function that `Subscribe` returns.
  unfoldable pub unsubscribe : EventBus H → Subscription → EventBus H
  unsubscribe b sub = elim (lookup sub.topic b.subscribers) [
    | none ↦ b
    | some m ↦
        let rest = delete sub.id m in
        record b {
          subscribers =
              if length rest == 0
              then delete sub.topic b.subscribers
              else put sub.topic rest b.subscribers;
        }
  ]
