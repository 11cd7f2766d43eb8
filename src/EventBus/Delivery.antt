-- ===== src/EventBus/Delivery.antt =====
-- Who hears a published value.
use antimony_backend.Base.{
  ◌==◌, nat_eq, string_eq, ==_refl, if◌then◌else◌, nat_beq_iff, Bool-cases, Option-cases, length,
  lookup, put, delete, Map, lookup-put, lookup-delete, lookup-put_ne, ℕ, suc, ◌+◌, ◌%◌, ◌^◌, ◌<◌,
  String, ◌≡◌, refl, sym, ap, subst, ◌∙◌, ◌↔◌, ◌⊎◌, inl, inr, true, false, ◌&&◌, none, some, List,
  [], ◌∷◌, ◌++◌, map, arith,
}
use mathlib.Core.List.{Perm, perm_append_singleton}
use mathlib.Core.List.Perm
use native.Mathlib.Nat.{mod-eq_of_lt}
use antimony_backend.EventBus.{EventBus, Subscription, handlers, Publishes, subscribe, unsubscribe}

module _ {H : Type 0} where
  -- No id above the counter is in use.
  abbrev pub IsFresh : EventBus H → Type 0
  IsFresh b = (topic : String) (id : ℕ) → b.next_id < id → lookup id (handlers b topic) ≡ none

  put_absent : (k : ℕ) (h : H) (m : Map ℕ H) → lookup k m ≡ none → put k h m ≡ m ++ (k, h) ∷ []
  unfolding lookup put
  put_absent k h [] e = refl
  put_absent k h ((j, g) ∷ m) e = ground (arith, put_absent k h m)

  delete_last : (k : ℕ) (h : H) (m : Map ℕ H) → lookup k m ≡ none → delete k (m ++ (k, h) ∷ []) ≡ m
  unfolding lookup delete
  delete_last k h [] e = ground arith
  delete_last k h ((j, g) ∷ m) e = ground (arith, delete_last k h m)

  map-values-append :
      (m n : Map ℕ H) → map (λ e. e.1) (m ++ n) ≡ map (λ e. e.1) m ++ map (λ e. e.1) n
  map-values-append [] n = refl
  map-values-append (e ∷ m) n = ap (◌∷◌ e.1) (map-values-append m n)

  handlers-subscribe :
      (b : EventBus H) (topic t : String) (handler : H)
      → handlers (subscribe b topic handler).0 t ≡ (
          if topic == t
          then put ((b.next_id + 1) % 2 ^ 64) handler (handlers b topic)
          else handlers b t)
  unfolding subscribe
  handlers-subscribe b topic t handler = elim (Bool-cases (topic == t)) [
    | inl e ↦ rw (e, handlers, lookup-put, e)
    | inr e ↦ rw (e, handlers, lookup-put, e)
  ]

  -- With the ids in use at most the counter, and the counter below its wrap: after `Subscribe` a
  -- `Publish` on the topic may call exactly the earlier handlers and the new one, each once and in
  -- any order, and a `Publish` on any other topic exactly those it could call before; and the ids
  -- in use stay at most the counter.
  pub publish-subscribe :
      (b : EventBus H) (topic t : String) (handler : H) (earlier : List H)
      → IsFresh b
      → b.next_id + 1 < 2 ^ 64
      → Publishes b t earlier
      → ((calls : List H)
          → Publishes (subscribe b topic handler).0 t calls
            ↔ Perm calls (if topic == t then handler ∷ earlier else earlier))
        × IsFresh (subscribe b topic handler).0
  unfolding Publishes
  publish-subscribe b topic t handler earlier f h before = (
    (λ calls. (
      λ p. Perm.trans p (heard (Bool-cases (topic == t))),
      λ p. Perm.trans p (Perm.symm (heard (Bool-cases (topic == t)))),
    )),
    fresh,
  )
    where
      id_eq : (b.next_id + 1) % 2 ^ 64 ≡ b.next_id + 1
      id_eq = mod-eq_of_lt h

      appended :
          put (b.next_id + 1) handler (handlers b topic)
          ≡ handlers b topic ++ (b.next_id + 1, handler) ∷ []
      appended =
          put_absent (b.next_id + 1) handler (handlers b topic)
            (f topic (b.next_id + 1) (omega arith))

      heard :
          ((topic == t) ≡ true) ⊎ ((topic == t) ≡ false)
          → Perm
              (map (λ e. e.1) (handlers (subscribe b topic handler).0 t))
              (if topic == t then handler ∷ earlier else earlier)
      heard (inl e) =
          let same : topic ≡ t = (string_eq.equal_iff topic t).0 e in
          let here : Perm earlier (map (λ e. e.1) (handlers b topic)) =
            subst (λ u. Perm earlier (map (λ e. e.1) (handlers b u))) (sym same) before in
          rw (handlers-subscribe, e, id_eq, appended, map-values-append)
            (Perm.trans (perm_append_singleton handler _) (Perm.cons handler (Perm.symm here)))
      heard (inr e) = rw (handlers-subscribe, e) (Perm.symm before)

      counter : (subscribe b topic handler).0.next_id ≡ b.next_id + 1
      counter = unfold subscribe in id_eq

      fresh : IsFresh (subscribe b topic handler).0
      fresh u id above =
          let l : b.next_id + 1 < id = omega (arith, counter) in
          elim (Bool-cases (topic == u)) [
            | inl e ↦
                rw (handlers-subscribe, e, id_eq)
                  (lookup-put_ne (b.next_id + 1) id handler (handlers b topic) (omega arith)
                    ∙ f topic id (omega arith))
            | inr e ↦ rw (handlers-subscribe, e) (f u id (omega arith))
          ]

  nil_of_length : (m : Map ℕ H) → (length m == 0) ≡ true → m ≡ []
  nil_of_length [] e = refl
  nil_of_length (x ∷ m) e = absurd (omega (arith, (nat_beq_iff (suc (length m)) 0).0 e))

  handlers-unsubscribe :
      (b : EventBus H) (sub : Subscription) (t : String)
      → handlers (unsubscribe b sub) t
        ≡ (if sub.topic == t then delete sub.id (handlers b sub.topic) else handlers b t)
  unfolding unsubscribe handlers
  handlers-unsubscribe b sub t = elim (Option-cases (lookup sub.topic b.subscribers)) [
    | inl e ↦ rw (e, unsubscribe) (absent e (Bool-cases (sub.topic == t)))
    | inr (m, e) ↦
        rw (e, unsubscribe)
          (present m e (Bool-cases (length (delete sub.id m) == 0)) (Bool-cases (sub.topic == t)))
  ]
    where
      absent :
          lookup sub.topic b.subscribers ≡ none
          → ((sub.topic == t) ≡ true) ⊎ ((sub.topic == t) ≡ false)
          → handlers b t
            ≡ (if sub.topic == t then delete sub.id (handlers b sub.topic) else handlers b t)
      absent e (inl same) =
          let t_eq : t ≡ sub.topic = sym ((string_eq.equal_iff sub.topic t).0 same) in
          let none_here : handlers b sub.topic ≡ [] = rw (handlers, e) in
          rw same (ap (handlers b) t_eq ∙ none_here ∙ rw none_here (unfold delete in refl))
      absent e (inr other) = rw other

      present :
          (m : Map ℕ H)
          → lookup sub.topic b.subscribers ≡ some m
          → ((length (delete sub.id m) == 0) ≡ true) ⊎ ((length (delete sub.id m) == 0) ≡ false)
          → ((sub.topic == t) ≡ true) ⊎ ((sub.topic == t) ≡ false)
          → handlers
              (record b {
                subscribers =
                    if length (delete sub.id m) == 0
                    then delete sub.topic b.subscribers
                    else put sub.topic (delete sub.id m) b.subscribers;
              })
              t
            ≡ (if sub.topic == t then delete sub.id (handlers b sub.topic) else handlers b t)
      present m e (inl empty) (inl same) =
          rw (empty, handlers, lookup-delete, same, e) (sym (nil_of_length _ empty))
      present m e (inl empty) (inr other) = rw (empty, handlers, lookup-delete, other)
      present m e (inr left) (inl same) = rw (left, handlers, lookup-put, same, e)
      present m e (inr left) (inr other) = rw (left, handlers, lookup-put, other)

  -- The function that `Subscribe` returns takes away its own handler alone: afterwards the topic's
  -- handlers under other ids and the handlers of the other topics are what they were, and its own
  -- id has none.
  pub lookup-unsubscribe :
      (b : EventBus H) (sub : Subscription) (t : String) (id : ℕ)
      → lookup id (handlers (unsubscribe b sub) t)
        ≡ (if (sub.topic == t) && (sub.id == id) then none else lookup id (handlers b t))
  lookup-unsubscribe b sub t id = elim (Bool-cases (sub.topic == t)) [
    | inl e ↦
        rw (handlers-unsubscribe, e)
          (lookup-delete sub.id id (handlers b sub.topic)
            ∙ ap (λ u. if sub.id == id then none else lookup id (handlers b u))
                ((string_eq.equal_iff sub.topic t).0 e))
    | inr e ↦ rw (handlers-unsubscribe, e)
  ]

  -- Subscribing and unsubscribing again restores the handlers of every topic, with their ids, and so
  -- what every topic delivers, with the ids in use at most the counter and the counter below its
  -- wrap.
  pub unsubscribe-subscribe :
      (b : EventBus H) (topic t : String) (handler : H)
      → IsFresh b
      → b.next_id + 1 < 2 ^ 64
      → let (b', sub) = subscribe b topic handler in
        (handlers (unsubscribe b' sub) t ≡ handlers b t)
        × (Publishes (unsubscribe b' sub) t ≡ Publishes b t)
  unfolding Publishes
  unsubscribe-subscribe b topic t handler f h =
      (restored, ap (λ m calls. Perm calls (map (λ e. e.1) m)) restored)
    where
      id_eq : (b.next_id + 1) % 2 ^ 64 ≡ b.next_id + 1
      id_eq = mod-eq_of_lt h

      taken_back :
          delete (b.next_id + 1) (handlers (subscribe b topic handler).0 topic) ≡ handlers b topic
      taken_back =
          rw (handlers-subscribe, ==_refl topic, id_eq)
            (ap (delete (b.next_id + 1)) (
                put_absent (b.next_id + 1) handler (handlers b topic)
                  (f topic (b.next_id + 1) (omega arith)))
              ∙ delete_last (b.next_id + 1) handler (handlers b topic)
                  (f topic (b.next_id + 1) (omega arith)))

      its_id : (subscribe b topic handler).1.id ≡ b.next_id + 1
      its_id = unfold subscribe in id_eq

      its_topic : (subscribe b topic handler).1.topic ≡ topic
      its_topic = unfold subscribe in refl

      restored :
          handlers (unsubscribe (subscribe b topic handler).0 (subscribe b topic handler).1) t
          ≡ handlers b t
      restored = elim (Bool-cases (topic == t)) [
        | inl e ↦
            rw (handlers-unsubscribe, its_topic, its_id, e)
              (taken_back ∙ ap (handlers b) ((string_eq.equal_iff topic t).0 e))
        | inr e ↦ rw (handlers-unsubscribe, its_topic, e, handlers-subscribe, e)
      ]
