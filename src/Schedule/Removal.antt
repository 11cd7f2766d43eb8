-- ===== src/Schedule/Removal.antt =====
-- When the map speaks for the whole queue, and what a removal and a scheduling do to it.
use antimony_backend.Base.{
  ◌==◌, nat_eq, string_eq, nat_beq_iff, Bool-cases, Option-cases, All, In, All-In, All-of_In,
  All-imp, lookup, lookup-put_self, lookup-put_ne, lookup-delete_ne, ℕ, String, ◌≡◌, refl, sym, ap,
  subst, ◌∙◌, ◌≢◌, ◌↔◌, ◌⊎◌, inl, inr, Option, none, some, List, [], ◌∷◌,
}
use antimony_backend.Schedule.{Pointer, Schedule, schedule_item, remove_key}
use antimony_backend.Schedule.Order.{ordered_insert, erase_address}
use antimony_backend.Schedule.Invariant.{
  IsFresh, Distinct, IsValid, All-ordered_insert, All-erase_address, In-ordered_insert,
  In-erase_address,
}
use antimony_backend.Schedule.Operations.{
  In-same_address, schedule_item-inserted, remove_key-removed, removed, removed-IsValid,
  remove_key-none, schedule_item-none,
}

-- Erasing the address of an item leaves only items with other addresses.
IsFresh-erase_address :
    {T : Type 0} (a : ℕ) (ps : List (Pointer T)) → Distinct ps → IsFresh a (erase_address a ps)
unfolding erase_address
IsFresh-erase_address a [] d = tt
IsFresh-erase_address a (p ∷ ps) d = elim (Bool-cases (p.address == a)) [
  | inl e ↦ rw e (subst (λ b. IsFresh b ps) ((nat_beq_iff p.address a).0 e) d.0)
  | inr e ↦
      rw e ((λ h. absurd (cc ((nat_beq_iff p.address a).1 h))), IsFresh-erase_address a ps d.1)
]

module _ {T : Type 0} (key_getter : T → String) (time_getter : T → Option ℕ) where
  abbrev Valid : Schedule T → Type 0
  Valid s = IsValid key_getter time_getter s

  -- Every queued item is the one that the map gives for its key.
  pub record IsExact (s : Schedule T) : Type 0 where
    pub entries : All (λ p. lookup (key_getter p.value) s.schedule_map ≡ some p) s.schedule

  removed-IsExact :
      (s : Schedule T) (key : String) (p : Pointer T)
      → Valid s
      → IsExact s
      → lookup key s.schedule_map ≡ some p
      → All
          (λ q.
            (lookup (key_getter q.value) (removed key_getter time_getter s key p).schedule_map
              ≡ some q)
            × (key_getter q.value ≢ key))
          (removed key_getter time_getter s key p).schedule
  removed-IsExact s key p v x e = All-of_In _ (erase_address p.address s.schedule) λ q m.
      let fresh = All-In _ _ q (IsFresh-erase_address p.address s.schedule v.distinct) m in
      let entry =
        All-In _ _ q (All-erase_address key_getter time_getter _ p.address s.schedule x.entries)
          m in
      let other : key_getter q.value ≢ key = λ w. fresh (
        ap (λ o. elim o [ none ↦ q.address | some r ↦ r.address ])
          (sym entry ∙ ap (λ k. lookup k s.schedule_map) w ∙ e)) in
      (lookup-delete_ne key _ s.schedule_map (λ w. other (sym w)) ∙ entry, other)

  -- What the removal of a key does.
  pub record Removes (s : Schedule T) (key : String) : Type 0 where
    pub after : Schedule T
    pub returns : remove_key key_getter time_getter s key ≡ some after
    pub valid : Valid after
    pub exact : IsExact after
    pub absent : All (λ q. key_getter q.value ≢ key) after.schedule
    pub rest : (q : Pointer T) → In q after.schedule → In q s.schedule
    pub kept : (q : Pointer T) → In q s.schedule → key_getter q.value ≢ key → In q after.schedule
    pub fresh : (a : ℕ) → IsFresh a s.schedule → IsFresh a after.schedule

  pub remove_key-Removes : (s : Schedule T) (key : String) → Valid s → IsExact s → Removes s key
  remove_key-Removes s key v x = elim (Option-cases (lookup key s.schedule_map)) [
    | inl e ↦ record {
      after = s;
      returns = remove_key-none key_getter time_getter s key e;
      valid = v;
      exact = x;
      absent =
          All-imp _ _ s.schedule
            (λ q (h : lookup (key_getter q.value) s.schedule_map ≡ some q) w.
              absurd (cc (sym h ∙ ap (λ k. lookup k s.schedule_map) w ∙ e)))
            x.entries;
      rest = λ q m. m;
      kept = λ q m other. m;
      fresh = λ a f. f;
    }
    | inr (p, e) ↦
        let both = removed-IsExact s key p v x e in
        record {
          after = removed key_getter time_getter s key p;
          returns = remove_key-removed key_getter time_getter s key p v e;
          valid = removed-IsValid key_getter time_getter s key p v e;
          exact = record {
            entries = All-imp _ _ (erase_address p.address s.schedule) (λ q h. h.0) both;
          };
          absent = All-imp _ _ (erase_address p.address s.schedule) (λ q h. h.1) both;
          rest = λ q. All-In _ (erase_address p.address s.schedule) q (
              All-erase_address key_getter time_getter (λ r. In r s.schedule) p.address s.schedule
                (All-of_In _ s.schedule (λ r m. m)));
          kept = λ q m other.
              In-erase_address key_getter time_getter p.address q s.schedule m (λ same.
                let (queued, w) = v.mapped key p e in
                other (
                  ap (λ r. key_getter r.value)
                    (In-same_address s.schedule q p v.distinct m queued same)
                  ∙ w));
          fresh = λ a f. All-erase_address key_getter time_getter _ p.address s.schedule f;
        }
  ]

  -- An item whose key no queued item has.
  pub schedule_item-IsExact :
      (s : Schedule T) (item : Pointer T)
      → Valid s
      → IsExact s
      → All (λ q. key_getter q.value ≢ key_getter item.value) s.schedule
      → IsExact (schedule_item key_getter time_getter s item)
  schedule_item-IsExact s item v x absent = elim (Option-cases (time_getter item.value)) [
    | inl e ↦ rw (schedule_item-none key_getter time_getter s item e) x
    | inr (t, e) ↦ rw (schedule_item-inserted key_getter time_getter s item t v e) (record {
      entries =
          All-ordered_insert key_getter time_getter _ item s.schedule
            (lookup-put_self (key_getter item.value) item s.schedule_map)
            (All-of_In _ s.schedule λ q m.
              lookup-put_ne (key_getter item.value) (key_getter q.value) item s.schedule_map
                (λ w. All-In _ s.schedule q absent m (sym w))
              ∙ All-In _ s.schedule q x.entries m);
    })
  ]

  -- Scheduling adds an item that has a time, and nothing else.
  pub In-schedule_item :
      (s : Schedule T) (item q : Pointer T)
      → Valid s
      → In q (schedule_item key_getter time_getter s item).schedule
        ↔ (((q ≡ item) × (time_getter item.value ≢ none)) ⊎ In q s.schedule)
  In-schedule_item s item q v = elim (Option-cases (time_getter item.value)) [
    | inl e ↦
        rw (schedule_item-none key_getter time_getter s item e)
          (inr, λ m. elim m [ inl (w, timed) ↦ absurd (timed e) | inr there ↦ there ])
    | inr (t, e) ↦
        let timed : time_getter item.value ≢ none = λ n. absurd (cc (sym e ∙ n)) in
        rw (schedule_item-inserted key_getter time_getter s item t v e) (
          All-In (λ r. ((r ≡ item) × (time_getter item.value ≢ none)) ⊎ In r s.schedule)
              (ordered_insert key_getter time_getter item s.schedule) q
              (All-ordered_insert key_getter time_getter _ item s.schedule (inl (refl, timed))
                (All-of_In _ s.schedule (λ r m. inr m))),
          λ m.
              In-ordered_insert key_getter time_getter item q s.schedule
                (elim m [ inl (w, h) ↦ inl (sym w) | inr there ↦ inr there ]),
        )
  ]
