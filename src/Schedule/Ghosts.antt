-- ===== src/Schedule/Ghosts.antt =====
-- `Schedule` of a key that is already scheduled leaves the old pointer in the queue, where the map
-- no longer knows it.
use antimony_backend.Base.{
  nat_eq, string_eq, In, All-In, lookup, lookup-put_self, lookup-delete_self, ℕ, String, ◌≡◌, subst,
  inr, false, Option, some,
}
use antimony_backend.Schedule.{Pointer, Schedule, schedule_item, remove, is_scheduled}
use antimony_backend.Schedule.Invariant.{IsFresh, IsValid, In-ordered_insert, In-erase_address}
use antimony_backend.Schedule.Operations.{
  schedule_item-inserted, schedule_item-IsValid, remove_key-removed, inserted, removed,
}

module _ {T : Type 0} (key_getter : T → String) (time_getter : T → Option ℕ) where
  -- On a valid queue, a second item with a time goes in under a key that the map has, and the key
  -- is removed: both calls return, the first pointer is still queued, and `IsScheduled` of its key
  -- is false.
  pub ghost :
      (s : Schedule T) (p item : Pointer T) (t : ℕ)
      → IsValid key_getter time_getter s
      → lookup (key_getter item.value) s.schedule_map ≡ some p
      → time_getter item.value ≡ some t
      → IsFresh item.address s.schedule
      → (s' : Schedule T) × (remove key_getter time_getter
            (schedule_item key_getter time_getter s item)
            (key_getter item.value)
          ≡ some s')
        × In p s'.schedule
        × (is_scheduled key_getter time_getter s' (key_getter item.value) ≡ false)
  unfolding remove is_scheduled
  ghost s p item t v e h f = (
    removed key_getter time_getter after (key_getter item.value) item,
    rw scheduled
        (remove_key-removed key_getter time_getter after (key_getter item.value) item valid new),
    In-erase_address key_getter time_getter item.address p after.schedule
        (In-ordered_insert key_getter time_getter item p s.schedule (inr held))
        (All-In _ s.schedule p f held),
    rw (lookup-delete_self (key_getter item.value) after.schedule_map, is_scheduled),
  )
    where
      after : Schedule T
      after = inserted key_getter time_getter s item

      scheduled : schedule_item key_getter time_getter s item ≡ after
      scheduled = schedule_item-inserted key_getter time_getter s item t v h

      valid : IsValid key_getter time_getter after
      valid =
          subst (IsValid key_getter time_getter) scheduled
            (schedule_item-IsValid key_getter time_getter s item v f)

      new : lookup (key_getter item.value) after.schedule_map ≡ some item
      new = lookup-put_self (key_getter item.value) item s.schedule_map

      held : In p s.schedule
      held = (v.mapped (key_getter item.value) p e).0
