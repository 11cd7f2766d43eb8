-- ===== src/Policy/Walk.antt =====
-- Where a relative path leads from the topology's directory, without the cleaning of Go's
-- path/filepath: one part of the path after another.
pub mod Cleaned
pub mod Own
use antimony_backend.Base.{
  Eq, ◌==◌, nat_eq, string_eq, ==_refl, ltb, leb, nat_beq, if◌then◌else◌, ltb→lt, leb→le, ltb-of_lt,
  ltb-of_le, nat_beq_iff, Bool-cases, Option-cases, some-injective, split_option, ◌>>=◌, length,
  get_elem?, take, drop, replicate, store, length-append, length-take, length-drop,
  length-replicate, take-append-drop, take_all, drop_all, drop-append, drop-drop, get_elem?-some,
  Stores, store-some, All, In, All-In, All-of_In, All-imp, All-append, In-append_left,
  In-append_right, lookup, put, delete, Map, lookup-put, lookup-delete, lookup-put_self,
  lookup-put_ne, lookup-delete_self, lookup-delete_ne, lookup-put-some, lookup-delete-some, ℕ, zero,
  suc, ◌+◌, ◌-◌, ◌*◌, ◌/◌, ◌%◌, ◌^◌, ◌≤◌, ◌<◌, min, String, ◌≡◌, refl, sym, ap, subst, ◌∙◌, ◌≢◌,
  ◌↔◌, ◌⊎◌, inl, inr, Bool, true, false, not, ◌&&◌, ◌||◌, Option, none, some, List, [], ◌∷◌, ◌++◌,
  map, append-nil, append_assoc, arith,
}
use antimony_backend.Policy.Text.{Text, codes, text_eq, contains_func, has_prefix}
use antimony_backend.Policy.Paths.{
  slash, is_abs, split_onto, clean_part, clean_parts, join_onto, join, clean, is_local,
}
use antimony_backend.Policy.Checker.{is_own_file}

-- From a directory below the topology's, given by its names from the last one up. `none` once the
-- path leaves the topology's directory.
pub walk : List Text → List Text → Option (List Text)
walk position [] = some position
walk [] (part ∷ parts) =
    if part == [] || part == codes "."
    then walk [] parts
    else if part == codes ".."
    then none
    else walk (part ∷ []) parts
walk (name ∷ above) (part ∷ parts) =
    if part == [] || part == codes "."
    then walk (name ∷ above) parts
    else if part == codes ".."
    then walk above parts
    else walk (part ∷ name ∷ above) parts

-- The path of such a directory.
pub path_of : List Text → Text
path_of [] = []
path_of (name ∷ []) = name
path_of (name ∷ above ∷ names) = path_of (above ∷ names) ++ slash ∷ name

-- The parts with slashes between them.
pub with_slashes : List Text → Text
with_slashes [] = []
with_slashes (part ∷ []) = part
with_slashes (part ∷ next ∷ parts) = part ++ slash ∷ with_slashes (next ∷ parts)

-- The path is relative, and to no home directory; it stays below the topology's directory, and leads
-- to one of the files, or to a directory that has one of them in it.
pub record LeadsTo (files : List Text) (path : Text) : Type 0 where
  pub relative : (rest : Text) → path ≢ slash ∷ rest
  pub not_home : (rest : Text) → path ≢ codes "~" ++ rest
  pub parts : List Text
  pub are_parts : All (All (λ c. c ≢ slash)) parts
  pub of_path : path ≡ with_slashes parts
  pub name : Text
  pub above : List Text
  pub stays : walk [] parts ≡ some (name ∷ above)
  pub file : Text
  pub is_own : In file files
  pub inside :
      (file ≡ path_of (name ∷ above))
      ⊎ ((rest : Text) × (file ≡ path_of (name ∷ above) ++ slash ∷ rest))

pub split_onto-parts :
    (part s : Text) → All (λ c. c ≢ slash) part → All (All (λ c. c ≢ slash)) (split_onto part s)
unfolding split_onto
split_onto-parts part [] h = (h, tt)
split_onto-parts part (a ∷ s) h = elim (Bool-cases (nat_beq a slash)) [
  | inl e ↦ rw (split_onto, e) (h, split_onto-parts [] s tt)
  | inr e ↦
      let other : a ≢ slash = λ same. absurd (cc (sym ((nat_beq_iff a slash).1 same) ∙ e)) in
      rw (split_onto, e)
        (split_onto-parts (part ++ a ∷ []) s
          (All-append (λ c. c ≢ slash) part (a ∷ []) h (other, tt)))
]

with_slashes-cons :
    (p part s : Text)
    → with_slashes (p ∷ split_onto part s) ≡ p ++ slash ∷ with_slashes (split_onto part s)
unfolding split_onto with_slashes
with_slashes-cons p part [] = refl
with_slashes-cons p part (a ∷ s) = elim (Bool-cases (nat_beq a slash)) [
  | inl e ↦ rw (split_onto, e) refl
  | inr e ↦ rw (split_onto, e) (with_slashes-cons p (part ++ a ∷ []) s)
]

pub with_slashes-split_onto : (part s : Text) → with_slashes (split_onto part s) ≡ part ++ s
unfolding split_onto with_slashes
with_slashes-split_onto part [] = sym (append-nil part)
with_slashes-split_onto part (a ∷ s) = elim (Bool-cases (nat_beq a slash)) [
  | inl e ↦
      rw (split_onto, e)
        (with_slashes-cons part [] s
          ∙ ap (λ t. part ++ slash ∷ t) (with_slashes-split_onto [] s)
          ∙ ap (λ c. part ++ c ∷ s) (sym ((nat_beq_iff a slash).0 e)))
  | inr e ↦
      rw (split_onto, e) (with_slashes-split_onto (part ++ a ∷ []) s ∙ append_assoc part (a ∷ []) s)
]
