-- ===== src/Policy/Walk/Cleaned.antt =====
-- The cleaned path that the check compares is the one that a walk through the parts reaches.
use antimony_backend.Base.{
  ◌==◌, nat_eq, string_eq, if◌then◌else◌, Bool-cases, All, ◌≡◌, refl, sym, ap, subst, ◌∙◌, ◌⊎◌, inl,
  inr, true, false, not, ◌&&◌, ◌||◌, some, List, [], ◌∷◌, ◌++◌, append_assoc,
}
use antimony_backend.Policy.Text.{Text, codes, text_eq, text_beq, has_prefix}
use antimony_backend.Policy.Paths.{
  slash, is_abs, split_onto, clean_part, clean_parts, join_onto, join, clean,
}
use antimony_backend.Policy.Walk.{walk, path_of}

-- A stack of `filepath.Clean` whose first part is `..`: the path has left its directory.
unfoldable pub EndsUp : List Text → Type 0
EndsUp [] = ⊥
EndsUp (part ∷ []) = part ≡ codes ".."
EndsUp (part ∷ next ∷ stack) = EndsUp (next ∷ stack)

-- A path that starts with `..`.
unfoldable pub StartsUp : Text → Type 0
StartsUp s = (s ≡ codes "..") ⊎ ((rest : Text) × (s ≡ codes ".." ++ slash ∷ rest))

abbrev pub IsName : Text → Type 0
IsName part = (part == codes "..") ≡ false

clean_part-EndsUp :
    (stack : List Text) (part : Text) → EndsUp stack → EndsUp (clean_part false stack part)
unfolding clean_part EndsUp
clean_part-EndsUp (last ∷ []) part h =
    let up : (last == codes "..") ≡ true = (text_eq.equal_iff last (codes "..")).1 h in
    elim (Bool-cases (part == [] || part == codes ".")) [
      | inl e ↦ rw e h
      | inr e ↦ elim (Bool-cases (part == codes "..")) [
        | inl d ↦ rw (e, d, up) h
        | inr d ↦ rw (e, d) h
      ]
    ]
clean_part-EndsUp (last ∷ next ∷ stack) part h =
    elim (Bool-cases (part == [] || part == codes ".")) [
      | inl e ↦ rw e h
      | inr e ↦ elim (Bool-cases (part == codes ".." && not (last == codes ".."))) [
        | inl d ↦ rw (e, d) h
        | inr d ↦ rw (e, d) h
      ]
    ]
clean_part-EndsUp [] part h = absurd h

clean_parts-EndsUp :
    (parts stack : List Text) → EndsUp stack → EndsUp (clean_parts false stack parts)
unfolding clean_parts
clean_parts-EndsUp [] stack h = h
clean_parts-EndsUp (part ∷ parts) stack h =
    clean_parts-EndsUp parts (clean_part false stack part) (clean_part-EndsUp stack part h)

join_onto-StartsUp :
    (stack : List Text) (part s : Text)
    → EndsUp (part ∷ stack)
    → (s ≡ part) ⊎ ((rest : Text) × (s ≡ part ++ slash ∷ rest))
    → StartsUp (join_onto stack s)
unfolding join_onto EndsUp StartsUp
join_onto-StartsUp [] part s h (inl e) = inl (e ∙ h)
join_onto-StartsUp [] part s h (inr (rest, e)) = inr (rest, e ∙ ap (λ t. t ++ slash ∷ rest) h)
join_onto-StartsUp (next ∷ stack) part s h e =
    join_onto-StartsUp stack next (next ++ slash ∷ s) h (inr (s, refl))

pub join-StartsUp : (stack : List Text) → EndsUp stack → StartsUp (join stack)
unfolding join EndsUp
join-StartsUp [] h = absurd h
join-StartsUp (part ∷ stack) h = join_onto-StartsUp stack part part h (inl refl)

join_onto-path_of :
    (stack : List Text) (part s : Text)
    → join_onto (part ∷ stack) s ≡ path_of (part ∷ stack) ++ slash ∷ s
unfolding join_onto path_of
join_onto-path_of [] part s = refl
join_onto-path_of (next ∷ stack) part s =
    join_onto-path_of stack next (part ++ slash ∷ s)
    ∙ sym (append_assoc (path_of (next ∷ stack)) (slash ∷ part) (slash ∷ s))

pub join-path_of : (stack : List Text) → join stack ≡ path_of stack
unfolding join join_onto path_of
join-path_of [] = refl
join-path_of (part ∷ []) = refl
join-path_of (part ∷ next ∷ stack) = join_onto-path_of stack next part

-- The walk takes the steps of `filepath.Clean`, until one of them leaves the directory.
pub clean_parts-walk :
    (parts stack : List Text)
    → All IsName stack
    → (walk stack parts ≡ some (clean_parts false stack parts))
      ⊎ EndsUp (clean_parts false stack parts)
unfolding walk clean_parts clean_part EndsUp
clean_parts-walk [] stack h = inl refl
clean_parts-walk (part ∷ parts) [] h = elim (Bool-cases (part == [] || part == codes ".")) [
  | inl e ↦ rw e (clean_parts-walk parts [] tt)
  | inr e ↦ elim (Bool-cases (part == codes "..")) [
    | inl d ↦
        rw (e, d)
          (inr (clean_parts-EndsUp parts (part ∷ []) ((text_eq.equal_iff part (codes "..")).0 d)))
    | inr d ↦ rw (e, d) (clean_parts-walk parts (part ∷ []) (d, tt))
  ]
]
clean_parts-walk (part ∷ parts) (last ∷ stack) h =
    elim (Bool-cases (part == [] || part == codes ".")) [
      | inl e ↦ rw e (clean_parts-walk parts (last ∷ stack) h)
      | inr e ↦ elim (Bool-cases (part == codes "..")) [
        | inl d ↦ rw (e, d, h.0) (clean_parts-walk parts stack h.1)
        | inr d ↦ rw (e, d) (clean_parts-walk parts (part ∷ last ∷ stack) (d, h))
      ]
    ]

pub dot_or-StartsUp :
    (joined : Text) → StartsUp joined → StartsUp (if joined == [] then codes "." else joined)
unfolding StartsUp text_beq
dot_or-StartsUp joined (inl e) =
    subst (λ t. StartsUp (if t == [] then codes "." else t)) (sym e) (inl refl)
dot_or-StartsUp joined (inr (rest, e)) =
    subst (λ t. StartsUp (if t == [] then codes "." else t)) (sym e) (inr (rest, refl))

-- A path that starts with `..` is cleaned to one that does.
pub clean-StartsUp : (s : Text) → StartsUp s → StartsUp (clean s)
unfolding StartsUp EndsUp clean is_abs has_prefix split_onto clean_parts clean_part join join_onto
    text_beq
clean-StartsUp s (inl e) = subst (λ t. StartsUp (clean t)) (sym e) (inl refl)
clean-StartsUp s (inr (rest, e)) =
    subst (λ t. StartsUp (clean t)) (sym e)
      (dot_or-StartsUp _ (
        join-StartsUp (clean_parts false (codes ".." ∷ []) (split_onto [] rest))
          (clean_parts-EndsUp (split_onto [] rest) (codes ".." ∷ []) refl)))
