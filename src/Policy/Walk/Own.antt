-- ===== src/Policy/Walk/Own.antt =====
-- A reference that the check accepts leads to the topology's own files.
use antimony_backend.Base.{
  ◌==◌, nat_eq, string_eq, if◌then◌else◌, Bool-cases, ◌≡◌, refl, sym, ap, subst, ◌∙◌, inl, inr,
  Bool, true, false, not, ◌||◌, some, List, [], ◌∷◌, ◌++◌, append_assoc, arith,
}
use antimony_backend.Policy.Text.{
  contains_func-In, has_prefix-rest, Text, codes, text_eq, text_beq, contains_func, has_prefix,
}
use antimony_backend.Policy.Paths.{slash, is_abs, split_onto, clean_parts, join, clean, is_local}
use antimony_backend.Policy.Checker.{is_own_file}
use antimony_backend.Policy.Walk.{walk, path_of, LeadsTo, split_onto-parts, with_slashes-split_onto}
use antimony_backend.Policy.Walk.Cleaned.{
  StartsUp, join-StartsUp, join-path_of, clean_parts-walk, dot_or-StartsUp, clean-StartsUp,
}

is_local-stays : (s : Text) → is_local s ≡ true → ¬ StartsUp s
unfolding is_local StartsUp has_prefix text_beq
is_local-stays s h up = elim (clean-StartsUp s up) [
  | inl e ↦ ground (arith, h, e)
  | inr (rest, e) ↦ ground (arith, h, e)
]

or_false : (b c : Bool) → b || c ≡ false → (b ≡ false) × (c ≡ false)
or_false true c h = absurd (cc h)
or_false false c h = (refl, h)

-- What the conditions of `is_own_file` say when it accepts a reference.
record Accepts (files : List Text) (r : Text) : Type 0 where
  no_tilde : has_prefix r (codes "~") ≡ false
  local : is_local (clean r) ≡ true
  no_dot : (clean r == codes ".") ≡ false
  found :
      contains_func files (λ file. file == clean r || has_prefix file (clean r ++ codes "/")) ≡ true

is_own_file-Accepts : (files : List Text) (r : Text) → is_own_file files r ≡ true → Accepts files r
unfolding is_own_file
is_own_file-Accepts files r h = elim (Bool-cases (r == [] || has_prefix r (codes "~"))) [
  | inl e ↦ absurd (cc (rw (e, is_own_file) at h))
  | inr e ↦ elim (Bool-cases (not (is_local (clean r)) || clean r == codes ".")) [
    | inl d ↦ absurd (cc (rw (e, d, is_own_file) at h))
    | inr d ↦ elim (Bool-cases (is_local (clean r))) [
      | inr l ↦ absurd (cc (rw l at d))
      | inl l ↦ record {
        no_tilde = (or_false _ _ e).1;
        local = l;
        no_dot = (or_false _ _ d).1;
        found = rw (e, d, is_own_file) at h;
      }
    ]
  ]
]

clean-relative : (r : Text) → is_local (clean r) ≡ true → is_abs r ≡ false
unfolding is_local is_abs has_prefix clean
clean-relative r h = elim (Bool-cases (is_abs r)) [
  | inr e ↦ e
  | inl e ↦
      let rooted : clean r ≡ slash ∷ join (clean_parts (is_abs r) [] (split_onto [] r)) =
        rw (clean, e) refl in
      let no : false ≡ true = subst (λ t. is_local t ≡ true) rooted h in absurd (cc no)
]

-- The cleaned path of a reference that is accepted.
clean-walk :
    (r : Text)
    → is_local (clean r) ≡ true
    → (clean r == codes ".") ≡ false
    → (name : Text) × (above : List Text) × (walk [] (split_onto [] r) ≡ some (name ∷ above))
      × (clean r ≡ path_of (name ∷ above))
unfolding clean text_beq join
clean-walk r h dot =
    let stack = clean_parts false [] (split_onto [] r) in
    let e : clean r ≡ (if join stack == [] then codes "." else join stack) =
      rw (clean, clean-relative r h) refl in
    elim (clean_parts-walk (split_onto [] r) [] tt) [
      | inr up ↦ absurd (
          is_local-stays (clean r) h
            (subst StartsUp (sym e) (dot_or-StartsUp (join stack) (join-StartsUp stack up))))
      | inl w ↦ settle stack w e
    ]
  where
    no_dot : {A : Type 0} → clean r ≡ codes "." → A
    no_dot e = let no : true ≡ false = subst (λ t. (t == codes ".") ≡ false) e dot in absurd (cc no)

    settle :
        (stack : List Text)
        → walk [] (split_onto [] r) ≡ some stack
        → clean r ≡ (if join stack == [] then codes "." else join stack)
        → (name : Text) × (above : List Text) × (walk [] (split_onto [] r) ≡ some (name ∷ above))
          × (clean r ≡ path_of (name ∷ above))
    settle [] w e = no_dot e
    settle (name ∷ above) w e = elim (Bool-cases (join (name ∷ above) == [])) [
      | inl d ↦ no_dot (rw d at e)
      | inr d ↦ (name, above, w, (rw d at e) ∙ join-path_of (name ∷ above))
    ]

pub is_own_file-LeadsTo :
    (files : List Text) (r : Text) → is_own_file files r ≡ true → LeadsTo files r
unfolding is_abs has_prefix
is_own_file-LeadsTo files r h =
    let a = is_own_file-Accepts files r h in
    let (name, above, stays, path) = clean-walk r a.local a.no_dot in
    let (file, own, matches) = contains_func-In files _ a.found in
    record {
      relative = λ rest e.
          let no : true ≡ false = sym (ap is_abs e) ∙ clean-relative r a.local in absurd (cc no);
      not_home = λ rest e.
          let no : true ≡ false = sym (ap (λ t. has_prefix t (codes "~")) e) ∙ a.no_tilde in
          absurd (cc no);
      parts = split_onto [] r;
      are_parts = split_onto-parts [] r tt;
      of_path = sym (with_slashes-split_onto [] r);
      name = name;
      above = above;
      stays = stays;
      file = file;
      is_own = own;
      inside = elim (Bool-cases (file == clean r)) [
        | inl same ↦ inl ((text_eq.equal_iff file (clean r)).0 same ∙ path)
        | inr other ↦
            let (rest, e) = has_prefix-rest file (clean r ++ codes "/") (rw other at matches) in
            inr
              (rest, e ∙ append_assoc (clean r) (codes "/") rest ∙ ap (λ t. t ++ slash ∷ rest) path)
      ];
    }
