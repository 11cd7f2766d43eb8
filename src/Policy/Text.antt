-- ===== src/Policy/Text.antt =====
-- The functions of Go's strings, path/filepath and slices packages that policy/engine.go calls, on
-- Linux. A string that is walked is the list of its bytes; one that is only compared or joined,
-- such as a key, a path or a message, is a native string.
use antimony_backend.Base.{
  Eq, nat_eq, string_eq, ltb, leb, nat_beq, if◌then◌else◌, nat_beq_iff, Bool-cases, length, drop,
  All, In, ℕ, zero, suc, ◌+◌, ◌/◌, ◌%◌, String, ◌≡◌, refl, ap, ◌∙◌, ◌↔◌, inl, inr, Bool, true,
  false, ◌&&◌, ◌||◌, List, [], ◌∷◌, ◌++◌, map, arith,
}
use Prim.Native.Char.{code}
use Prim.Native.String as Native

abbrev pub Text : Type 0
Text = List ℕ

-- The code points of a literal, which are its bytes if it is ASCII.
abbrev pub codes : String → Text
codes String.[] = []
codes (String.◌∷◌ c s) = code c ∷ codes s

unfoldable pub text_beq : Text → Text → Bool
text_beq [] [] = true
text_beq (a ∷ s) (b ∷ t) = nat_beq a b && text_beq s t
text_beq [] (b ∷ t) = false
text_beq (a ∷ s) [] = false

pub text_beq_iff : (s t : Text) → (text_beq s t ≡ true) ↔ (s ≡ t)
unfolding text_beq
text_beq_iff [] [] = ground arith
text_beq_iff [] (b ∷ t) = ground arith
text_beq_iff (a ∷ s) [] = ground arith
text_beq_iff (a ∷ s) (b ∷ t) = ground (arith, text_beq_iff s t, nat_beq_iff a b)

instance abbrev pub text_eq : Eq Text
text_eq = record { equal = text_beq; equal_iff = text_beq_iff }

-- `s <= t`, bytewise.
unfoldable pub text_leb : Text → Text → Bool
text_leb [] t = true
text_leb (a ∷ s) [] = false
text_leb (a ∷ s) (b ∷ t) = ltb a b || (nat_beq a b && text_leb s t)

-- `slices.Sorted`.
module _ {ℓ} {A : Type ℓ} (before : A → A → Bool) where
  unfoldable pub insert_sorted : A → List A → List A
  insert_sorted a [] = a ∷ []
  insert_sorted a (x ∷ xs) =
      let rest = insert_sorted a xs in if before a x then a ∷ x ∷ xs else x ∷ rest

  unfoldable pub sorted : List A → List A
  sorted [] = []
  sorted (x ∷ xs) = insert_sorted x (sorted xs)

unfoldable pub contains_func {ℓ} : {A : Type ℓ} → List A → (A → Bool) → Bool
contains_func [] f = false
contains_func (x ∷ xs) f = f x || contains_func xs f

unfoldable pub has_prefix : Text → Text → Bool
has_prefix s [] = true
has_prefix [] (b ∷ p) = false
has_prefix (a ∷ s) (b ∷ p) = nat_beq a b && has_prefix s p

-- `strings.Contains`.
unfoldable pub contains : Text → Text → Bool
contains [] p = has_prefix [] p
contains (a ∷ s) p = has_prefix (a ∷ s) p || contains s p

-- The part before the first separator byte, as `strings.Cut` returns it.
unfoldable pub cut : ℕ → Text → Text
cut b [] = []
cut b (a ∷ s) = let rest = cut b s in if nat_beq a b then [] else a ∷ rest

-- The UTF-8 of every rune that `unicode.IsSpace` accepts.
abbrev pub spaces : List Text
spaces =
    (9 ∷ [])
    ∷ (10 ∷ [])
    ∷ (11 ∷ [])
    ∷ (12 ∷ [])
    ∷ (13 ∷ [])
    ∷ (32 ∷ [])
    ∷ (194 ∷ 133 ∷ [])
    ∷ (194 ∷ 160 ∷ [])
    ∷ (225 ∷ 154 ∷ 128 ∷ [])
    ∷ (226 ∷ 128 ∷ 128 ∷ [])
    ∷ (226 ∷ 128 ∷ 129 ∷ [])
    ∷ (226 ∷ 128 ∷ 130 ∷ [])
    ∷ (226 ∷ 128 ∷ 131 ∷ [])
    ∷ (226 ∷ 128 ∷ 132 ∷ [])
    ∷ (226 ∷ 128 ∷ 133 ∷ [])
    ∷ (226 ∷ 128 ∷ 134 ∷ [])
    ∷ (226 ∷ 128 ∷ 135 ∷ [])
    ∷ (226 ∷ 128 ∷ 136 ∷ [])
    ∷ (226 ∷ 128 ∷ 137 ∷ [])
    ∷ (226 ∷ 128 ∷ 138 ∷ [])
    ∷ (226 ∷ 128 ∷ 168 ∷ [])
    ∷ (226 ∷ 128 ∷ 169 ∷ [])
    ∷ (226 ∷ 128 ∷ 175 ∷ [])
    ∷ (226 ∷ 129 ∷ 159 ∷ [])
    ∷ (227 ∷ 128 ∷ 128 ∷ [])
    ∷ []

unfoldable pub reverse_onto : Text → Text → Text
reverse_onto [] t = t
reverse_onto (a ∷ s) t = reverse_onto s (a ∷ t)

abbrev pub reverse : Text → Text
reverse s = reverse_onto s []

-- The length of the first of the given texts that starts the text, or 0.
unfoldable pub leading : List Text → Text → ℕ
leading [] s = 0
leading (p ∷ ps) s = let rest = leading ps s in if has_prefix s p then length p else rest

-- The fuel is the length of the text, which every round shortens.
unfoldable pub trim_left : ℕ → List Text → Text → Text
trim_left zero ps s = s
trim_left (suc n) ps s =
    let k = leading ps s in let rest = trim_left n ps (drop k s) in if nat_beq k 0 then s else rest

-- `strings.TrimSpace`.
unfoldable pub trim_space : Text → Text
trim_space s =
    let front = trim_left (length s) spaces s in
    reverse (trim_left (length front) (map reverse spaces) (reverse front))

unfoldable pub is_ascii : Text → Bool
is_ascii [] = true
is_ascii (a ∷ s) = ltb a 128 && is_ascii s

unfoldable pub lower_ascii : ℕ → ℕ
lower_ascii a = if leb 65 a && leb a 90 then a + 32 else a

-- `strings.ToLower`; what it does to a text that is not ASCII is a parameter.
unfoldable pub to_lower : (Text → Text) → Text → Text
to_lower lower_unicode s = if is_ascii s then map lower_ascii s else lower_unicode s

unfoldable pub digit : ℕ → String
digit n = Native.slice "0123456789" n (n + 1)

-- `%d`; every round divides the number by ten, so that the number itself is enough fuel.
unfoldable pub decimal_loop : ℕ → ℕ → String
decimal_loop zero n = digit n
decimal_loop (suc fuel) n =
    let front = decimal_loop fuel (n / 10) in
    if ltb n 10 then digit n else Native.◌++◌ front (digit (n % 10))

unfoldable pub decimal : ℕ → String
decimal n = decimal_loop n n

pub contains_func-none :
    {A : Type 0} (xs : List A) (f : A → Bool)
    → contains_func xs f ≡ false
    → All (λ x. f x ≡ false) xs
unfolding contains_func
contains_func-none [] f h = tt
contains_func-none (x ∷ xs) f h = elim (Bool-cases (f x)) [
  | inl e ↦ absurd (cc (rw e at h))
  | inr e ↦ (e, contains_func-none xs f (rw e at h))
]

pub contains_func-In :
    {A : Type 0} (xs : List A) (f : A → Bool)
    → contains_func xs f ≡ true
    → (x : A) × In x xs × (f x ≡ true)
unfolding contains_func
contains_func-In [] f h = absurd (cc h)
contains_func-In (x ∷ xs) f h = elim (Bool-cases (f x)) [
  | inl e ↦ (x, inl refl, e)
  | inr e ↦ let (y, m, t) = contains_func-In xs f (rw e at h) in (y, inr m, t)
]

pub has_prefix-rest : (s p : Text) → has_prefix s p ≡ true → (rest : Text) × (s ≡ p ++ rest)
unfolding has_prefix
has_prefix-rest s [] h = (s, refl)
has_prefix-rest [] (b ∷ p) h = absurd (cc h)
has_prefix-rest (a ∷ s) (b ∷ p) h = elim (Bool-cases (nat_beq a b)) [
  | inl e ↦
      let (rest, t) = has_prefix-rest s p (rw e at h) in
      (rest, ap (λ c. c ∷ s) ((nat_beq_iff a b).0 e) ∙ ap (◌∷◌ b) t)
  | inr e ↦ absurd (cc (rw e at h))
]
