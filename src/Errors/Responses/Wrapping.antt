-- ===== src/Errors/Responses/Wrapping.antt =====
-- A reply depends on what an error wraps, and always reports an error.
use antimony_backend.Base.{
  nat_eq, string_eq, nat_beq, nat_beq_iff, Bool-cases, All, ℕ, ◌≤◌, ◌<◌, String, ◌≡◌, refl, inl,
  inr, List, [], ◌∷◌, arith,
}
use antimony_backend.Errors.{Error, errorf, address, message_of, is}
use antimony_backend.Errors.Responses.{
  ℤ, pos, negsuc, Case, matches, switch, http_cases, socket_cases, create_error_response,
  create_socket_error_response,
}

-- An address that comes after those of all errors that the cases name.
pub IsNew {ℓ} : {R : Type ℓ} → ℕ → List (Case R) → Type 0
IsNew a [] = a ≡ a
IsNew a (c ∷ cs) = All (λ t. address t < a) c.targets × IsNew a cs

module _ (a : ℕ) (m : String) (e : Error) where
  is-errorf : (t : Error) → address t < a → is (errorf a m e) t ≡ is e t
  unfolding is
  is-errorf t h = elim (Bool-cases (nat_beq a (address t))) [
    | inl e' ↦ absurd (omega (arith, h, (nat_beq_iff a (address t)).0 e'))
    | inr e' ↦ rw (e', is) refl
  ]

  matches-errorf :
      (ts : List Error) → All (λ t. address t < a) ts → matches (errorf a m e) ts ≡ matches e ts
  unfolding matches
  matches-errorf [] h = refl
  matches-errorf (t ∷ ts) (h, hs) = rw (is-errorf t h, matches-errorf ts hs) refl

  switch-errorf :
      {R : Type 0} (cs : List (Case R)) (otherwise : R)
      → IsNew a cs
      → switch (errorf a m e) cs otherwise ≡ switch e cs otherwise
  unfolding switch IsNew
  switch-errorf [] otherwise h = refl
  switch-errorf (c ∷ cs) otherwise (h, hs) =
      rw (matches-errorf c.targets h, switch-errorf cs otherwise hs) refl

-- Wrapping an error with `fmt.Errorf` in a new error changes neither the status nor the code of
-- both replies: only the message is that of the wrapper.
pub create_error_response-errorf :
    (a : ℕ) (m : String) (e : Error)
    → 46 ≤ a
    → (create_error_response (errorf a m e)
        ≡ ((create_error_response e).0, record (create_error_response e).1 { message = m }))
      × (create_socket_error_response (errorf a m e)
          ≡ record (create_socket_error_response e) { message = m })
unfolding create_error_response create_socket_error_response message_of
create_error_response-errorf a m e h = (
  rw (switch-errorf a m e http_cases (500, negsuc 0) (unfold IsNew address in ground (arith, h)))
      refl,
  rw (switch-errorf a m e socket_cases (pos 5000) (unfold IsNew address in ground (arith, h))) refl,
)

IsFailure : ℕ × ℤ → Type 0
IsFailure r = (400 ≤ r.0) × (r.0 < 600)

switch-IsFailure :
    (e : Error) (cs : List (Case (ℕ × ℤ))) (otherwise : ℕ × ℤ)
    → All (λ c. IsFailure c.reply) cs
    → IsFailure otherwise
    → IsFailure (switch e cs otherwise)
unfolding switch
switch-IsFailure e [] otherwise h o = o
switch-IsFailure e (c ∷ cs) otherwise (h, hs) o = elim (Bool-cases (matches e c.targets)) [
  | inl t ↦ rw (t, switch) h
  | inr t ↦ rw (t, switch) (switch-IsFailure e cs otherwise hs o)
]

-- Every error is answered with an HTTP status between 400 and 599, and its own message.
pub create_error_response-IsFailure :
    (e : Error)
    → (400 ≤ (create_error_response e).0)
      × ((create_error_response e).0 < 600)
      × ((create_error_response e).1.message ≡ message_of e)
unfolding create_error_response IsFailure
create_error_response-IsFailure e =
    let (l, u) =
      switch-IsFailure e http_cases (500, negsuc 0) (ground arith) (omega arith, omega arith) in
    (l, u, refl)
