-- ===== src/Policy/Stream.antt =====
-- The stream that is hashed for the cache determines the definition and the sorted bind files.
use antimony_backend.Base.{
  nat_eq, string_eq, length, length-append, All, ℕ, zero, suc, ◌*◌, ◌/◌, ◌%◌, ◌^◌, ◌<◌, ◌≡◌, refl,
  sym, ap, ◌∙◌, List, [], ◌∷◌, ◌++◌, append_assoc, arith,
}
use antimony_backend.Policy.Text.{Text, text_leb, sorted}
use antimony_backend.Policy.Sorting.{All-sorted}
use Prim.Native.Nat.pow
use antimony_backend.Policy.Engine.{big_endian, write_field, write_fields, hash_stream}

-- Equal texts whose front parts are of the same length have the same parts.
pub append-injective : (a b c d : Text) → length a ≡ length b → a ++ c ≡ b ++ d → (a ≡ b) × (c ≡ d)
append-injective [] [] c d l e = (refl, e)
append-injective [] (y ∷ b) c d l e = absurd (omega (arith, l))
append-injective (x ∷ a) [] c d l e = absurd (omega (arith, l))
append-injective (x ∷ a) (y ∷ b) c d l e =
    let heads : x ≡ y = cc e in
    let tails : a ++ c ≡ b ++ d = cc e in
    let (fronts, backs) = append-injective a b c d (omega (arith, l)) tails in
    (cc (heads, fronts), backs)

length-big_endian : (k n : ℕ) → length (big_endian k n) ≡ k
unfolding big_endian
length-big_endian zero n = refl
length-big_endian (suc k) n = rw (length-append, length-big_endian k (n / 256)) (omega arith)

big_endian-injective :
    (k n m : ℕ) → n < 256 ^ k → m < 256 ^ k → big_endian k n ≡ big_endian k m → n ≡ m
unfolding big_endian
big_endian-injective zero n m h h' e = omega (arith, h, h')
big_endian-injective (suc k) n m h h' e =
    let (fronts, lasts) =
      append-injective (big_endian k (n / 256)) (big_endian k (m / 256)) _ _
        (length-big_endian k (n / 256) ∙ sym (length-big_endian k (m / 256))) e in
    let power : 256 ^ suc k ≡ 256 ^ k * 256 = pow.suc 256 k in
    let front =
      big_endian-injective k (n / 256) (m / 256) (omega (arith, h, power))
        (omega (arith, h', power)) fronts in
    let last : n % 256 ≡ m % 256 = cc lasts in omega (arith, front, last)

write_field-injective :
    (v w rest rest' : Text)
    → length v < 2 ^ 64
    → length w < 2 ^ 64
    → write_field v ++ rest ≡ write_field w ++ rest'
    → (v ≡ w) × (rest ≡ rest')
unfolding write_field
write_field-injective v w rest rest' hv hw e =
    let (sizes, tails) =
      append-injective (big_endian 8 (length v)) (big_endian 8 (length w)) (v ++ rest) (w ++ rest')
        (length-big_endian 8 (length v) ∙ sym (length-big_endian 8 (length w)))
        (sym (append_assoc (big_endian 8 (length v)) v rest)
          ∙ e
          ∙ append_assoc (big_endian 8 (length w)) w rest') in
    append-injective v w rest rest'
      (big_endian-injective 8 (length v) (length w) (omega (arith, hv)) (omega (arith, hw)) sizes)
      tails

-- A text whose length Go's `uint64` holds.
abbrev pub IsSized : Text → Type 0
IsSized v = length v < 2 ^ 64

non_empty : (v rest : Text) → 0 < length (write_field v ++ rest)
unfolding write_field
non_empty v rest = rw (length-append, length-append, length-big_endian 8) (omega arith)

write_fields-injective :
    (vs ws : List Text)
    → All IsSized vs
    → All IsSized ws
    → write_fields vs ≡ write_fields ws
    → vs ≡ ws
unfolding write_fields
write_fields-injective [] [] hv hw e = refl
write_fields-injective [] (w ∷ ws) hv hw e =
    absurd (omega (arith, non_empty w (write_fields ws), ap length e))
write_fields-injective (v ∷ vs) [] hv hw e =
    absurd (omega (arith, non_empty v (write_fields vs), ap length e))
write_fields-injective (v ∷ vs) (w ∷ ws) (hv, hvs) (hw, hws) e =
    let (heads, tails) = write_field-injective v w _ _ hv hw e in
    cc (heads, write_fields-injective vs ws hvs hws tails)

sorted-IsSized : (vs : List Text) → All IsSized vs → All IsSized (sorted text_leb vs)
sorted-IsSized vs h = All-sorted text_leb IsSized vs h

-- Two inputs that are hashed as the same stream have the same definition and, in sorted order, the
-- same bind files, if every one of their texts has a length that fits into 64 bits.
pub hash_stream-injective :
    (d d' : Text) (vs ws : List Text)
    → All IsSized (d ∷ vs)
    → All IsSized (d' ∷ ws)
    → hash_stream d vs ≡ hash_stream d' ws
    → (d ≡ d') × (sorted text_leb vs ≡ sorted text_leb ws)
unfolding hash_stream
hash_stream-injective d d' vs ws (hd, hv) (hd', hw) e =
    let (same, files) = write_field-injective d d' _ _ hd hd' e in
    (
      same,
      write_fields-injective (sorted text_leb vs) (sorted text_leb ws) (sorted-IsSized vs hv)
          (sorted-IsSized ws hw) files,
    )
