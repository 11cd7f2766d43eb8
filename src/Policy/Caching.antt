-- ===== src/Policy/Caching.antt =====
-- The cache never changes an answer of the engine.
use antimony_backend.Base.{
  Eq, ◌==◌, nat_eq, string_eq, Bool-cases, Option-cases, All, lookup, Map, lookup-put-some,
  lookup-delete-some, String, ◌≡◌, refl, sym, ap, ◌∙◌, inl, inr, true, false, Option, none, some,
  List, [], ◌∷◌,
}
use antimony_backend.Policy.Text.{Text}
use antimony_backend.Policy.Rules.{Finding, Options}
use antimony_backend.Policy.Definitions.{Any, Topology}
use antimony_backend.Policy.Checker.{Packages}
use antimony_backend.Policy.Stream.{IsSized, hash_stream-injective}
use antimony_backend.Policy.OwnFiles.{check_uncached-sorted}
use antimony_backend.Policy.Engine.{
  check_uncached, hash_stream, CacheEntry, Engine, get, create_engine, check, forget,
}

-- A call of `Check` or of `Forget`.
pub data Request : Type 0 where
  checked : String → Text → List Text → Request
  forgotten : String → Request

-- What holds of the content that a request checks.
abbrev pub OfContent : (Text → List Text → Type 0) → Request → Type 0
OfContent P (checked id d files) = P d files
OfContent P (forgotten id) = Unit

module _ {H : Type 0} ⦃hash_eq : Eq H⦄ (sum : Text → H) (lib : Packages)
    (parse : Text → Any × Option Topology) where
  -- What the engine answers about a definition that is decoded as `Check` asks for.
  unfoldable pub answer : Engine H → String → Text → List Text → List Finding × Engine H
  answer e id d files = check sum lib e id (parse d).0 (parse d).1 d files

  unfoldable pub serve : Engine H → Request → Engine H
  serve e (checked id d files) = (answer e id d files).1
  serve e (forgotten id) = forget sum e id

  unfoldable pub serve_all : Engine H → List Request → Engine H
  serve_all e [] = e
  serve_all e (r ∷ rs) = serve_all (serve e r) rs

  abbrev pub uncached : Options → Text → List Text → List Finding
  uncached options d files = check_uncached lib options (parse d).0 (parse d).1 d files

  -- Every entry holds the findings of a content with the entry's hash.
  record IsRight (P : Text → List Text → Type 0) (options : Options) (e : Engine H) : Type 0 where
    kept : e.options ≡ options
    entry :
        (id : String) (c : CacheEntry H)
        → lookup id e.cache ≡ some c
        → (d : Text) × (files : List Text) × P d files
          × (c.hash ≡ sum (hash_stream d files))
          × (c.findings ≡ uncached options d files)

  create_engine-IsRight :
      (P : Text → List Text → Type 0) (options : Options)
      → IsRight P options (create_engine sum options)
  unfolding create_engine lookup
  create_engine-IsRight P options = record { kept = refl; entry = λ id c h. absurd (cc h) }

  get-hit :
      (m : Map String (CacheEntry H)) (id : String) (h : H) (fs : List Finding)
      → get sum m id h ≡ some fs
      → (c : CacheEntry H) × (lookup id m ≡ some c) × (c.hash ≡ h) × (c.findings ≡ fs)
  unfolding get
  get-hit m id h fs e = elim (Option-cases (lookup id m)) [
    | inl missing ↦ absurd (cc (e, the_miss missing))
    | inr (c, found) ↦ elim (Bool-cases (c.hash == h)) [
      | inl same ↦ (c, found, (hash_eq.equal_iff c.hash h).0 same, cc (e, the_hit found same))
      | inr other ↦ absurd (cc (e, the_other found other))
    ]
  ]
    where
      the_miss : lookup id m ≡ none → get sum m id h ≡ none
      the_miss missing = rw (missing, get) refl

      the_hit :
          {c : CacheEntry H}
          → lookup id m ≡ some c
          → (c.hash == h) ≡ true
          → get sum m id h ≡ some c.findings
      the_hit found same = rw (found, same, get) refl

      the_other :
          {c : CacheEntry H} → lookup id m ≡ some c → (c.hash == h) ≡ false → get sum m id h ≡ none
      the_other found other = rw (found, other, get) refl

  serve-IsRight :
      (P : Text → List Text → Type 0) (options : Options) (e : Engine H) (r : Request)
      → OfContent P r
      → IsRight P options e
      → IsRight P options (serve e r)
  unfolding serve answer check forget
  serve-IsRight P options e (forgotten id) p h = record {
    kept = h.kept;
    entry = λ id' c found. h.entry id' c (lookup-delete-some id id' c e.cache found).1;
  }
  serve-IsRight P options e (checked id d files) p h =
      elim (Option-cases (get sum e.cache id (sum (hash_stream d files)))) [
        | inr (fs, hit) ↦ rw (hit, serve) h
        | inl miss ↦
            rw (miss, serve)
              (record {
                kept = h.kept;
                entry = λ id' c found. elim (lookup-put-some id id' _ c e.cache found) [
                  | inl (here, put_here) ↦ (
                    d,
                    files,
                    p,
                    sym (ap (λ x. x.hash) put_here),
                    sym (ap (λ x. x.findings) put_here) ∙ ap (λ o. uncached o d files) h.kept,
                  )
                  | inr (elsewhere, old) ↦ h.entry id' c old
                ];
              })
      ]

  serve_all-IsRight :
      (P : Text → List Text → Type 0) (options : Options) (e : Engine H) (rs : List Request)
      → All (OfContent P) rs
      → IsRight P options e
      → IsRight P options (serve_all e rs)
  unfolding serve_all
  serve_all-IsRight P options e [] p h = h
  serve_all-IsRight P options e (r ∷ rs) (p, ps) h =
      serve_all-IsRight P options (serve e r) rs ps (serve-IsRight P options e r p h)

  -- A content that is hashed like the given one is streamed like it.
  abbrev pub HasNoCollision : Text → List Text → Text → List Text → Type 0
  HasNoCollision d files d' files' =
      All IsSized (d' ∷ files')
      × (sum (hash_stream d' files') ≡ sum (hash_stream d files)
          → hash_stream d' files' ≡ hash_stream d files)

  uncached-streamed :
      (options : Options) (d d' : Text) (files files' : List Text)
      → All IsSized (d ∷ files)
      → All IsSized (d' ∷ files')
      → hash_stream d' files' ≡ hash_stream d files
      → uncached options d' files' ≡ uncached options d files
  uncached-streamed options d d' files files' h h' e =
      let (same, in_order) = hash_stream-injective d' d files' files h' h e in
      sym (check_uncached-sorted lib files' options _ _ d')
      ∙ cc (same, in_order)
      ∙ check_uncached-sorted lib files options _ _ d

  -- After any calls of `Check` and `Forget` on a new engine, `Check` returns what the check
  -- without the cache finds, if the arguments of each call are decoded from its definition, the
  -- hash of the content has no collision with another content that was checked, and the lengths
  -- of all texts fit into 64 bits.
  pub answer-eq-uncached :
      (options : Options) (rs : List Request) (id : String) (d : Text) (files : List Text)
      → All IsSized (d ∷ files)
      → All (OfContent (HasNoCollision d files)) rs
      → (answer (serve_all (create_engine sum options) rs) id d files).0 ≡ uncached options d files
  unfolding answer check
  answer-eq-uncached options rs id d files sized contents =
      let e = serve_all (create_engine sum options) rs in
      let right =
        serve_all-IsRight (HasNoCollision d files) options (create_engine sum options) rs contents
          (create_engine-IsRight (HasNoCollision d files) options) in
      elim (Option-cases (get sum e.cache id (sum (hash_stream d files)))) [
        | inl miss ↦ rw (miss, check) (ap (λ o. uncached o d files) right.kept)
        | inr (fs, hit) ↦
            rw (hit, check)
              (let (c, found, same, returned) = get-hit e.cache id _ fs hit in
                let (d', files', p, hashed, findings) = right.entry id c found in
                sym returned
                ∙ findings
                ∙ uncached-streamed options d d' files files' sized p.0 (p.1 (sym hashed ∙ same)))
      ]
