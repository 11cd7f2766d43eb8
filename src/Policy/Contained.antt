-- ===== src/Policy/Contained.antt =====
-- A node definition without findings refers only to the topology's own files.
use antimony_backend.Base.{
  ◌==◌, nat_eq, string_eq, if◌then◌else◌, Bool-cases, All, All-imp, ℕ, ◌+◌, String, ◌≡◌, sym, ◌∙◌,
  ◌≢◌, inl, inr, Bool, true, false, Option, some, List, [], ◌∷◌, ◌++◌,
}
use antimony_backend.Policy.Text.{
  contains_func-none, Text, codes, text_eq, contains_func, contains, cut, decimal, trim_space,
}
use antimony_backend.Policy.Rules.{Finding, Options}
use antimony_backend.Policy.Definitions.{NodeDefinition}
use antimony_backend.Policy.Checker.{
  Packages, ◌+++◌, add, for_index, host_reaching_kinds, is_own_file, normalized, check_image,
  check_stages, check_file_reference,
}
use antimony_backend.Policy.Walk.{LeadsTo}
use antimony_backend.Policy.Walk.Own.{is_own_file-LeadsTo}
use antimony_backend.Policy.Engine.{
  check_kind, check_optional_file, check_privileged, check_node_definition,
}
use antimony_backend.Policy.Reviewed.{append-empty}

-- A reference to a file or directory of the topology, and not to a remote one.
pub IsOwnReference : List Text → Text → Type 0
IsOwnReference bind_files r =
    (contains (trim_space r) (codes "://") ≡ false) × LeadsTo bind_files (trim_space r)

-- The kinds whose containers share the server's network or reach it from outside the lab.
abbrev pub reaching_kinds : List Text
reaching_kinds =
    codes "host"
    ∷ codes "bridge"
    ∷ codes "ovs-bridge"
    ∷ codes "ext-container"
    ∷ codes "k8s-kind"
    ∷ codes "tailscale"
    ∷ []

for_index-empty {ℓ} :
    {A : Type ℓ} (f : ℕ → A → List Finding) (P : A → Type 0) (i : ℕ) (xs : List A)
    → ((i : ℕ) (x : A) → f i x ≡ [] → P x)
    → for_index f i xs ≡ []
    → All P xs
unfolding for_index
for_index-empty f P i [] sound h = tt
for_index-empty f P i (x ∷ xs) sound h =
    let (here, there) = append-empty (f i x) (for_index f (i + 1) xs) h in
    (sound i x here, for_index-empty f P (i + 1) xs sound there)

module _ (lib : Packages) (options : Options) (bind_files : List Text) (path : String) where
  check_file_reference-empty :
      (p : String) (r : Text)
      → check_file_reference lib bind_files p r ≡ []
      → IsOwnReference bind_files r
  unfolding check_file_reference IsOwnReference add
  check_file_reference-empty p r h = elim (Bool-cases (contains (trim_space r) (codes "://"))) [
    | inl remote ↦ absurd (cc (rw (remote, check_file_reference) at h))
    | inr stays ↦ elim (Bool-cases (is_own_file bind_files (trim_space r))) [
      | inl own ↦ (stays, is_own_file-LeadsTo bind_files (trim_space r) own)
      | inr foreign ↦ absurd (cc (rw (stays, foreign, check_file_reference) at h))
    ]
  ]

  check_optional_file-empty :
      (p : String) (r : Text)
      → check_optional_file lib bind_files p r ≡ []
      → r ≢ []
      → IsOwnReference bind_files r
  unfolding check_optional_file
  check_optional_file-empty p r h given = elim (Bool-cases (r == [])) [
    | inl unset ↦ absurd (given ((text_eq.equal_iff r []).0 unset))
    | inr set ↦ check_file_reference-empty p r (rw (set, check_optional_file) at h)
  ]

  abbrev image_part : NodeDefinition → List Finding
  image_part d =
      if d.image == []
      then []
      else check_image lib options.allowed_image_prefixes (path +++ ".image") d.image

  abbrev binds_part : NodeDefinition → List Finding
  binds_part d =
      for_index
        (λ i bind.
          check_file_reference lib bind_files (path +++ ".binds[" +++ decimal i +++ "]")
            (cut 58 bind))
        0 d.binds

  abbrev config_part : NodeDefinition → List Finding
  config_part d =
      if contains d.startup_config (10 ∷ [])
      then []
      else check_optional_file lib bind_files (path +++ ".startup-config") d.startup_config

  abbrev license_part : NodeDefinition → List Finding
  license_part d = check_optional_file lib bind_files (path +++ ".license") d.license

  abbrev identity_part : NodeDefinition → List Finding
  identity_part d =
      check_optional_file lib bind_files (path +++ ".credentials.identity-file") d.identity_file

  abbrev stages_part : NodeDefinition → List Finding
  stages_part d = check_stages lib (path +++ ".stages") d.stages

  kind-empty :
      (k : Text) → check_kind lib path k ≡ [] → All (λ h. normalized lib k ≢ h) reaching_kinds
  unfolding check_kind add
  kind-empty k h =
      elim (Bool-cases (contains_func host_reaching_kinds (λ h. h == normalized lib k))) [
        | inl reaches ↦ absurd (cc (rw (reaches, check_kind) at h))
        | inr stays ↦
            All-imp (λ h. (h == normalized lib k) ≡ false) (λ h. normalized lib k ≢ h)
              host_reaching_kinds
              (λ h e same.
                absurd (cc (sym ((text_eq.equal_iff h (normalized lib k)).1 (sym same)) ∙ e)))
              (contains_func-none host_reaching_kinds _ stays)
      ]

  flag-empty : (b : Option Bool) → check_privileged lib path b ≡ [] → b ≢ some true
  unfolding check_privileged add
  flag-empty b h e = absurd (cc (rw e at h))

  -- If the check of a node definition finds nothing, its kind is none that reaches the server, it
  -- is not privileged, and the source of every bind mount, a startup configuration that is no inline
  -- text, the license and the identity file, if they are set, are relative paths that stay below the
  -- topology's directory at every step and lead to one of the topology's files or to a directory
  -- that has one in it.
  pub check_node_definition-contained :
      (d : NodeDefinition)
      → check_node_definition lib options bind_files path (some d) ≡ []
      → All (λ k. normalized lib d.kind ≢ k) reaching_kinds
        × (d.privileged ≢ some true)
        × All (λ b. IsOwnReference bind_files (cut 58 b)) d.binds
        × (d.startup_config ≢ []
            → contains d.startup_config (10 ∷ []) ≡ false
            → IsOwnReference bind_files d.startup_config)
        × (d.license ≢ [] → IsOwnReference bind_files d.license)
        × (d.identity_file ≢ [] → IsOwnReference bind_files d.identity_file)
  unfolding check_node_definition check_kind add
  check_node_definition-contained d h =
      let (rest₇, stages) =
        append-empty
          (check_kind lib path d.kind
            ++ image_part d
            ++ check_privileged lib path d.privileged
            ++ binds_part d
            ++ config_part d
            ++ license_part d
            ++ identity_part d)
          (stages_part d) h in
      let (rest₆, identity) =
        append-empty
          (check_kind lib path d.kind
            ++ image_part d
            ++ check_privileged lib path d.privileged
            ++ binds_part d
            ++ config_part d
            ++ license_part d)
          (identity_part d) rest₇ in
      let (rest₅, license) =
        append-empty
          (check_kind lib path d.kind
            ++ image_part d
            ++ check_privileged lib path d.privileged
            ++ binds_part d
            ++ config_part d)
          (license_part d) rest₆ in
      let (rest₄, config) =
        append-empty
          (check_kind lib path d.kind
            ++ image_part d
            ++ check_privileged lib path d.privileged
            ++ binds_part d)
          (config_part d) rest₅ in
      let (rest₃, binds) =
        append-empty
          (check_kind lib path d.kind ++ image_part d ++ check_privileged lib path d.privileged)
          (binds_part d) rest₄ in
      let (rest₂, flag) =
        append-empty (check_kind lib path d.kind ++ image_part d)
          (check_privileged lib path d.privileged) rest₃ in
      let (kind, image) = append-empty (check_kind lib path d.kind) (image_part d) rest₂ in
      (
        kind-empty d.kind kind,
        flag-empty d.privileged flag,
        for_index-empty _ _ 0 d.binds
            (λ i b.
              check_file_reference-empty (path +++ ".binds[" +++ decimal i +++ "]") (cut 58 b))
            binds,
        (λ given one_line.
            check_optional_file-empty (path +++ ".startup-config") d.startup_config
              (rw one_line at config) given),
        check_optional_file-empty _ d.license license,
        check_optional_file-empty _ d.identity_file identity,
      )
