-- ===== src/Statistics.antt =====
-- deployment/stats.go: the counters that a node's statistics are computed from, and the parsers of
-- the kernel's files that both samplers share. A uint64 is a natural number with its wrap-around
-- written out; `int` counts lines and does not wrap. A text is the list of its bytes.
pub mod Counters
pub mod Tests
use antimony_backend.Base.{
  Eq, ◌==◌, nat_eq, string_eq, ==_refl, ltb, leb, nat_beq, if◌then◌else◌, ltb→lt, leb→le, ltb-of_lt,
  ltb-of_le, nat_beq_iff, Bool-cases, Option-cases, some-injective, split_option, ◌>>=◌, length,
  get_elem?, take, drop, replicate, store, length-append, length-take, length-drop,
  length-replicate, take-append-drop, take_all, drop_all, drop-append, drop-drop, get_elem?-some,
  Stores, store-some, All, In, All-In, All-of_In, All-imp, All-append, In-append_left,
  In-append_right, lookup, put, delete, Map, lookup-put, lookup-delete, lookup-put_self,
  lookup-put_ne, lookup-delete_self, lookup-delete_ne, lookup-put-some, lookup-delete-some, ℕ, zero,
  suc, ◌+◌, ◌-◌, ◌*◌, ◌/◌, ◌%◌, ◌^◌, ◌≤◌, ◌<◌, min, String, ◌≡◌, refl, sym, ap, subst, ◌∙◌, ◌≢◌,
  ◌↔◌, ◌⊎◌, inl, inr, Bool, true, false, not, ◌&&◌, ◌||◌, Option, none, some, List, [], ◌∷◌, ◌++◌,
  map, append-nil, append_assoc, arith,
}
use antimony_backend.Policy.Text.{Text, codes, text_eq, has_prefix, leading, spaces, trim_space}

abbrev pub max_uint64 : ℕ
max_uint64 = 18446744073709551615

-- `strconv.ParseUint(s, 10, 64)`: the value, and whether there is no error. A number that is too
-- large ends the loop with the largest value, before the bytes after it are looked at.
unfoldable pub parse_digits : ℕ → Text → ℕ × Bool
parse_digits n [] = (n, true)
parse_digits n (c ∷ cs) =
    let value = n * 10 + (c - 48) in
    let rest = parse_digits value cs in
    if ltb c 48 || ltb 57 c
    then (0, false)
    else if ltb max_uint64 value
    then (max_uint64, false)
    else rest

unfoldable pub parse_uint : Text → ℕ × Bool
parse_uint [] = (0, false)
parse_uint (c ∷ cs) = parse_digits 0 (c ∷ cs)

-- `strings.Fields`: the current field is kept in `field`, and `skip` counts the bytes of a space
-- that are still to be passed over.
unfoldable pub close_field : Text → List Text → List Text
close_field [] rest = rest
close_field (a ∷ field) rest = (a ∷ field) ∷ rest

unfoldable pub fields_loop : Text → ℕ → Text → List Text
fields_loop field skip [] = close_field field []
fields_loop field (suc skip) (a ∷ s) = fields_loop field skip s
fields_loop field zero (a ∷ s) =
    let width = leading spaces (a ∷ s) in
    let within = fields_loop (field ++ a ∷ []) 0 s in
    let after = fields_loop [] (width - 1) s in
    if nat_beq width 0 then within else close_field field after

unfoldable pub split_fields : Text → List Text
split_fields s = fields_loop [] 0 s

-- A counter that went down was reset, and counts as no growth.
unfoldable pub counter_delta : ℕ → ℕ → ℕ
counter_delta current previous = if ltb current previous then 0 else current - previous

unfoldable pub first_value : List Text → ℕ
first_value [] = 0
first_value (f ∷ fs) = (parse_uint f).0

unfoldable pub parse_keyed_uint : List Text → Text → ℕ
parse_keyed_uint [] key = 0
parse_keyed_uint (l ∷ ls) key =
    let rest = parse_keyed_uint ls key in
    if has_prefix l (key ++ codes " ") || has_prefix l (key ++ 9 ∷ [])
    then first_value (split_fields (drop (length key) l))
    else rest

-- `max` and the kernel's unlimited sentinel mean the memory of the whole system.
unfoldable pub parse_memory_max : Text → ℕ → ℕ
parse_memory_max s system_total =
    let (v, valid) = parse_uint (trim_space s) in
    if trim_space s == codes "max"
    then system_total
    else if not valid || leb 9223372036854771712 v
    then system_total
    else v

unfoldable pub parse_memory_usage : ℕ → ℕ → ℕ
parse_memory_usage current inactive_file =
    if leb inactive_file current then current - inactive_file else current

-- The loop over the fields of the line of all processors.
unfoldable pub add_fields : ℕ → List Text → ℕ
add_fields total [] = total
add_fields total (f ∷ fs) =
    let (v, valid) = parse_uint f in add_fields (if valid then (total + v) % 2 ^ 64 else total) fs

unfoldable pub is_cpu_line : Text → Bool
is_cpu_line l = has_prefix l (codes "cpu") && leb 4 (length l)

-- The total and the number of processors after some lines.
unfoldable pub add_lines : ℕ → ℕ → List Text → ℕ × ℕ
add_lines total cpus [] = (total, cpus)
add_lines total cpus (l ∷ ls) =
    let skipped = add_lines total cpus ls in
    let summed = add_lines (add_fields total (split_fields (drop 4 l))) cpus ls in
    let counted = add_lines total (cpus + 1) ls in
    if not (is_cpu_line l)
    then skipped
    else if has_prefix (drop 3 l) (codes " ")
    then summed
    else counted

unfoldable pub parse_proc_stat : List Text → ℕ × ℕ
parse_proc_stat lines =
    let (total, cpus) = add_lines 0 0 lines in
    ((total * 1000000000) % 2 ^ 64 / 100, if nat_beq cpus 0 then 1 else cpus)

unfoldable pub parse_mem_total : List Text → ℕ
parse_mem_total lines = parse_keyed_uint lines (codes "MemTotal:") * 1024 % 2 ^ 64

-- The text before and after the first colon.
unfoldable pub split_colon : Text → Option (Text × Text)
split_colon [] = none
split_colon (a ∷ s) =
    let rest = split_colon s in
    if nat_beq a 58 then some ([], s) else (do (before, after) ← rest; some (a ∷ before, after))

unfoldable pub value_at : ℕ → List Text → ℕ
value_at i fs = elim (get_elem? fs i) [ none ↦ 0 | some f ↦ (parse_uint f).0 ]

-- What one line of the network file adds: a device other than the loopback with nine fields.
unfoldable pub add_device : Text → Map Text (ℕ × ℕ) → Map Text (ℕ × ℕ)
add_device l out = elim (split_colon l) [
  | none ↦ out
  | some (before, after) ↦
      let name = trim_space before in
      let fs = split_fields after in
      if name == codes "lo" || ltb (length fs) 9
      then out
      else put name (value_at 0 fs, value_at 8 fs) out
]

unfoldable pub net_dev_loop : List Text → Map Text (ℕ × ℕ) → Map Text (ℕ × ℕ)
net_dev_loop [] out = out
net_dev_loop (l ∷ ls) out = net_dev_loop ls (add_device l out)

unfoldable pub parse_net_dev : List Text → Map Text (ℕ × ℕ)
parse_net_dev lines = net_dev_loop lines []
