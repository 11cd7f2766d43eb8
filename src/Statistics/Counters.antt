-- ===== src/Statistics/Counters.antt =====
-- The bounds of the values that are parsed, and where the system time wraps around.
use antimony_backend.Base.{
  nat_eq, string_eq, if◌then◌else◌, Bool-cases, drop, ℕ, ◌+◌, ◌*◌, ◌/◌, ◌%◌, ◌^◌, ◌≤◌, ◌<◌, ◌≡◌,
  ◌∙◌, inl, inr, ◌&&◌, List, [], ◌∷◌, arith,
}
use antimony_backend.Policy.Text.{Text, has_prefix, codes}
use antimony_backend.Statistics.{
  max_uint64, parse_uint, split_fields, add_fields, is_cpu_line, add_lines, parse_proc_stat,
}

-- The jiffies of a line, without wrap-around.
unfoldable pub sum_fields : List Text → ℕ
sum_fields [] = 0
sum_fields (f ∷ fs) =
    let (v, valid) = parse_uint f in if valid then v + sum_fields fs else sum_fields fs

-- The jiffies of all lines of all processors together, without wrap-around.
unfoldable pub jiffies : List Text → ℕ
jiffies [] = 0
jiffies (l ∷ ls) =
    let rest = jiffies ls in
    if is_cpu_line l && has_prefix (drop 3 l) (codes " ")
    then sum_fields (split_fields (drop 4 l)) + rest
    else rest

add_fields-mod :
    (total : ℕ) (fs : List Text)
    → total < 2 ^ 64
    → add_fields total fs ≡ (total + sum_fields fs) % 2 ^ 64
unfolding add_fields sum_fields
add_fields-mod total [] h = omega (arith, h)
add_fields-mod total (f ∷ fs) h = elim (Bool-cases (parse_uint f).1) [
  | inl valid ↦
      let v = (parse_uint f).0 in
      let below : (total + v) % 2 ^ 64 < 2 ^ 64 = omega arith in
      rw (valid) (add_fields-mod ((total + v) % 2 ^ 64) fs below ∙ omega arith)
  | inr invalid ↦ rw (invalid) (add_fields-mod total fs h)
]

add_lines-jiffies :
    (total cpus : ℕ) (ls : List Text)
    → total < 2 ^ 64
    → (add_lines total cpus ls).0 ≡ (total + jiffies ls) % 2 ^ 64
unfolding add_lines jiffies
add_lines-jiffies total cpus [] h = omega (arith, h)
add_lines-jiffies total cpus (l ∷ ls) h = elim (Bool-cases (is_cpu_line l)) [
  | inr other ↦ rw (other) (add_lines-jiffies total cpus ls h)
  | inl cpu ↦ elim (Bool-cases (has_prefix (drop 3 l) (codes " "))) [
    | inr one ↦ rw (cpu, one) (add_lines-jiffies total (cpus + 1) ls h)
    | inl all ↦
        let fs = split_fields (drop 4 l) in
        let below : add_fields total fs < 2 ^ 64 = rw (add_fields-mod total fs h) (omega arith) in
        rw (cpu, all)
          (add_lines-jiffies (add_fields total fs) cpus ls below
            ∙ rw (add_fields-mod total fs h) (omega arith))
  ]
]

-- At least one processor is reported, and the system time is at most 2 ^ 64 / 100. It is ten million
-- nanoseconds for each jiffy of the aggregate line as long as the number of jiffies times 10 ^ 9 is
-- below 2 ^ 64; in all cases that product is taken modulo 2 ^ 64 before it is divided by 100.
pub parse_proc_stat-bounds :
    (lines : List Text)
    → (1 ≤ (parse_proc_stat lines).1)
      × ((parse_proc_stat lines).0 ≤ max_uint64 / 100)
      × ((parse_proc_stat lines).0 ≡ jiffies lines * 1000000000 % 2 ^ 64 / 100)
      × (jiffies lines * 1000000000 < 2 ^ 64 → (parse_proc_stat lines).0 ≡ jiffies lines * 10000000)
unfolding parse_proc_stat
parse_proc_stat-bounds lines =
    let total = add_lines-jiffies 0 0 lines (omega arith) in
    (ground arith, omega arith, omega (arith, total), λ h. omega (arith, total, h))
