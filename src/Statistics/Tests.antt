-- ===== src/Statistics/Tests.antt =====
-- The parsers on short files.
use antimony_backend.Base.{
  nat_eq, string_eq, ◌*◌, ◌/◌, ◌%◌, ◌^◌, ◌≤◌, ◌<◌, ◌≡◌, refl, false, List, [], ◌∷◌,
}
use antimony_backend.Policy.Text.{Text, codes, text_eq, has_prefix, leading}
use antimony_backend.Statistics.{
  max_uint64, parse_digits, parse_uint, close_field, fields_loop, split_fields, first_value,
  parse_keyed_uint, add_fields, is_cpu_line, add_lines, parse_proc_stat, parse_mem_total,
  counter_delta,
}
use antimony_backend.Statistics.Counters.{jiffies, parse_proc_stat-bounds}

abbrev stat : List Text
stat = codes "cpu  10 20" ∷ codes "cpu0 4 8" ∷ codes "cpu1 6 12" ∷ codes "intr 7" ∷ []

parse_proc_stat_test : parse_proc_stat stat ≡ (300000000, 2)
unfolding parse_proc_stat add_lines is_cpu_line has_prefix split_fields fields_loop close_field
    leading add_fields parse_uint parse_digits
parse_proc_stat_test = refl

parse_mem_total_test :
    parse_mem_total (codes "MemFree: 5 kB" ∷ codes "MemTotal:   16 kB" ∷ []) ≡ 16384
unfolding parse_mem_total parse_keyed_uint first_value has_prefix split_fields fields_loop
    close_field leading parse_uint parse_digits
parse_mem_total_test = refl

parse_uint_test : parse_uint (codes "18446744073709551616x") ≡ (18446744073709551615, false)
unfolding parse_uint parse_digits
parse_uint_test = refl

counter_delta_test : (counter_delta 5 3 ≡ 2) × (counter_delta 3 5 ≡ 0)
unfolding counter_delta
counter_delta_test = (refl, refl)

parse_proc_stat-bounds_example :
    (1 ≤ (parse_proc_stat stat).1)
    × ((parse_proc_stat stat).0 ≤ max_uint64 / 100)
    × ((parse_proc_stat stat).0 ≡ jiffies stat * 1000000000 % 2 ^ 64 / 100)
    × (jiffies stat * 1000000000 < 2 ^ 64 → (parse_proc_stat stat).0 ≡ jiffies stat * 10000000)
parse_proc_stat-bounds_example = parse_proc_stat-bounds stat
