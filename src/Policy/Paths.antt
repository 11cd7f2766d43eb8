-- ===== src/Policy/Paths.antt =====
-- The functions of Go's path/filepath package that policy/engine.go calls, on Linux.
use antimony_backend.Base.{
  ◌==◌, nat_eq, string_eq, nat_beq, if◌then◌else◌, ℕ, Bool, not, ◌&&◌, ◌||◌, List, [], ◌∷◌, ◌++◌,
}
use antimony_backend.Policy.Text.{Text, codes, text_eq, has_prefix}

abbrev pub slash : ℕ
slash = 47

unfoldable pub is_abs : Text → Bool
is_abs s = has_prefix s (codes "/")

-- The parts of a path between its slashes.
unfoldable pub split_onto : Text → Text → List Text
split_onto part [] = part ∷ []
split_onto part (a ∷ s) =
    let rest = split_onto [] s in
    let on = split_onto (part ++ a ∷ []) s in if nat_beq a slash then part ∷ rest else on

-- The stack of `filepath.Clean`, its last part first: `..` takes the part before it away, and is
-- dropped at the root.
unfoldable pub clean_part : Bool → List Text → Text → List Text
clean_part rooted [] part =
    if part == [] || part == codes "."
    then []
    else if part == codes ".." && rooted
    then []
    else part ∷ []
clean_part rooted (last ∷ stack) part =
    if part == [] || part == codes "."
    then last ∷ stack
    else if part == codes ".." && not (last == codes "..")
    then stack
    else part ∷ last ∷ stack

unfoldable pub clean_parts : Bool → List Text → List Text → List Text
clean_parts rooted stack [] = stack
clean_parts rooted stack (part ∷ parts) = clean_parts rooted (clean_part rooted stack part) parts

-- The parts of a stack, the first one first, with slashes between them.
unfoldable pub join_onto : List Text → Text → Text
join_onto [] s = s
join_onto (part ∷ stack) s = join_onto stack (part ++ slash ∷ s)

unfoldable pub join : List Text → Text
join [] = []
join (last ∷ stack) = join_onto stack last

-- `filepath.Clean`.
unfoldable pub clean : Text → Text
clean s =
    let joined = join (clean_parts (is_abs s) [] (split_onto [] s)) in
    if is_abs s then slash ∷ joined else if joined == [] then codes "." else joined

-- `filepath.IsLocal`. Go cleans the path only if it has a part `.` or `..`; any other path stays
-- clear of both tests after it.
unfoldable pub is_local : Text → Bool
is_local s =
    not (is_abs s)
    && not (s == [])
    && not (clean s == codes ".." || has_prefix (clean s) (codes "../"))
