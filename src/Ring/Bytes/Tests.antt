-- ===== src/Ring/Bytes/Tests.antt =====
-- Runs of the byte ring.
use antimony_backend.Base.{nat_eq, string_eq, ℕ, ◌-◌, ◌≡◌, refl, false, List, [], ◌∷◌}
use antimony_backend.Ring.Bytes.{create, add_many, items}
use antimony_backend.Ring.Bytes.Lines.{count, drop_lines}
use antimony_backend.Ring.Bytes.Chunks.{IsValid, create-IsValid, add_many_lem}

abbrev text : List ℕ
text = 97 ∷ 10 ∷ 98 ∷ 10 ∷ 99 ∷ []

keeps_one_line : items (add_many (create false 1) text) ≡ 98 ∷ 10 ∷ 99 ∷ []
unfolding items add_many create
keeps_one_line = refl

add_many_lem_example :
    ((add_many (create false 1) text).buf
      ≡ drop_lines (count text - (create false 1).max_lines) text)
    × IsValid (add_many (create false 1) text)
unfolding create
add_many_lem_example = add_many_lem (create false 1) text (create-IsValid false 1)
