-- ===== src/Utils/Pg/Quoting.antt =====
-- Quoted values, of src/utils/Pg.hpp.
use tarassov_me.Prelude.{ℕ, [], ◌∷◌, Option, none, some, Str, ◌==◌, if◌then◌else◌}

abbrev after : ℕ → Option (Str × Str) → Option (Str × Str)
after c none = none
after c (some (s, rest)) = some (c ∷ s, rest)

-- A backslash gives the next character its plain sense; a bare quote ends the value.
mutual
  read : Str → Option (Str × Str)
  read [] = none
  read (c ∷ s) =
      let rest = read s in
      let next = read_escaped s in
      if c == 39 then some ([], s) else if c == 92 then next else after c rest

  read_escaped : Str → Option (Str × Str)
  read_escaped [] = none
  read_escaped (c ∷ s) = after c (read s)

abbrev tail : Str → Str
tail [] = []
tail (c ∷ s) = s

abbrev value_of : Option (Str × Str) → Str
value_of none = []
value_of (some (v, s)) = v

abbrev rest_of : Option (Str × Str) → Str
rest_of none = []
rest_of (some (v, s)) = s
