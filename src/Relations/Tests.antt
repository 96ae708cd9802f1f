-- ===== src/Relations/Tests.antt =====
-- The setting "read,write".
use postfga.Prelude.{List, [], ◌∷◌, ℕ}

abbrev read : List ℕ
read = 114 ∷ 101 ∷ 97 ∷ 100 ∷ []

abbrev write : List ℕ
write = 119 ∷ 114 ∷ 105 ∷ 116 ∷ 101 ∷ []
