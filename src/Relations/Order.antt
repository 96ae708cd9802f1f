-- ===== src/Relations/Order.antt =====
-- Which relations a well-formed setting registers.
use postfga.Prelude.{
  ℕ, ◌+◌, ◌≡◌, Bool, true, false, not, some, List, [], ◌∷◌, ◌++◌, ◌==◌, ◌&&◌, ◌||◌,
}
use postfga.Relations.{Registration, past_guards, register_relation}

abbrev no_comma : List ℕ → Bool
no_comma [] = true
no_comma (c ∷ cs) = not (c == 44) && no_comma cs

abbrev no_blank_first : List ℕ → Bool
no_blank_first [] = false
no_blank_first (c ∷ cs) = not (c == 32 || c == 9)

-- The names of relations: not empty, no comma, and no blank before them.
abbrev pub AllNames : List (List ℕ) → Type 0
AllNames [] = Unit
AllNames (name ∷ names) = (no_blank_first name ≡ true) × (no_comma name ≡ true) × AllNames names

-- A setting that lists them.
abbrev pub join : List (List ℕ) → List ℕ
join [] = []
join (name ∷ []) = name
join (name ∷ second ∷ names) = name ++ (44 ∷ join (second ∷ names))

abbrev pub numbered : ℕ → List (List ℕ) → List Registration
numbered bit_index [] = []
numbered bit_index (name ∷ names) = (name, bit_index) ∷ numbered (bit_index + 1) names

abbrev pub AllPassed : List Registration → Type 0
AllPassed [] = Unit
AllPassed ((name, bit_index) ∷ more) =
    (register_relation (some name) bit_index ≡ past_guards) × AllPassed more
