-- ===== src/Relations.antt =====
-- The relations of the setting: `init_relation_bitmap` of src/relation.c and the guards of `register_relation`. What
-- the latter does behind them uses an uninitialised pointer and is not modelled: a registration is its arguments.
-- A text is its bytes, `none` for the null pointer.
pub mod Order
mod Tests
use postfga.Prelude.{
  ℕ, ◌+◌, Bool, true, false, Option, none, some, List, [], ◌∷◌, leb, ◌==◌, ◌||◌, if◌then◌else◌,
}

-- A relation with its bit.
abbrev pub Registration : Type 0
Registration = List ℕ × ℕ

pub data Registered : Type 0 where
  invalid_name : Registered
  out_of_range : Registered
  past_guards : Registered

-- `register_relation` up to its use of `entry`.
unfoldable pub register_relation : Option (List ℕ) → ℕ → Registered
register_relation none bit_index = invalid_name
register_relation (some []) bit_index = invalid_name
register_relation (some (c ∷ cs)) bit_index = if leb 64 bit_index then out_of_range else past_guards

-- The loop that skips the blanks before a token.
unfoldable pub trim : List ℕ → List ℕ
trim [] = []
trim (c ∷ cs) = let rest = trim cs in if c == 32 || c == 9 then rest else c ∷ cs

abbrev pub push : ℕ → List (List ℕ) → List (List ℕ)
push c [] = (c ∷ []) ∷ []
push c (piece ∷ pieces) = (c ∷ piece) ∷ pieces

-- The pieces of a text between its commas,
unfoldable pub split : List ℕ → List (List ℕ)
split [] = [] ∷ []
split (c ∷ cs) = let pieces = split cs in if c == 44 then [] ∷ pieces else push c pieces

abbrev pub drop_empty : List (List ℕ) → List (List ℕ)
drop_empty [] = []
drop_empty ([] ∷ pieces) = drop_empty pieces
drop_empty ((c ∷ cs) ∷ pieces) = (c ∷ cs) ∷ drop_empty pieces

-- of which `strtok_r` returns those that are not empty.
abbrev pub strtok : List ℕ → List (List ℕ)
unfolding split
strtok text = drop_empty (split text)

-- The bit for the token after this one.
abbrev pub next_bit : List ℕ → ℕ → ℕ
next_bit [] bit_index = bit_index
next_bit (c ∷ cs) bit_index = bit_index + 1

-- What a trimmed token adds to the registrations of the tokens behind it.
abbrev pub register : List ℕ → ℕ → List Registration → List Registration
register [] bit_index rest = rest
register (c ∷ cs) bit_index rest = if leb 64 bit_index then [] else (c ∷ cs, bit_index) ∷ rest

-- The loop over the tokens: `register_relation` is called in this order, and the loop is left at 64 relations.
unfoldable pub register_all : ℕ → List (List ℕ) → List Registration
unfolding trim
register_all bit_index [] = []
register_all bit_index (token ∷ tokens) =
    register (trim token) bit_index (register_all (next_bit (trim token) bit_index) tokens)

unfoldable pub init_relation_bitmap : Option (List ℕ) → List Registration
unfolding split register_all
init_relation_bitmap none = []
init_relation_bitmap (some []) = []
init_relation_bitmap (some (c ∷ cs)) = register_all 0 (strtok (c ∷ cs))
