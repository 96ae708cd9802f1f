-- ===== src/Args/Tests.antt =====
-- The theorem on the arguments, at short ones.
use postfga.Prelude.{[], ◌∷◌}
use postfga.Args.{TupleArgs}

abbrev args : TupleArgs
args = record {
  object_type = 100 ∷ [];
  object_id = 49 ∷ [];
  subject_type = 117 ∷ [];
  subject_id = 97 ∷ [];
  relation = 114 ∷ [];
}
