-- ===== src/Args/Tuples.antt =====
-- What the fixed fields of a request keep of the arguments.
use postfga.Prelude.{
  ℕ, zero, suc, ◌-◌, ◌≤◌, ◌≡◌, refl, sym, ap, ◌∙◌, List, [], ◌∷◌, ◌++◌, length, take, arith,
}
use postfga.Payload.{Tuple}
use postfga.Args.{TupleArgs, write_text, fill_tuple}

take-append : (n : ℕ) (xs ys : List ℕ) → n ≤ length xs → take n (xs ++ ys) ≡ take n xs
take-append zero xs ys h = refl
take-append (suc n) [] ys h = absurd (omega arith)
take-append (suc n) (x ∷ xs) ys h = ap (◌∷◌ x) (take-append n xs ys (omega arith))

take-all : (n : ℕ) (xs : List ℕ) → length xs ≤ n → take n xs ≡ xs
take-all zero [] h = refl
take-all zero (x ∷ xs) h = absurd (omega arith)
take-all (suc n) [] h = refl
take-all (suc n) (x ∷ xs) h = ap (◌∷◌ x) (take-all n xs (omega arith))

pub write_text-take : (n : ℕ) (src : List ℕ) → write_text (suc n) src ≡ take n src
unfolding write_text
write_text-take n src =
    let fits : length src ≤ n → take n src ≡ src = take-all n src in
    let cut : suc n - 1 ≡ n = omega arith in rw cut (ground (arith, fits))

-- The texts of `fill_tuple`, as a list.
abbrev pub texts : Tuple → List (List ℕ)
texts t = t.object_type ∷ t.object_id ∷ t.subject_type ∷ t.subject_id ∷ t.relation ∷ []

-- `fill_tuple` keeps of each argument the first 63 bytes. So arguments of at most 63 bytes are kept whole, and
-- object ids that agree in 63 bytes, whatever follows, are sent to the server as the same tuple.
pub fill_tuple_lem :
    (args : TupleArgs) (rest : List ℕ)
    → (texts (fill_tuple args)
        ≡ take 63 args.object_type
          ∷ take 63 args.object_id
          ∷ take 63 args.subject_type
          ∷ take 63 args.subject_id
          ∷ take 63 args.relation
          ∷ [])
      × (length args.object_id ≤ 63 → (fill_tuple args).object_id ≡ args.object_id)
      × (63 ≤ length args.object_id
          → fill_tuple (record args { object_id = args.object_id ++ rest }) ≡ fill_tuple args)
unfolding fill_tuple
fill_tuple_lem args rest = (
  simp (write_text-take 63),
  λ h. write_text-take 63 args.object_id ∙ take-all 63 args.object_id h,
  λ h.
      ap (λ (o : List ℕ). record (fill_tuple args) { object_id = o })
        (write_text-take 63 (args.object_id ++ rest)
          ∙ take-append 63 args.object_id rest h
          ∙ sym (write_text-take 63 args.object_id)),
)
