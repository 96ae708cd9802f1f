-- ===== src/Channel/Vacancy.antt =====
-- The pool: the free list holds exactly the EMPTY slots, each once.
use native.Mathlib.Decide.{dec_lt}
use postfga.Prelude.{
  ℕ, zero, suc, ◌+◌, ◌<◌, ◌≤◌, ◌≡◌, ◌≢◌, refl, ap, ◌∙◌, sym, false, List, [], ◌∷◌, length, get_or,
  get_or-set_self, get_or-set_ne, length-set, ltb, ◌==◌, ==_iff, if◌then◌else◌, arith, inl, inr,
  Bool-cases,
}
use postfga.FreeList.{SlotList, occurrences}
use postfga.Channel.{
  Slot, SlotState, empty, canceled, pending, processing, done, Pool, outside, empty_slot, state_of,
  write_state, init_slot, init_slots, pool_init, release_slot,
}

-- 1 for an EMPTY slot, 0 for any other.
unfoldable pub vacancy : SlotState → ℕ
vacancy empty = 1
vacancy canceled = 0
vacancy pending = 0
vacancy processing = 0
vacancy done = 0

pub vacancy_of_ne : (s : SlotState) → s ≢ empty → vacancy s ≡ 0
unfolding vacancy
vacancy_of_ne empty h = absurd (h refl)
vacancy_of_ne canceled h = refl
vacancy_of_ne pending h = refl
vacancy_of_ne processing h = refl
vacancy_of_ne done h = refl

pub empty_of_vacancy : (s : SlotState) → 0 < vacancy s → s ≡ empty
unfolding vacancy
empty_of_vacancy empty h = refl
empty_of_vacancy canceled h = absurd (omega (arith, h))
empty_of_vacancy pending h = absurd (omega (arith, h))
empty_of_vacancy processing h = absurd (omega (arith, h))
empty_of_vacancy done h = absurd (omega (arith, h))

pub vacancy_le_one : (s : SlotState) → vacancy s ≤ 1
unfolding vacancy
vacancy_le_one empty = omega arith
vacancy_le_one canceled = omega arith
vacancy_le_one pending = omega arith
vacancy_le_one processing = omega arith
vacancy_le_one done = omega arith

pub vacancy-outside :
    (xs : List Slot) (i : ℕ) → length xs ≤ i → vacancy (get_or xs i outside).state ≡ 0
unfolding vacancy
vacancy-outside [] i h = refl
vacancy-outside (x ∷ xs) zero h = absurd (omega arith)
vacancy-outside (x ∷ xs) (suc i) h = vacancy-outside xs i (omega arith)

module _ {T : Type 0} (S : SlotList T) where
  abbrev pub IsConsistent : Pool T → Type 0
  IsConsistent pool = (i : ℕ) → occurrences i (S.nodes pool.head) ≡ vacancy (state_of S pool i)

  -- A write at one slot is seen there, and nowhere else.
  pub state_of-write_state :
      (pool : Pool T) (i j : ℕ) (s : SlotState)
      → i < length pool.slots
      → state_of S (write_state S pool i s) j ≡ (if i == j then s else state_of S pool j)
  unfolding write_state
  state_of-write_state pool i j s h = elim (Bool-cases (i == j)) [
    | inl e ↦ rw (e, ← (==_iff i j).0 e) (seen (get_or-set_self pool.slots i _ outside h))
    | inr e ↦ rw e (seen (get_or-set_ne pool.slots i j _ outside (apart e)))
  ]
    where
      seen : {a b : Slot} → a ≡ b → a.state ≡ b.state
      seen p = ap (λ (x : Slot). x.state) p

      apart : (i == j) ≡ false → i ≢ j
      apart e p = ground (arith, ==_iff i j)

  pub length-write_state :
      (pool : Pool T) (i : ℕ) (s : SlotState)
      → length (write_state S pool i s).slots ≡ length pool.slots
  unfolding write_state
  length-write_state pool i s = length-set pool.slots i _

  -- A slot that is not EMPTY may change its state to another such.
  pub write_state-IsConsistent :
      (pool : Pool T) (i : ℕ) (s : SlotState)
      → IsConsistent pool
      → i < length pool.slots
      → state_of S pool i ≢ empty
      → s ≢ empty
      → IsConsistent (write_state S pool i s)
  unfolding write_state
  write_state-IsConsistent pool i s c h busy new j =
      let at = state_of-write_state pool i j s h in
      rw at (
        ground (
          arith,
          c j,
          vacancy_of_ne s new,
          vacancy_of_ne (state_of S pool i) busy,
          ==_iff i j,
          ap (λ k. vacancy (state_of S pool k)) {x = i} {y = j},
        ))

  vacancy-count :
      (pool : Pool T) (i j : ℕ)
      → IsConsistent pool
      → state_of S pool i ≢ empty
      → (if i == j then 1 else 0) + occurrences j (S.nodes pool.head)
        ≡ vacancy (if i == j then empty else state_of S pool j)
  unfolding vacancy
  vacancy-count pool i j c busy = elim (Bool-cases (i == j)) [
    | inl e ↦ rw (e, c j, ← (==_iff i j).0 e, vacancy_of_ne (state_of S pool i) busy) refl
    | inr e ↦ rw (e, c j) (omega arith)
  ]

  -- `release_slot` of a slot that is not EMPTY keeps the pool consistent.
  pub release_slot-IsConsistent :
      (pool : Pool T) (i : ℕ)
      → IsConsistent pool
      → i < length pool.slots
      → state_of S pool i ≢ empty
      → IsConsistent (release_slot S pool i)
  unfolding release_slot
  release_slot-IsConsistent pool i c h busy j =
      ap (occurrences j)
        (S.nodes-push_head pool.head i (c i ∙ vacancy_of_ne (state_of S pool i) busy))
      ∙ vacancy-count pool i j c busy
      ∙ sym (ap vacancy (state_of-write_state pool i j empty h))

  -- The first `i` slots are listed and EMPTY.
  abbrev IsPrefix : Pool T → ℕ → Type 0
  IsPrefix pool i =
      (i ≤ length pool.slots)
      × ((j : ℕ) → occurrences j (S.nodes pool.head) ≡ (if ltb j i then 1 else 0))
      × ((j : ℕ) → j < i → state_of S pool j ≡ empty)

  init_slot-IsPrefix :
      (pool : Pool T) (i : ℕ)
      → i < length pool.slots
      → IsPrefix pool i
      → IsPrefix (init_slot S pool i) (suc i)
  unfolding init_slot
  init_slot-IsPrefix pool i h (bound, listed, all) = (
    omega (arith, length-set pool.slots i empty_slot),
    λ j.
        ap (occurrences j) (S.nodes-push_head pool.head i (listed i ∙ ground arith))
        ∙ ground (arith, listed j),
    λ j below. elim (Bool-cases (i == j)) [
      | inl e ↦
          rw (← (==_iff i j).0 e)
            (ap (λ (x : Slot). x.state) (get_or-set_self pool.slots i _ outside h))
      | inr e ↦
          ap (λ (x : Slot). x.state)
            (get_or-set_ne pool.slots i j _ outside (λ p. ground (arith, ==_iff i j)))
          ∙ all j (ground (arith, ==_iff i j))
    ],
  )

  init_slots-IsPrefix :
      (pool : Pool T) (i rounds : ℕ)
      → i + rounds ≡ length pool.slots
      → IsPrefix pool i
      → let pool' = init_slots S pool i rounds in
        IsPrefix pool' (length pool'.slots) × (length pool'.slots ≡ length pool.slots)
  unfolding init_slots init_slot
  init_slots-IsPrefix pool i zero e (bound, listed, all) =
      let q : i ≡ length pool.slots = omega (arith, e) in
      ((omega arith, λ j. rw (← q) (listed j), λ j below. all j (omega (arith, q, below))), refl)
  init_slots-IsPrefix pool i (suc rounds) e p =
      let kept : length (init_slot S pool i).slots ≡ length pool.slots =
        length-set pool.slots i empty_slot in
      let next = init_slot-IsPrefix pool i (omega (arith, e)) p in
      let (whole, same) =
        init_slots-IsPrefix (init_slot S pool i) (suc i) rounds (omega (arith, e, kept)) next in
      (whole, same ∙ kept)

  -- `pool_init` over an array of `max_slots` slots makes a consistent pool of that many slots, all EMPTY.
  pub pool_init-IsConsistent :
      (memory : List Slot) (max_slots : ℕ)
      → length memory ≡ max_slots
      → let pool = pool_init S memory max_slots in
        IsConsistent pool
        × (length pool.slots ≡ max_slots)
        × ((i : ℕ) → i < max_slots → state_of S pool i ≡ empty)
  unfolding pool_init vacancy
  pool_init-IsConsistent memory max_slots e =
      let start : Pool T = record { head = S.init; slots = memory } in
      let ((bound, listed, all), same) = init_slots-IsPrefix start 0 max_slots (omega (arith, e)) (
        omega arith,
        λ j. rw S.nodes-init (ground arith),
        λ j below. absurd (omega (arith, below)),
      ) in
      let pool = init_slots S start 0 max_slots in
      (
        λ j. listed j ∙ elim (dec_lt j (length pool.slots)) [
          | yes h ↦ rw (all j h) (ground (arith, h))
          | no h ↦ ground (arith, h, vacancy-outside pool.slots j)
        ],
        same ∙ e,
        λ i below. all i (omega (arith, below, same, e)),
      )
