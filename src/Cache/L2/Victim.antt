-- ===== src/Cache/L2/Victim.antt =====
-- The clock sweep: it ends, lowers usage counts and nothing else, and what it returns can be reused.
use native.Mathlib.Nat.{mod-lt}
use native.Mathlib.Decide.{ℕ_discrete}
use postfga.Prelude.{
  ℕ, zero, suc, ◌+◌, ◌-◌, ◌%◌, ◌<◌, ◌≤◌, ◌≡◌, ◌⊎◌, inl, inr, refl, ap, ◌∙◌, true, Option, none,
  some, List, [], ◌∷◌, length, length-set, set, get_or-set_self, get_or-set_ne, ltb, ◌==◌,
  if◌then◌else◌, u32, Bool-cases, ==_refl, arith,
}
use postfga.Cache.L2.{
  Entry, Cache, blank, entry_at, uint32_max, entry_expired, total_usage, sweep_round, sweep,
  find_victim_slot,
}

-- An entry apart from its usage count.
abbrev pub core : Entry → Entry
core e = record e { usage_count = 0 }

-- Two arrays that differ in usage counts only.
pub record SameCores (xs ys : List Entry) : Type 0 where
  pub as_long : length ys ≡ length xs
  pub same : (i : ℕ) → core (entry_at ys i) ≡ core (entry_at xs i)

pub SameCores-refl : (xs : List Entry) → SameCores xs xs
SameCores-refl xs = record { as_long = refl; same = λ i. refl }

pub SameCores-trans : (xs ys zs : List Entry) → SameCores xs ys → SameCores ys zs → SameCores xs zs
SameCores-trans xs ys zs h k = record {
  as_long = k.as_long ∙ h.as_long;
  same = λ i. k.same i ∙ h.same i;
}

-- A write of a usage count.
pub SameCores-set :
    (xs : List Entry) (i n : ℕ)
    → i < length xs
    → SameCores xs (set xs i (record (entry_at xs i) { usage_count = n }))
SameCores-set xs i n h = record {
  as_long = length-set xs i (record (entry_at xs i) { usage_count = n });
  same = λ j. elim (ℕ_discrete i j) [
    | yes e ↦
        rw (← e)
          (ap core (get_or-set_self xs i (record (entry_at xs i) { usage_count = n }) blank h))
    | no ne ↦ ap core (get_or-set_ne xs i j (record (entry_at xs i) { usage_count = n }) blank ne)
  ];
}

-- Lowering a positive count lowers the total by one.
total_usage-set :
    (xs : List Entry) (i : ℕ)
    → i < length xs
    → 0 < (entry_at xs i).usage_count
    → suc (
        total_usage
          (set xs i (record (entry_at xs i) { usage_count = (entry_at xs i).usage_count - 1 })))
      ≡ total_usage xs
unfolding total_usage
total_usage-set [] i h p = elim h [ ]
total_usage-set (x ∷ xs) zero h p = omega arith
total_usage-set (x ∷ xs) (suc i) h p = omega (arith, total_usage-set xs i (omega arith) p)

module _ {T : Type 0} where
  -- What the sweep needs of the cache.
  pub record IsArray (c : Cache T) : Type 0 where
    pub full : length c.entries ≡ c.capacity
    pub room : 0 < c.capacity
    pub narrow : c.capacity < 4294967296

  -- What it leaves alone.
  pub record Swept (c d : Cache T) : Type 0 where
    pub capacity_same : d.capacity ≡ c.capacity
    pub generation_same : d.generation ≡ c.generation
    pub table_same : d.slot_table ≡ c.slot_table
    pub cores : SameCores c.entries d.entries

  pub Swept-trans : (b c d : Cache T) → Swept b c → Swept c d → Swept b d
  Swept-trans b c d h k = record {
    capacity_same = k.capacity_same ∙ h.capacity_same;
    generation_same = k.generation_same ∙ h.generation_same;
    table_same = k.table_same ∙ h.table_same;
    cores = SameCores-trans b.entries c.entries d.entries h.cores k.cores;
  }

  pub Swept-IsArray : (c d : Cache T) → Swept c d → IsArray c → IsArray d
  Swept-IsArray c d s a = omega (arith, s.cores.as_long, s.capacity_same, a.full, a.room, a.narrow)

  -- A slot that may be given away: stale, or not used since the hand last passed.
  abbrev pub IsVictim : Cache T → ℕ → ℕ → Type 0
  IsVictim c now i =
      (i < c.capacity)
      × ((entry_expired c.generation (entry_at c.entries i) now ≡ true)
          ⊎ ((entry_at c.entries i).usage_count ≡ 0))

  -- One round ends with a victim, or gives up on a cache of one slot, or lowers the total.
  Round : Cache T → ℕ → Option ℕ × Cache T → Type 0
  Round c now (none, d) = suc (total_usage d.entries) ≡ total_usage c.entries
  Round c now (some i, d) = IsVictim d now i ⊎ ((i ≡ uint32_max) × (d.capacity ≡ 1))

  -- The slot under the hand is in range.
  hand : (c : Cache T) → IsArray c → c.next_victim % c.capacity < c.capacity
  hand c a = mod-lt c.next_victim a.room

  pub moved : (c : Cache T) (n : ℕ) → Swept c (record c { next_victim = n })
  moved c n = record {
    capacity_same = refl;
    generation_same = refl;
    table_same = refl;
    cores = SameCores-refl c.entries;
  }

  aged :
      (c : Cache T) (n i m : ℕ)
      → i < length c.entries
      → Swept c (record c {
        next_victim = n;
        entries = set c.entries i (record (entry_at c.entries i) { usage_count = m });
      })
  aged c n i m h = record {
    capacity_same = refl;
    generation_same = refl;
    table_same = refl;
    cores = SameCores-set c.entries i m h;
  }

  sweep_round_lem :
      (c : Cache T) (now : ℕ) → IsArray c → let r = sweep_round c now in Swept c r.1 × Round c now r
  unfolding sweep_round Round
  sweep_round_lem c now a = elim (Bool-cases (entry_expired c.generation entry now)) [
    | inl stale ↦ rw stale (moved c next, inl (hand c a, inl stale))
    | inr fresh ↦ elim (Bool-cases (ltb 0 entry.usage_count)) [
      | inr idle ↦ rw (fresh, idle) (moved c next, inl (hand c a, inr (ground arith)))
      | inl busy ↦ elim (Bool-cases (u32 (c.capacity + 4294967295) == 0)) [
        | inl lone ↦
            rw (fresh, busy, lone)
              (
                aged c next idx (entry.usage_count - 1) inside,
                inr (refl, ground (arith, a.narrow, a.room)),
              )
        | inr more ↦
            rw (fresh, busy, more)
              (
                aged c next idx (entry.usage_count - 1) inside,
                total_usage-set c.entries idx inside (ground arith),
              )
      ]
    ]
  ]
    where
      idx : ℕ
      idx = c.next_victim % c.capacity

      next : ℕ
      next = u32 (c.next_victim + 1)

      entry : Entry
      entry = entry_at c.entries idx

      inside : idx < length c.entries
      inside = omega (arith, hand c a, a.full)

  -- What the sweep returns.
  unfoldable pub Found : Cache T → ℕ → Option (ℕ × Cache T) → Type 0
  Found c now none = ⊥
  Found c now (some (i, d)) = Swept c d × (IsVictim d now i ⊎ ((i ≡ uint32_max) × (d.capacity ≡ 1)))

  Found-trans :
      (c d : Cache T) (now : ℕ) (r : Option (ℕ × Cache T))
      → Swept c d
      → Found d now r
      → Found c now r
  unfolding Found
  Found-trans c d now none s f = f
  Found-trans c d now (some (i, e)) s (t, v) = (Swept-trans c d e s t, v)

  sweep-Found :
      (fuel : ℕ) (c : Cache T) (now : ℕ)
      → IsArray c
      → total_usage c.entries < fuel
      → Found c now (sweep fuel c now)
  unfolding sweep Found Round
  sweep-Found zero c now a h = absurd (omega arith)
  sweep-Found (suc fuel) c now a h =
      go (λ d. sweep-Found fuel d now) (sweep_round c now) (sweep_round_lem c now a)
    where
      go :
          ((d : Cache T)
            → IsArray d
            → total_usage d.entries < fuel
            → Found d now (sweep fuel d now))
          → (r : Option ℕ × Cache T) → Swept c r.1 × Round c now r
          → Found c now (elim r.0 [ none ↦ sweep fuel r.1 now | some idx ↦ some (idx, r.1) ])
      go rest (none, d) (s, less) =
          Found-trans c d now (sweep fuel d now) s
            (rest d (Swept-IsArray c d s a) (omega (arith, less, h)))
      go rest (some i, d) (s, v) = (s, v)

  pub find_victim_slot-Found :
      (c : Cache T) (now : ℕ) → IsArray c → Found c now (find_victim_slot c now)
  unfolding find_victim_slot
  find_victim_slot-Found c now a = sweep-Found (suc (total_usage c.entries)) c now a (omega arith)

  -- On a cache of two slots or more the sweep of `l2_find_victim_slot` ends, and never gives up: it
  -- returns a slot in range that is stale or whose usage count is 0, having changed nothing but the
  -- clock hand and usage counts.
  pub find_victim_slot_total :
      (c : Cache T) (now : ℕ)
      → IsArray c
      → 2 ≤ c.capacity
      → (i : ℕ) × (d : Cache T) × (find_victim_slot c now ≡ some (i, d))
        × Swept c d
        × IsVictim d now i
  unfolding Found
  find_victim_slot_total c now a h =
      go (find_victim_slot c now) refl (find_victim_slot-Found c now a)
    where
      go :
          (r : Option (ℕ × Cache T))
          → find_victim_slot c now ≡ r
          → Found c now r
          → (i : ℕ) × (d : Cache T) × (find_victim_slot c now ≡ some (i, d))
            × Swept c d
            × IsVictim d now i
      go none e f = absurd f
      go (some (i, d)) e (s, inl v) = (i, d, e, s, v)
      go (some (i, d)) e (s, inr (_, one)) = absurd (omega (arith, one, s.capacity_same, h))

pub entry_at-set :
    (xs : List Entry) (i j : ℕ) (e : Entry)
    → i < length xs
    → entry_at (set xs i e) j ≡ (if i == j then e else entry_at xs j)
entry_at-set xs i j e h = elim (ℕ_discrete i j) [
  | yes same ↦ rw (← same, get_or-set_self xs i e blank h, ==_refl i)
  | no ne ↦ rw (get_or-set_ne xs i j e blank ne) (ground arith)
]
