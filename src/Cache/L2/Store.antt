-- ===== src/Cache/L2/Store.antt =====
-- `l2_store` on every branch.
use postfga.Prelude.{
  ℕ, ◌<◌, ◌≤◌, ◌≡◌, ◌≢◌, ◌⊎◌, inl, inr, refl, sym, ap, ◌∙◌, Bool, Option, none, some, set, ◌==◌,
  Bool-cases, Option-cases, arith,
}
use postfga.Cache.Key.{Key, blob_equals_ne}
use postfga.Cache.Verdict.{Kept}
use postfga.Cache.Index.{Index}
use postfga.Cache.L2.{
  Entry, Cache, uint32_max, update_entry, find_victim_slot, fill, insert, store, Outcome, updated,
  inserted, no_victim, out_of_memory, no_fuel,
}
use postfga.Cache.L2.Victim.{Swept, Swept-trans, Found, find_victim_slot-Found}
use postfga.Cache.L2.Invariant.{IsValid, Swept-IsValid, rewritten-IsValid, evicted, filled-IsValid}
use postfga.Cache.L2.Held.{
  held, held-Swept, rewritten-held_self, rewritten-held_other, filled-held_self, filled-held_other,
  evicted-Kept,
}

module _ {T : Type 0} (index : Index T) where
  -- The new decision stands, under the generation of the cache; the others are kept or evicted.
  pub record Wrote (c d : Cache T) (key : Key) (expires_at : ℕ) (allowed : Bool) : Type 0 where
    pub valid : IsValid index d
    pub capacity_same : d.capacity ≡ c.capacity
    pub generation_same : d.generation ≡ c.generation
    pub self :
        held index d key
        ≡ some (record { allowed = allowed; generation = c.generation; expires_at = expires_at })
    pub others : (other : Key) → key ≢ other → Kept (held index c other) (held index d other)

  -- What `l2_store` leaves, by its outcome.
  pub Stored : Cache T → Key → ℕ → Bool → Outcome × Cache T → Type 0
  Stored c key expires_at allowed (updated, d) = Wrote c d key expires_at allowed
  Stored c key expires_at allowed (inserted, d) = Wrote c d key expires_at allowed
  Stored c key expires_at allowed (no_victim, d) = Swept c d × (c.capacity ≡ 1)
  Stored c key expires_at allowed (out_of_memory, d) =
      ((t : T) × (i : ℕ) × (index.enter t key i ≡ none))
      × ((other : Key) → Kept (held index c other) (held index d other))
  Stored c key expires_at allowed (no_fuel, d) = ⊥

  module _ (c : Cache T) (key : Key) (expires_at : ℕ) (allowed : Bool) where
    entry : Entry
    entry = update_entry key expires_at allowed c.generation

    rewritten-Wrote :
        (i : ℕ)
        → IsValid index c
        → index.find c.slot_table key ≡ some i
        → Wrote c (record c { entries = set c.entries i entry }) key expires_at allowed
    unfolding entry update_entry
    rewritten-Wrote i v found = record {
      valid = rewritten-IsValid index c v key i entry found refl refl;
      capacity_same = refl;
      generation_same = refl;
      self = rewritten-held_self index c v key key i entry found;
      others = λ other ne. inl (rewritten-held_other index c v key other i entry found ne);
    }

    filled-Stored :
        (i : ℕ)
        → IsValid index c
        → i < c.capacity
        → index.find c.slot_table key ≡ none
        → Stored c key expires_at allowed (fill index c key expires_at allowed i)
    unfolding fill Stored entry update_entry evicted
    filled-Stored i v h fresh = elim (Option-cases (index.enter (evicted index c v i) key i)) [
      | inl full ↦
          rw (full, fill)
            ((evicted index c v i, i, full), λ other. evicted-Kept index c v key other i entry h)
      | inr (t, entered) ↦
          rw (entered, fill)
            (record {
              valid = filled-IsValid index c v key i entry t h fresh entered refl refl;
              capacity_same = refl;
              generation_same = refl;
              self = filled-held_self index c v key key i entry t h entered;
              others = λ other ne.
                  filled-held_other index c v key other i entry t h entered
                    (blob_equals_ne key other ne);
            })
    ]

  module _ (c : Cache T) (key : Key) (expires_at : ℕ) (allowed : Bool) where
    Swept-Wrote :
        (d e : Cache T)
        → Swept c d
        → Wrote d e key expires_at allowed
        → Wrote c e key expires_at allowed
    Swept-Wrote d e s w = record {
      valid = w.valid;
      capacity_same = w.capacity_same ∙ s.capacity_same;
      generation_same = w.generation_same ∙ s.generation_same;
      self = rw (← s.generation_same) w.self;
      others = λ other ne. rw (← held-Swept index c d other s) (w.others other ne);
    }

    -- The sweep before an insertion does not show in the result.
    Swept-Stored :
        (d : Cache T) (r : Outcome × Cache T)
        → Swept c d
        → Stored d key expires_at allowed r
        → Stored c key expires_at allowed r
    unfolding Stored
    Swept-Stored d (updated, e) s w = Swept-Wrote d e s w
    Swept-Stored d (inserted, e) s w = Swept-Wrote d e s w
    Swept-Stored d (no_victim, e) s (t, one) = (Swept-trans c d e s t, sym s.capacity_same ∙ one)
    Swept-Stored d (out_of_memory, e) s (full, others) =
        (full, λ other. rw (← held-Swept index c d other s) (others other))
    Swept-Stored d (no_fuel, e) s w = w

    insert-Stored :
        (now : ℕ)
        → IsValid index c
        → index.find c.slot_table key ≡ none
        → Stored c key expires_at allowed (insert index c key now expires_at allowed)
    unfolding insert Stored Found
    insert-Stored now v fresh =
        go (find_victim_slot c now) refl (find_victim_slot-Found c now v.array)
      where
        go :
            (r : Option (ℕ × Cache T))
            → find_victim_slot c now ≡ r
            → Found c now r
            → Stored c key expires_at allowed (insert index c key now expires_at allowed)
        go none e f = absurd f
        go (some (i, d)) e (s, inr (top, one)) = rw (e, insert, top) (s, sym s.capacity_same ∙ one)
        go (some (i, d)) e (s, inl victim) = elim (Bool-cases (i == uint32_max)) [
          | inl top ↦ absurd (ground (arith, victim, s.capacity_same, v.array.narrow))
          | inr below ↦
              rw (e, insert, below)
                (Swept-Stored d (fill index d key expires_at allowed i) s (
                  filled-Stored d key expires_at allowed i (Swept-IsValid index c d s v) victim.0
                    (ap (λ t. index.find t key) s.table_same ∙ fresh)))
        ]

    -- `l2_store` on a well-formed cache ends in one of four ways. An indexed key is written in place;
    -- another is put in a victim's slot: in both cases the decision is then held under the cache's
    -- generation, the cache is well formed, and the other keys are kept or at most evicted. It gives
    -- up only on a cache of one slot, changing usage counts and the clock hand. It runs out of memory
    -- only if the hash table refuses an entry, having at most evicted another key.
    pub store-Stored :
        (now : ℕ)
        → IsValid index c
        → Stored c key expires_at allowed (store index c key now expires_at allowed)
    unfolding store Stored update_entry entry
    store-Stored now v = elim (Option-cases (index.find c.slot_table key)) [
      | inl fresh ↦ rw (fresh, store) (insert-Stored now v fresh)
      | inr (i, found) ↦ rw (found, store) (rewritten-Wrote c key expires_at allowed i v found)
    ]

  pub Stored-Wrote :
      (c : Cache T) (key : Key) (expires_at : ℕ) (allowed : Bool) (r : Outcome × Cache T)
      → ((r.0 ≡ updated) ⊎ (r.0 ≡ inserted))
      → Stored c key expires_at allowed r
      → Wrote c r.1 key expires_at allowed
  unfolding Stored
  Stored-Wrote c key expires_at allowed (updated, d) h w = w
  Stored-Wrote c key expires_at allowed (inserted, d) h w = w
  Stored-Wrote c key expires_at allowed (no_victim, d) h w = absurd (ground arith)
  Stored-Wrote c key expires_at allowed (out_of_memory, d) h w = absurd (ground arith)
  Stored-Wrote c key expires_at allowed (no_fuel, d) h w = absurd w

  Stored-succeeds :
      (c : Cache T) (key : Key) (expires_at : ℕ) (allowed : Bool) (r : Outcome × Cache T)
      → 2 ≤ c.capacity
      → ((t : T) (k : Key) (i : ℕ) → index.enter t k i ≢ none)
      → Stored c key expires_at allowed r
      → ((r.0 ≡ updated) ⊎ (r.0 ≡ inserted)) × Wrote c r.1 key expires_at allowed
  unfolding Stored
  Stored-succeeds c key expires_at allowed (updated, d) h roomy w = (inl refl, w)
  Stored-succeeds c key expires_at allowed (inserted, d) h roomy w = (inr refl, w)
  Stored-succeeds c key expires_at allowed (no_victim, d) h roomy (s, one) =
      absurd (omega (arith, one))
  Stored-succeeds c key expires_at allowed (out_of_memory, d) h roomy ((t, i, full), rest) =
      absurd (roomy t key i full)
  Stored-succeeds c key expires_at allowed (no_fuel, d) h roomy w = absurd w

  -- On a well-formed cache of two slots or more, whose hash table takes every entry, `l2_store` always
  -- succeeds: the decision is held, under the generation of the cache, the cache stays well formed, and
  -- every other key keeps its decision or loses it.
  pub store_succeeds :
      (c : Cache T) (key : Key) (now expires_at : ℕ) (allowed : Bool)
      → IsValid index c
      → 2 ≤ c.capacity
      → ((t : T) (k : Key) (i : ℕ) → index.enter t k i ≢ none)
      → let (out, d) = store index c key now expires_at allowed in
        ((out ≡ updated) ⊎ (out ≡ inserted)) × Wrote c d key expires_at allowed
  store_succeeds c key now expires_at allowed v h roomy =
      Stored-succeeds c key expires_at allowed (store index c key now expires_at allowed) h roomy
        (store-Stored c key expires_at allowed now v)
