-- ===== src/Cache/L2/Held.antt =====
-- What the shared cache holds for a key, and what lookups and stores do to it.
use native.Mathlib.Decide.{ℕ_discrete}
use postfga.Prelude.{
  ℕ, ◌<◌, ◌≡◌, ◌≢◌, inl, inr, refl, ap, ◌∙◌, Bool, false, Option, none, some, List, length, set,
  leb, ◌==◌, if◌then◌else◌, Bool-cases, Option-cases, ==_refl, arith,
}
use postfga.Cache.Key.{Key, blob_equals, blob_equals_refl}
use postfga.Cache.Verdict.{Verdict, Kept}
use postfga.Cache.Index.{Index}
use postfga.Cache.L2.{Entry, Cache, entry_at, entry_expired, lookup}
use postfga.Cache.L2.Victim.{SameCores, SameCores-set, Swept, moved, entry_at-set}
use postfga.Cache.L2.Invariant.{IsValid, inside, evicted, find-evicted}

abbrev pub verdict : Entry → Verdict
verdict e = record { allowed = e.allowed; generation = e.global_gen; expires_at = e.expires_at_ms }

abbrev pub held_at : List Entry → Option ℕ → Option Verdict
held_at entries none = none
held_at entries (some i) = some (verdict (entry_at entries i))

held_at-cores :
    (xs ys : List Entry) (slot : Option ℕ) → SameCores xs ys → held_at ys slot ≡ held_at xs slot
held_at-cores xs ys none s = refl
held_at-cores xs ys (some i) s = ground (arith, s.same i)

-- What a lookup hands out of a verdict.
abbrev pub hit : Option Verdict → ℕ → ℕ → Option (Bool × ℕ)
hit none gen now = none
hit (some v) gen now =
    if leb v.expires_at now
    then none
    else if v.generation == gen
    then some (v.allowed, v.expires_at)
    else none

module _ {T : Type 0} (index : Index T) where
  unfoldable pub held : Cache T → Key → Option Verdict
  held c key = held_at c.entries (index.find c.slot_table key)

  pub held-Swept : (c d : Cache T) (key : Key) → Swept c d → held d key ≡ held c key
  unfolding held
  held-Swept c d key s =
      ap (λ t. held_at d.entries (index.find t key)) s.table_same
      ∙ held_at-cores c.entries d.entries (index.find c.slot_table key) s.cores

  bump :
      (c : Cache T) (i n : ℕ)
      → i < length c.entries
      → Swept c (record c {
        entries = set c.entries i (record (entry_at c.entries i) { usage_count = n });
      })
  bump c i n h = record {
    capacity_same = refl;
    generation_same = refl;
    table_same = refl;
    cores = SameCores-set c.entries i n h;
  }

  module _ (c : Cache T) (key : Key) (now : ℕ) (v : IsValid index c) where
    -- A lookup changes usage counts only, and answers exactly an unexpired verdict of the cache's
    -- generation.
    pub lookup-Swept : Swept c (lookup index c key now).1
    unfolding lookup
    lookup-Swept = elim (Option-cases (index.find c.slot_table key)) [
      | inl e ↦ rw (e, lookup) (moved c c.next_victim)
      | inr (i, e) ↦
          let within = inside index c v i (v.indexed key i e).0 in
          elim (Bool-cases (entry_expired c.generation (entry_at c.entries i) now)) [
            | inl stale ↦ rw (e, lookup, stale) (bump c i 0 within)
            | inr fresh ↦ rw (e, lookup, fresh) (bump c i _ within)
          ]
    ]

    pub lookup-hit : (lookup index c key now).0 ≡ hit (held c key) c.generation now
    unfolding lookup held entry_expired
    lookup-hit = elim (Option-cases (index.find c.slot_table key)) [
      | inl e ↦ rw (e, lookup)
      | inr (i, e) ↦ rw (e, lookup) (ground (arith, v.indexed key i e))
    ]

  -- What a write of `key`'s verdict in slot `i` does, whether the key was indexed there or not.
  module _ (c : Cache T) (v : IsValid index c) (key other : Key) (i : ℕ) (e : Entry) where
    pub rewritten-held_self :
        index.find c.slot_table key ≡ some i
        → held (record c { entries = set c.entries i e }) key ≡ some (verdict e)
    unfolding held
    rewritten-held_self found = rw (
      found,
      entry_at-set c.entries i i e (inside index c v i (v.indexed key i found).0),
      ==_refl i,
    )

    pub rewritten-held_other :
        index.find c.slot_table key ≡ some i
        → key ≢ other
        → held (record c { entries = set c.entries i e }) other ≡ held c other
    unfolding held
    rewritten-held_other found ne = elim (Option-cases (index.find c.slot_table other)) [
      | inl h ↦ rw h
      | inr (j, h) ↦
          rw (h, entry_at-set c.entries i j e (inside index c v i (v.indexed key i found).0))
            (ground (arith, v.indexed key i found, v.indexed other j h, ne))
    ]

    -- The index without the victim's key.
    pub evicted-Kept :
        i < c.capacity
        → Kept (held c other) (held (record c { slot_table = evicted index c v i }) other)
    unfolding held
    evicted-Kept h =
        rw (find-evicted index c v i other h) (elim (Option-cases (index.find c.slot_table other)) [
          | inl f ↦ rw f (inl refl)
          | inr (j, f) ↦ elim (Bool-cases (i == j)) [
            | inl same ↦ rw (f, same) (inr refl)
            | inr apart ↦ rw (f, apart) (inl refl)
          ]
        ])

    module _ (t : T) (h : i < c.capacity)
        (entered : index.enter (evicted index c v i) key i ≡ some t) where
      pub filled-held_self :
          held (record c { entries = set c.entries i e; slot_table = t }) key ≡ some (verdict e)
      unfolding held
      filled-held_self = rw (
        index.find-enter (evicted index c v i) t key key i entered,
        blob_equals_refl key,
        entry_at-set c.entries i i e (inside index c v i h),
        ==_refl i,
      )

      pub filled-held_other :
          blob_equals key other ≡ false
          → Kept
              (held c other)
              (held (record c { entries = set c.entries i e; slot_table = t }) other)
      unfolding held
      filled-held_other ne =
          rw
            (
              index.find-enter (evicted index c v i) t key other i entered,
              ne,
              find-evicted index c v i other h,
            )
            (elim (Option-cases (index.find c.slot_table other)) [
              | inl f ↦ rw f (inl refl)
              | inr (j, f) ↦ elim (ℕ_discrete i j) [
                | yes same ↦ rw (f, ← same, ==_refl i) (inr refl)
                | no apart ↦ ground (arith, f, entry_at-set c.entries i j e (inside index c v i h))
              ]
            ])
