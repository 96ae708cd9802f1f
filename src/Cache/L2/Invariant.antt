-- ===== src/Cache/L2/Invariant.antt =====
-- The index and the array agree: every indexed key stands in its slot, and every valid entry is
-- indexed. Every operation on the cache keeps that.
use native.Mathlib.Decide.{ℕ_discrete}
use postfga.Prelude.{
  ℕ, ◌<◌, ◌≡◌, inl, inr, sym, ap, ◌∙◌, true, none, some, length, length-set, set, ◌==◌,
  if◌then◌else◌, Bool-cases, Option-cases, ==_refl, arith,
}
use postfga.Cache.Key.{Key, key-cases, blob_equals_refl}
use postfga.Cache.Index.{Index}
use postfga.Cache.L2.{Entry, Cache, entry_at}
use postfga.Cache.L2.Victim.{IsArray, Swept, Swept-IsArray, entry_at-set}

module _ {T : Type 0} (index : Index T) where
  pub record IsValid (c : Cache T) : Type 0 where
    pub array : IsArray c
    pub indexed :
        (k : Key) (i : ℕ)
        → index.find c.slot_table k ≡ some i
        → (i < c.capacity)
          × ((entry_at c.entries i).valid ≡ true)
          × ((entry_at c.entries i).key ≡ k)
    pub listed :
        (i : ℕ)
        → i < c.capacity
        → (entry_at c.entries i).valid ≡ true
        → index.find c.slot_table (entry_at c.entries i).key ≡ some i

  -- Usage counts and the clock hand play no part in it.
  pub Swept-IsValid : (c d : Cache T) → Swept c d → IsValid c → IsValid d
  Swept-IsValid c d s v = record {
    array = Swept-IsArray c d s v.array;
    indexed = λ k i e. ground (arith, s.capacity_same, s.table_same, s.cores.same i, v.indexed k i);
    listed = λ i h e. ground (arith, s.capacity_same, s.table_same, s.cores.same i, v.listed i);
  }

  module _ (c : Cache T) (v : IsValid c) where
    pub inside : (i : ℕ) → i < c.capacity → i < length c.entries
    inside i h = omega (arith, v.array.full, h)

    -- A key that is indexed is written in place.
    pub rewritten-IsValid :
        (key : Key) (i : ℕ) (e : Entry)
        → index.find c.slot_table key ≡ some i
        → e.valid ≡ true
        → e.key ≡ key
        → IsValid (record c { entries = set c.entries i e })
    rewritten-IsValid key i e found ok same = record {
      array = omega (arith, v.array.full, v.array.room, v.array.narrow, length-set c.entries i e);
      indexed = λ k j h. ground (
        arith,
        entry_at-set c.entries i j e (inside i (v.indexed key i found).0),
        v.indexed k j h,
        v.indexed key i found,
      );
      listed = λ j h w.
          ground (
            arith,
            entry_at-set c.entries i j e (inside i (v.indexed key i found).0),
            v.listed j h,
          );
    }

    -- The index once the victim's key has been taken out.
    unfoldable pub evicted : ℕ → T
    evicted i =
        if (entry_at c.entries i).valid
        then index.remove c.slot_table (entry_at c.entries i).key
        else c.slot_table

    -- The victim's key is gone from the index, and no other.
    pub find-evicted :
        (i : ℕ) (k : Key)
        → i < c.capacity
        → index.find (evicted i) k ≡ elim (index.find c.slot_table k) [
          | none ↦ none
          | some j ↦ if i == j then none else some j
        ]
    unfolding evicted
    find-evicted i k h = elim (Bool-cases (entry_at c.entries i).valid) [
      | inr off ↦ rw off (elim (Option-cases (index.find c.slot_table k)) [
        | inl e ↦ ground arith
        | inr (j, e) ↦ ground (arith, v.indexed k j e)
      ])
      | inl on ↦
          rw (on, index.find-remove c.slot_table (entry_at c.entries i).key k)
            (elim (key-cases (entry_at c.entries i).key k) [
              | inl (same, path) ↦
                  rw (same, ap (index.find c.slot_table) (sym path) ∙ v.listed i h on, ==_refl i)
              | inr (ne, apart) ↦ rw ne (elim (Option-cases (index.find c.slot_table k)) [
                | inl e ↦ ground arith
                | inr (j, e) ↦ ground (arith, v.indexed k j e, apart)
              ])
            ])
    ]

    -- A key that is not indexed is put in the victim's slot.
    pub filled-IsValid :
        (key : Key) (i : ℕ) (e : Entry) (t : T)
        → i < c.capacity
        → index.find c.slot_table key ≡ none
        → index.enter (evicted i) key i ≡ some t
        → e.valid ≡ true
        → e.key ≡ key
        → IsValid (record c { entries = set c.entries i e; slot_table = t })
    filled-IsValid key i e t h fresh entered ok same = record {
      array = omega (arith, v.array.full, v.array.room, v.array.narrow, length-set c.entries i e);
      indexed = λ k j hit. elim (key-cases key k) [
        | inl (eq, path) ↦ ground (
          arith,
          index.find-enter (evicted i) t key k i entered,
          entry_at-set c.entries i j e (inside i h),
        )
        | inr (ne, _) ↦ ground (
          arith,
          index.find-enter (evicted i) t key k i entered,
          find-evicted i k h,
          entry_at-set c.entries i j e (inside i h),
          v.indexed k j,
        )
      ];
      listed = λ j hj w. elim (ℕ_discrete i j) [
        | yes here ↦ rw (
          ← here,
          entry_at-set c.entries i i e (inside i h),
          ==_refl i,
          same,
          index.find-enter (evicted i) t key key i entered,
          blob_equals_refl key,
        )
        | no far ↦ ground (
          arith,
          entry_at-set c.entries i j e (inside i h),
          index.find-enter (evicted i) t key (entry_at c.entries j).key i entered,
          find-evicted i (entry_at c.entries j).key h,
          v.listed j hj,
          key-cases key (entry_at c.entries j).key,
        )
      ];
    }
