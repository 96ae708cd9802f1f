-- ===== src/Shmem/Layout.antt =====
-- The parts of the shared memory do not overlap.
use postfga.Prelude.{ℕ, ◌+◌, ◌≤◌, ◌≡◌, refl, ap, sym, ◌∙◌, Option, none, some, ==_iff, arith}
use postfga.Shmem.{
  Postgres, Sizes, Demand, ◌>>=◌, compute_slot_size, pow2_ceil, Placement, placed, miscalculated,
  Segment, pool_shmem_size, queue_shmem_size, channel_shmem_size, channel_shmem_init,
  cache_shmem_base_size, stats_shmem_size, struct_size, initialize_state,
}

-- A computation that succeeds does so at each of its steps.
bind-some {ℓ κ} :
    {A : Type ℓ} {B : Type κ} (o : Option A) (f : A → Option B) (b : B)
    → (o >>= f) ≡ some b
    → (a : A) × (o ≡ some a) × (f a ≡ some b)
bind-some none f b e = absurd (cc)
bind-some (some a) f b e = (a, refl, e)

abbrev pub Room : Option ℕ → ℕ → ℕ → Type 0
Room none from to = ⊥
Room (some n) from to = from + n ≤ to

module _ (pg : Postgres) (sz : Sizes) where
  abbrev pub InChannel : Demand → Placement → ℕ → Type 0
  InChannel d miscalculated size = ⊥
  InChannel d (placed pool queue end) size =
      (sz.channel ≤ pool)
      × Room (pool_shmem_size pg sz (compute_slot_size d)) pool queue
      × Room (queue_shmem_size pg sz (pow2_ceil (compute_slot_size d))) queue end
      × (end ≤ size)

  -- The parts, one after the other, in a segment of `total` bytes.
  abbrev pub Fits : Demand → Segment → ℕ → Type 0
  Fits d seg total =
      (sz.state ≤ seg.channel)
      × ((size : ℕ) × InChannel d seg.placement size × (seg.channel + size ≤ seg.cache))
      × Room (cache_shmem_base_size pg sz d) seg.cache seg.stats
      × Room (stats_shmem_size pg sz d) seg.stats total

  channel_sizes :
      (d : Demand) (total : ℕ)
      → channel_shmem_size pg sz d ≡ some total
      → (p : ℕ) × (q : ℕ) × (pool_shmem_size pg sz (compute_slot_size d) ≡ some p)
        × (queue_shmem_size pg sz (pow2_ceil (compute_slot_size d)) ≡ some q)
        × (total ≡ pg.max_align sz.channel + pg.max_align p + pg.max_align q)
  unfolding channel_shmem_size
  channel_sizes d total e =
      let (head, e1, r1) = bind-some (pg.add_size 0 (pg.max_align sz.channel)) _ total e in
      let (p, e2, r2) = bind-some (pool_shmem_size pg sz (compute_slot_size d)) _ total r1 in
      let (with_pool, e3, r3) = bind-some (pg.add_size head (pg.max_align p)) _ total r2 in
      let (q, e4, r4) =
        bind-some (queue_shmem_size pg sz (pow2_ceil (compute_slot_size d))) _ total r3 in
      (
        p,
        q,
        e2,
        e4,
        omega (
          arith,
          pg.add_size_lem 0 (pg.max_align sz.channel) head e1,
          pg.add_size_lem head (pg.max_align p) with_pool e3,
          pg.add_size_lem with_pool (pg.max_align q) total r4,
        ),
      )

  aligned-three :
      (a b c : ℕ)
      → pg.max_align (pg.max_align a + pg.max_align b + pg.max_align c)
        ≡ pg.max_align a + pg.max_align b + pg.max_align c
  aligned-three a b c =
      ap (λ (x : ℕ). pg.max_align (x + pg.max_align c)) (sym (pg.max_align-add a b))
      ∙ pg.max_align-add (pg.max_align a + pg.max_align b) c
      ∙ ap (λ (x : ℕ). x + pg.max_align c) (pg.max_align-add a b)

  -- The initialisation of the channel does not miscalculate.
  channel_placed :
      (d : Demand) (total : ℕ)
      → channel_shmem_size pg sz d ≡ some total
      → (placement : Placement) × (channel_shmem_init pg sz d ≡ some placement)
        × InChannel d placement total
  unfolding channel_shmem_init
  channel_placed d total e =
      let (p, q, ep, eq, sum) = channel_sizes d total e in
      let pool = pg.max_align sz.channel in
      let queue = pool + pg.max_align p in
      let end = queue + pg.max_align q in
      let same : end ≡ pg.max_align total =
        sym (ap pg.max_align sum ∙ aligned-three sz.channel p q) in
      (
        placed pool queue end,
        rw (ep, eq, e, (==_iff end (pg.max_align total)).1 same) refl,
        (
          pg.le-max_align sz.channel,
          rw ep (omega (arith, pg.le-max_align p)),
          rw eq (omega (arith, pg.le-max_align q)),
          omega (arith, sum),
        ),
      )

  -- Whenever `struct_size` computes a size, `_initialize_state` lays the channel, the cache and the statistics
  -- in a segment of that size: each part lies behind the one before it and inside the segment, within the channel
  -- the pool and the ring do, and `fga_channel_shmem_init` never finds its size miscalculated.
  pub struct_size-Fits :
      (d : Demand) (total : ℕ)
      → struct_size pg sz d ≡ some total
      → (seg : Segment) × (initialize_state pg sz d ≡ some seg) × Fits d seg total
  unfolding struct_size initialize_state
  struct_size-Fits d total e =
      let (channel, e1, r1) = bind-some (channel_shmem_size pg sz d) _ total e in
      let (with_channel, e2, r2) =
        bind-some (pg.add_size (pg.max_align sz.state) (pg.max_align channel)) _ total r1 in
      let (cache, e3, r3) = bind-some (cache_shmem_base_size pg sz d) _ total r2 in
      let (with_cache, e4, r4) =
        bind-some (pg.add_size with_channel (pg.max_align cache)) _ total r3 in
      let (stats, e5, r5) = bind-some (stats_shmem_size pg sz d) _ total r4 in
      let (placement, e6, inside) = channel_placed d channel e1 in
      let at_channel = pg.max_align sz.state in
      let at_cache = at_channel + pg.max_align channel in
      let at_stats = at_cache + pg.max_align cache in
      let sums : total ≡ at_stats + pg.max_align stats = omega (
        arith,
        pg.add_size_lem (pg.max_align sz.state) (pg.max_align channel) with_channel e2,
        pg.add_size_lem with_channel (pg.max_align cache) with_cache e4,
        pg.add_size_lem with_cache (pg.max_align stats) total r5,
      ) in
      (
        record { channel = at_channel; placement = placement; cache = at_cache; stats = at_stats },
        rw (e6, e1, e3) refl,
        (
          pg.le-max_align sz.state,
          (channel, inside, omega (arith, pg.le-max_align channel)),
          rw e3 (omega (arith, pg.le-max_align cache)),
          rw e5 (omega (arith, sums, pg.le-max_align stats)),
        ),
      )
