-- ===== src/Cache/Front/Coherence.antt =====
-- The two levels of one backend against an unbounded map of verdicts.
use postfga.Prelude.{
  ℕ, ◌+◌, ◌<◌, ◌≡◌, ◌⊎◌, inl, inr, refl, sym, ap, ◌∙◌, Bool, true, false, Option, none, some, List,
  if◌then◌else◌, Bool-cases, Option-cases, arith,
}
use postfga.Cache.Key.{
  Key, l1_key_equals, blob_equals, key-cases, blob_equals_iff, blob_equals_of_hash,
}
use postfga.Cache.Verdict.{Verdict, answer, Kept, Kept-trans}
use postfga.Cache.Index.{Index}
use postfga.Cache.L1
use postfga.Cache.L1.{CacheSet}
use postfga.Cache.L1.Cells
use postfga.Cache.L1.Cells.{held_in, looked, stored}
use postfga.Cache.L2
use postfga.Cache.L2.{Cache, Outcome}
use postfga.Cache.L2.Invariant
use postfga.Cache.L2.Victim.{Swept, moved}
use postfga.Cache.L2.Held.{held, hit, lookup-hit, lookup-Swept, held-Swept}
use postfga.Cache.L2.Store.{Wrote, Stored-Wrote, store-Stored}
use postfga.Stats
use postfga.Cache.Front.{Front, get_now_ms, lookup, store}
use postfga.Cache.Front.TwoLevel.{IsReady, lookup_found}

-- A hit of the shared level, taken apart.
hit-verdict :
    (v : Option Verdict) (gen now exp : ℕ) (allowed : Bool)
    → hit v gen now ≡ some (allowed, exp)
    → v ≡ some (record { allowed = allowed; generation = gen; expires_at = exp })
hit-verdict v gen now exp allowed h = ground arith

-- The map after a decision has been stored.
pub remember : (Key → Option Verdict) → Key → ℕ → ℕ → Bool → Key → Option Verdict
remember m key generation expires_at allowed other =
    if blob_equals key other
    then some (record { allowed = allowed; generation = generation; expires_at = expires_at })
    else m other

module _ {T : Type 0} (index : Index T) (Used : Key → Type 0) where
  -- Both levels hold parts of the map, for the keys in use.
  pub record IsPart (s : Front T) (m : Key → Option Verdict) : Type 0 where
    pub ready : IsReady index s
    pub own_part : (key : Key) → Used key → Kept (m key) (held_in ready.sets key)
    pub shared_part : (key : Key) → Used key → Kept (m key) (held index s.l2 key)

  module _ (apart : (a b : Key) → Used a → Used b → l1_key_equals a b ≡ true → a ≡ b) (s : Front T)
      (m : Key → Option Verdict) (p : IsPart s m) where
    abbrev sets : List CacheSet
    sets = p.ready.sets

    -- A hit of the shared level is copied into the backend's own.
    copied :
        (l2 : Cache T) (key : Key) (now exp : ℕ) (allowed : Bool)
        → Used key
        → Swept s.l2 l2
        → hit (held index s.l2 key) s.l2.generation now ≡ some (allowed, exp)
        → (st : Stats.Stats)
        → IsPart
            (record s {
              l1 =
                  L1.store
                    (some (looked sets key s.l2.generation now))
                    key
                    l2.generation
                    exp
                    allowed;
              l2 = l2;
              stats = st;
            })
            m
    copied l2 key now exp allowed u swept found st = record {
      ready = record {
        sets = stored after key l2.generation exp allowed;
        started = Cells.store_lem after key l2.generation exp allowed;
        own = Cells.stored-IsValid after after_valid key l2.generation exp allowed;
        shared = Invariant.Swept-IsValid index s.l2 l2 swept p.ready.shared;
      };
      own_part = λ other w. elim (Bool-cases (l1_key_equals key other)) [
        | inl same ↦ inl (
            Cells.stored-held_self after after_valid key other l2.generation exp allowed same
            ∙ known
            ∙ ap m (apart key other u w same))
        | inr ne ↦
            Kept-trans (m other) (held_in after other) _
              (Kept-trans (m other) (held_in sets other) _ (p.own_part other w)
                (Cells.looked-Kept sets p.ready.own key other s.l2.generation now))
              (Cells.stored-held_other after after_valid key other l2.generation exp allowed ne)
      ];
      shared_part = λ other w. rw (held-Swept index s.l2 l2 other swept) (p.shared_part other w);
    }
      where
        after : List CacheSet
        after = looked sets key s.l2.generation now

        after_valid : Cells.IsValid after
        after_valid = Cells.looked-IsValid sets p.ready.own key s.l2.generation now

        there :
            held index s.l2 key
            ≡ some (record { allowed = allowed; generation = s.l2.generation; expires_at = exp })
        there = hit-verdict (held index s.l2 key) s.l2.generation now exp allowed found

        known :
            some (record { allowed = allowed; generation = l2.generation; expires_at = exp })
            ≡ m key
        known = ground (arith, there, p.shared_part key u, swept.generation_same)

    -- A lookup that misses the shared level, or does not reach it.
    looked-IsPart :
        (l2 : Cache T) (key : Key) (now : ℕ)
        → Swept s.l2 l2
        → (st : Stats.Stats)
        → IsPart
            (record s { l1 = some (looked sets key s.l2.generation now); l2 = l2; stats = st })
            m
    looked-IsPart l2 key now swept st = record {
      ready = record {
        sets = looked sets key s.l2.generation now;
        started = refl;
        own = Cells.looked-IsValid sets p.ready.own key s.l2.generation now;
        shared = Invariant.Swept-IsValid index s.l2 l2 swept p.ready.shared;
      };
      own_part = λ other w.
          Kept-trans (m other) (held_in sets other) _ (p.own_part other w)
            (Cells.looked-Kept sets p.ready.own key other s.l2.generation now);
      shared_part = λ other w. rw (held-Swept index s.l2 l2 other swept) (p.shared_part other w);
    }

    lookup_off :
        (me : Option ℕ) (now_us : ℕ) (key : Key)
        → s.config.cache_enabled ≡ false
        → lookup index s me now_us key ≡ (none, s)
    unfolding lookup
    lookup_off me now_us key off = ground arith

    -- `fga_cache_lookup` keeps both levels within the map, whichever way it goes.
    pub lookup-IsPart :
        (me : Option ℕ) (now_us : ℕ) (key : Key)
        → Used key
        → IsPart (lookup index s me now_us key).1 m
    unfolding lookup
    lookup-IsPart me now_us key u = elim (Bool-cases s.config.cache_enabled) [
      | inr off ↦ rw (lookup_off me now_us key off) p
      | inl on ↦ elim (Option-cases (answer (held_in sets key) s.l2.generation now)) [
        | inr (allowed, one) ↦
            rw (on, lookup, own_out ∙ one, own_next)
              (looked-IsPart s.l2 key now (moved s.l2 s.l2.next_victim) _)
        | inl miss ↦ elim (Option-cases (L2.lookup index s.l2 key now).0) [
          | inl gone ↦
              rw (on, lookup, own_out ∙ miss, gone, own_next) (looked-IsPart _ key now swept _)
          | inr ((allowed, exp), two) ↦
              rw (on, lookup, own_out ∙ miss, two, own_next)
                (copied _ key now exp allowed u swept
                  (sym (lookup-hit index s.l2 key now p.ready.shared) ∙ two) _)
        ]
      ]
    ]
      where
        now : ℕ
        now = get_now_ms now_us

        own_lookup : L1.lookup s.l1 key s.l2.generation now ≡ (
          answer (held_in sets key) s.l2.generation now,
          some (looked sets key s.l2.generation now),
        )
        own_lookup =
            ap (λ c. L1.lookup c key s.l2.generation now) p.ready.started
            ∙ Cells.lookup_lem sets p.ready.own key s.l2.generation now

        own_out :
            (L1.lookup s.l1 key s.l2.generation now).0
            ≡ answer (held_in sets key) s.l2.generation now
        own_out = ap (λ r. r.0) own_lookup

        own_next :
            (L1.lookup s.l1 key s.l2.generation now).1 ≡ some (looked sets key s.l2.generation now)
        own_next = ap (λ r. r.1) own_lookup

        swept : Swept s.l2 (L2.lookup index s.l2 key now).1
        swept = lookup-Swept index s.l2 key now p.ready.shared

    -- `fga_cache_store` keeps both levels within the map that holds the new decision, if the shared
    -- level takes it.
    pub store-IsPart :
        (now_us : ℕ) (key : Key) (allowed : Bool)
        → Used key
        → s.config.cache_enabled ≡ true
        → let (out, s') = store index s now_us key allowed in
          ((out ≡ some Outcome.updated) ⊎ (out ≡ some Outcome.inserted))
          → IsPart s'
              (remember m key s.l2.generation (get_now_ms now_us + s.config.cache_ttl_ms) allowed)
    unfolding store remember
    store-IsPart now_us key allowed u on =
        rw (on, store, own_next)
          λ done. record {
            ready = record {
              sets = stored sets key s.l2.generation exp allowed;
              started = refl;
              own = Cells.stored-IsValid sets p.ready.own key s.l2.generation exp allowed;
              shared = (wrote done).valid;
            };
            own_part = λ other w. elim (Bool-cases (l1_key_equals key other)) [
              | inl same ↦
                  rw ((blob_equals_iff key other).1 (apart key other u w same), remember)
                    (inl (
                      Cells.stored-held_self sets p.ready.own key other s.l2.generation exp allowed
                        same))
              | inr ne ↦
                  rw (blob_equals_of_hash key other ne, remember)
                    (Kept-trans (m other) (held_in sets other) _ (p.own_part other w) (
                      Cells.stored-held_other sets p.ready.own key other s.l2.generation exp allowed
                        ne))
            ];
            shared_part = λ other w. elim (key-cases key other) [
              | inl (same, path) ↦
                  rw (same, remember)
                    (inl (ap (held index result.1) (sym path) ∙ (wrote done).self))
              | inr (ne, far) ↦
                  rw (ne, remember)
                    (Kept-trans (m other) (held index s.l2 other) _ (p.shared_part other w)
                      ((wrote done).others other far))
            ];
          }
      where
        exp : ℕ
        exp = get_now_ms now_us + s.config.cache_ttl_ms

        result : Outcome × Cache T
        result = L2.store index s.l2 key (get_now_ms now_us) exp allowed

        own_next :
            L1.store s.l1 key s.l2.generation exp allowed
            ≡ some (stored sets key s.l2.generation exp allowed)
        own_next =
            ap (λ c. L1.store c key s.l2.generation exp allowed) p.ready.started
            ∙ Cells.store_lem sets key s.l2.generation exp allowed

        wrote :
            ((some result.0 ≡ some Outcome.updated) ⊎ (some result.0 ≡ some Outcome.inserted))
            → Wrote index s.l2 result.1 key exp allowed
        wrote done =
            Stored-Wrote index s.l2 key exp allowed result (ground arith)
              (store-Stored index s.l2 key exp allowed (get_now_ms now_us) p.ready.shared)

-- With the cache enabled, a lookup of a key by the same backend directly after `fga_cache_store` has updated or
-- inserted a decision under it, at a time before that decision's end, answers the decision.
pub lookup_after_store :
    {T : Type 0} (index : Index T) (s : Front T) (me : Option ℕ) (now_us later_us : ℕ) (key : Key)
    (allowed : Bool)
    → IsReady index s
    → s.config.cache_enabled ≡ true
    → ((store index s now_us key allowed).0 ≡ some Outcome.updated)
      ⊎ ((store index s now_us key allowed).0 ≡ some Outcome.inserted)
    → get_now_ms later_us < get_now_ms now_us + s.config.cache_ttl_ms
    → (lookup index (store index s now_us key allowed).1 me later_us key).0 ≡ some allowed
unfolding store answer
lookup_after_store {T} index s me now_us later_us key allowed r on done live =
    lookup_found index (store index s now_us key allowed).1 me later_us key ready
    ∙ ground (
      arith,
      Cells.stored-held_self r.sets r.own key key s.l2.generation exp allowed (ground arith),
      wrote.generation_same,
    )
  where
    exp : ℕ
    exp = get_now_ms now_us + s.config.cache_ttl_ms

    result : Outcome × Cache T
    result = L2.store index s.l2 key (get_now_ms now_us) exp allowed

    wrote : Wrote index s.l2 result.1 key exp allowed
    wrote =
        Stored-Wrote index s.l2 key exp allowed result (ground arith)
          (store-Stored index s.l2 key exp allowed (get_now_ms now_us) r.shared)

    ready : IsReady index (store index s now_us key allowed).1
    ready = record {
      sets = stored r.sets key s.l2.generation exp allowed;
      started = rw on (
          ap (λ c. L1.store c key s.l2.generation exp allowed) r.started
          ∙ Cells.store_lem r.sets key s.l2.generation exp allowed);
      own = Cells.stored-IsValid r.sets r.own key s.l2.generation exp allowed;
      shared = rw (on, store) wrote.valid;
    }
