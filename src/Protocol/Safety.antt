-- ===== src/Protocol/Safety.antt =====
-- No interleaving of backends and worker breaks the pool or names a slot twice.
use postfga.Prelude.{ℕ, refl, Bool}
use postfga.FreeList.{SlotList}
use postfga.Channel.{empty, state_of, release, catch_interrupt}
use postfga.Channel.Effect.{released, interrupted}
use postfga.Channel.Ring.{queue-release, queue-catch_interrupt}
use postfga.Sql.{put_request}
use postfga.Sql.Checks.{put_request-Effect, queue-put_request}
use postfga.Channel.Effect.{unchanged}
use postfga.Protocol.{
  nobody, filling, waiting, System, Step, acquires, fills, submits, is_refused, returns, gives_up,
  dies, drains, begins, completes, responds, Reach, here, next,
}
use postfga.Protocol.Slots.{refuse-IsFine, return-IsFine, give_up-IsFine, die-IsFine}
use postfga.Protocol.Invariant.{
  queued, served, IsSound, About-IsSound, owned-Busy, restate-IsSound, filling-ne-nobody,
  waiting-ne-nobody, same_at,
}
use postfga.Protocol.Moves.{
  begins-IsSound, responds-IsSound, submits-IsSound, acquires-IsSound, drains-IsSound,
  completes-IsSound,
}

module _ {T : Type 0} (S : SlotList T) (is_running : ℕ → Bool) (k : ℕ) where
  -- Every step keeps the system sound: the free list holds exactly the EMPTY slots, and a slot that is
  -- EMPTY or DONE, or that a backend still fills, is named by neither the ring nor the worker, and no slot twice.
  pub Step-IsSound : {s t : System T} → Step S is_running s t → IsSound S k s → IsSound S k t
  Step-IsSound {s} (acquires my_pid i e) v = acquires-IsSound S is_running k s my_pid i e v
  Step-IsSound {s} (fills i request inside e same_id) v =
      restate-IsSound S k s v i inside (state_of S s.ch.pool i) filling
        (put_request S s.ch i request)
        (put_request-Effect S s.ch.pool s.ch i (state_of S s.ch.pool i) request inside (
          unchanged S s.ch.pool i _ (owned-Busy S k s v i inside filling e filling-ne-nobody) refl))
        (queue-put_request S s.ch i request) (rw e at (v.fine i inside))
  Step-IsSound {s} (submits i inside e ok) v = submits-IsSound S is_running k s i inside e ok v
  Step-IsSound {s} (is_refused i inside e full) v =
      restate-IsSound S k s v i inside empty nobody (release S s.ch i)
        (released S s.ch i (owned-Busy S k s v i inside filling e filling-ne-nobody))
        (queue-release S s.ch i)
        (refuse-IsFine _ (queued s i) (served s i) (rw e at (v.fine i inside)))
  Step-IsSound {s} (returns i inside e d) v =
      restate-IsSound S k s v i inside empty nobody (release S s.ch i)
        (released S s.ch i (owned-Busy S k s v i inside waiting e waiting-ne-nobody))
        (queue-release S s.ch i)
        (return-IsFine _ (queued s i) (served s i) d (rw e at (v.fine i inside)))
  Step-IsSound {s} (gives_up i inside e) v =
      restate-IsSound S k s v i inside _ nobody (catch_interrupt S s.ch i)
        (interrupted S s.ch i (owned-Busy S k s v i inside waiting e waiting-ne-nobody))
        (queue-catch_interrupt S s.ch i)
        (give_up-IsFine _ (queued s i) (served s i) (rw e at (v.fine i inside)))
  Step-IsSound {s} (dies i inside) v =
      About-IsSound S k i (state_of S s.ch.pool i) nobody (queued s i) (served s i) s _
        (record {
          effect = record {
            consistent = v.consistent;
            same_length = refl;
            states = same_at (state_of S s.ch.pool) i;
          };
          phases = λ j. refl;
          queues = same_at (queued s) i;
          serves = same_at (served s) i;
        })
        v v.ring inside (die-IsFine _ (s.phase i) (queued s i) (served s i) (v.fine i inside))
  Step-IsSound {s} (drains max_count) v = drains-IsSound S is_running k s max_count v
  Step-IsSound {s} (begins i rest e) v = begins-IsSound S is_running k s i rest e v
  Step-IsSound {s} (completes i before after e) v =
      completes-IsSound S is_running k s i before after e v
  Step-IsSound {s} (responds i rest e woken) v = responds-IsSound S is_running k s i rest e woken v

  pub Reach-IsSound :
      {start s : System T} → Reach S is_running start s → IsSound S k start → IsSound S k s
  Reach-IsSound here v = v
  Reach-IsSound (next r st) v = Step-IsSound st (Reach-IsSound r v)
