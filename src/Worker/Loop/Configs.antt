-- ===== src/Worker/Loop/Configs.antt =====
-- Which configuration the worker runs with after a reload.
use postfga.Prelude.{
  ℕ, ◌≡◌, refl, ap, ◌∙◌, Bool, true, false, not, Option, none, some, List, [], ◌∷◌, if◌then◌else◌,
  arith, inl, inr, Bool-cases,
}
use postfga.FreeList.{SlotList}
use postfga.Channel.{Channel}
use postfga.Worker.Loop.{
  Settings, Config, load_config_from_guc, same_config, make_processor, Processor, Event, sigterm,
  sighup, edits, completes, others, wakes, State, initial, reload, execute, round, step, run,
}

-- The configuration that the client works with.
abbrev pub running_config : Option Processor → Option Config
running_config none = none
running_config (some p) = some p.config

module _ {T : Type 0} (S : SlotList T) (is_running : ℕ → Bool) where
  execute-kept :
      (s : State T)
      → ((execute S is_running s).config ≡ s.config)
        × (running_config (execute S is_running s).processor ≡ running_config s.processor)
  unfolding execute
  execute-kept s = by_processor s.processor refl
    where
      by_processor :
          (o : Option Processor)
          → s.processor ≡ o
          → ((execute S is_running s).config ≡ s.config)
            × (running_config (execute S is_running s).processor ≡ running_config s.processor)
      by_processor none e = rw e (refl, refl)
      by_processor (some p) e = rw e (refl, refl)

  reload-config : (s : State T) → (reload s).config ≡ s.config
  unfolding reload
  reload-config s = ground arith

  round-config :
      (latch_set : Bool) (s : State T) → (round S is_running latch_set s).config ≡ s.config
  unfolding round
  round-config latch_set s = ground (arith, (execute-kept (reload s)).0, reload-config s)

  -- The start configuration stays in `config`.
  run-config :
      (events : List (Event T)) (s : State T) → (run S is_running events s).config ≡ s.config
  unfolding run step
  run-config [] s = refl
  run-config (sigterm ∷ events) s = run-config events _
  run-config (sighup ∷ events) s = run-config events _
  run-config (edits file ∷ events) s = run-config events _
  run-config (completes i ∷ events) s = run-config events _
  run-config (others change ∷ events) s = run-config events _
  run-config (wakes latch_set ∷ events) s =
      run-config events (round S is_running latch_set s) ∙ round-config latch_set s

  reload-processor :
      (s : State T)
      → s.reload_requested ≡ true
      → running_config (reload s).processor ≡ (
          if same_config (load_config_from_guc s.file) s.config
          then running_config s.processor
          else running_config (make_processor (load_config_from_guc s.file)))
  unfolding reload
  reload-processor s requested =
      elim (Bool-cases (same_config (load_config_from_guc s.file) s.config)) [
        | inl y ↦ rw (requested, y) refl
        | inr n ↦ rw (requested, n) refl
      ]

  pub round_waiting :
      (latch_set : Bool) (s : State T)
      → s.is_waiting ≡ true
      → round S is_running latch_set s
        ≡ record (if latch_set then execute S is_running (reload s) else s) {
          is_waiting = not s.shutdown_requested;
        }
  unfolding round
  round_waiting latch_set s waiting =
      let t = if latch_set then execute S is_running (reload s) else s in
      ap (λ (b : Bool). if b then record t { is_waiting = not s.shutdown_requested } else s) waiting

  pub round_ended :
      (latch_set : Bool) (s : State T) → s.is_waiting ≡ false → round S is_running latch_set s ≡ s
  unfolding round
  round_ended latch_set s over =
      let t = if latch_set then execute S is_running (reload s) else s in
      ap (λ (b : Bool). if b then record t { is_waiting = not s.shutdown_requested } else s) over

  -- In every run of the worker, a round that finds a reload requested leaves it with a client for the
  -- configuration of the file, or with none where the file has no endpoint, except when that is the configuration
  -- that the worker STARTED with: then it keeps whatever client it has, for whatever configuration.
  pub reload_ignores_start :
      (events : List (Event T)) (file : Settings) (ch : Channel T)
      → (run S is_running events (initial file ch)).is_waiting ≡ true
      → (run S is_running events (initial file ch)).reload_requested ≡ true
      → running_config
          (round S is_running true (run S is_running events (initial file ch))).processor
        ≡ (if same_config
              (load_config_from_guc (run S is_running events (initial file ch)).file)
              (load_config_from_guc file)
            then running_config (run S is_running events (initial file ch)).processor
            else running_config (
                make_processor
                  (load_config_from_guc (run S is_running events (initial file ch)).file)))
  unfolding initial
  reload_ignores_start events file ch waiting requested =
      let s = run S is_running events (initial file ch) in
      let kept : s.config ≡ load_config_from_guc file = run-config events (initial file ch) in
      ap (λ (t : State T). running_config t.processor) (round_waiting true s waiting)
      ∙ (execute-kept (reload s)).1
      ∙ reload-processor s requested
      ∙ ap
          (λ (c : Config).
            if same_config (load_config_from_guc s.file) c
            then running_config s.processor
            else running_config (make_processor (load_config_from_guc s.file)))
          kept
