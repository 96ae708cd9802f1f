-- ===== src/Worker/Loop.antt =====
-- The loop of the worker, `Worker::process` of src/bgw/worker.cpp, with `Processor` of src/bgw/processor.cpp and
-- `load_config_from_guc` of src/config/config.cpp. What happens to the worker is an event; a round of the loop
-- is one of them.
pub mod Configs
mod Tests
use Prim.Native.String.{String}
use text.Mathlib.Text.{◌==◌ as ◌=ₜ◌}
use postfga.Prelude.{
  ℕ, Bool, true, false, not, Option, none, some, List, [], ◌∷◌, ◌==◌, ◌++◌, ◌&&◌, if◌then◌else◌,
}
use postfga.FreeList.{SlotList}
use postfga.Channel.{Channel, handle_response}
use postfga.Client.{Call}
use postfga.Worker

-- What the settings of the process have that the worker reads.
pub record Settings : Type 0 where
  pub endpoint : Option String
  pub cache_ttl_ms : ℕ

-- The fields that are ever set. The others keep the values that `Config` gives them.
pub record Config : Type 0 where
  pub endpoint : String
  pub timeout : ℕ

pub load_config_from_guc : Settings → Config
load_config_from_guc guc = record { endpoint = text guc.endpoint; timeout = guc.cache_ttl_ms }
  where
    text : Option String → String
    text none = ""
    text (some s) = s

-- `operator==` of `Config`
pub same_config : Config → Config → Bool
same_config a b = a.endpoint =ₜ b.endpoint && a.timeout == b.timeout

pub is_enabled : Config → Bool
is_enabled config = not (config.endpoint =ₜ "")

-- `Processor`: the configuration that its client is made with, and `completed_queue_`.
pub record Processor : Type 0 where
  pub config : Config
  pub completed : List ℕ

-- What happens to the worker: its signals, an edit of the configuration file, the callback of a call
-- (`enqueueCompleted`), what the other processes do to the channel, and the end of `WaitLatch`, with the latch
-- set or not.
pub data Event (T : Type 0) : Type 0 where
  sigterm : Event T
  sighup : Event T
  edits : Settings → Event T
  completes : ℕ → Event T
  others : (Channel T → Channel T) → Event T
  wakes : Bool → Event T

-- `calls` is what the client has been asked for. The loop waits for the latch, or it has ended.
pub record State (T : Type 0) : Type 0 where
  pub is_waiting : Bool
  pub shutdown_requested : Bool
  pub reload_requested : Bool
  pub file : Settings
  pub config : Config
  pub processor : Option Processor
  pub ch : Channel T
  pub calls : List Call

-- The processor of a configuration, where it has an endpoint.
unfoldable pub make_processor : Config → Option Processor
unfolding is_enabled
make_processor config =
    if is_enabled config then some (record { config = config; completed = [] }) else none

unfoldable pub initial : {T : Type 0} → Settings → Channel T → State T
unfolding load_config_from_guc make_processor
initial file ch =
    let config = load_config_from_guc file in
    record {
      is_waiting = true;
      shutdown_requested = false;
      reload_requested = false;
      file = file;
      config = config;
      processor = make_processor config;
      ch = ch;
      calls = [];
    }

-- `ProcessConfigFile`, and a new processor where the configuration has changed.
unfoldable pub reload : {T : Type 0} → State T → State T
unfolding load_config_from_guc make_processor same_config
reload s =
    if s.reload_requested
    then (let new_config = load_config_from_guc s.file in
        record s {
          reload_requested = false;
          processor =
              if same_config new_config s.config then s.processor else make_processor new_config;
        })
    else s

module _ {T : Type 0} (S : SlotList T) (is_running : ℕ → Bool) where
  unfoldable pub drain_completed : Channel T → List ℕ → Channel T
  drain_completed ch [] = ch
  drain_completed ch (i ∷ slots) = drain_completed (handle_response S is_running ch i) slots

  -- `Processor::execute`, where there is a processor.
  unfoldable pub execute : State T → State T
  unfolding drain_completed Worker.execute
  execute s = run s.processor
    where
      run : Option Processor → State T
      run none = s
      run (some p) =
          let (calls, ch) = Worker.execute S s.ch in
          record s {
            processor = some (record p { completed = [] });
            ch = drain_completed ch p.completed;
            calls = s.calls ++ calls;
          }

  -- One round of the loop from the end of `WaitLatch` to the next test of `shutdown_requested`.
  unfoldable pub round : Bool → State T → State T
  unfolding reload execute
  round latch_set s =
      if s.is_waiting
      then (let t = if latch_set then execute (reload s) else s in
          record t { is_waiting = not s.shutdown_requested })
      else s

  unfoldable pub step : Event T → State T → State T
  unfolding round
  step sigterm s = record s { shutdown_requested = true }
  step sighup s = record s { reload_requested = true }
  step (edits file) s = record s { file = file }
  step (completes i) s = record s { processor = push s.processor }
    where
      push : Option Processor → Option Processor
      push none = none
      push (some p) = some (record p { completed = p.completed ++ (i ∷ []) })
  step (others change) s = record s { ch = change s.ch }
  step (wakes latch_set) s = round latch_set s

  unfoldable pub run : List (Event T) → State T → State T
  unfolding step
  run [] s = s
  run (e ∷ events) s = run events (step e s)
