-- ===== src/Worker/Loop/Tests.antt =====
-- The worker with the check of Worker/Tests in its hands, and reloads of two configurations.
use postfga.Prelude.{ℕ, ◌≡◌, refl, true, some, List, [], ◌∷◌, if◌then◌else◌}
use postfga.FreeList.{list_slots}
use postfga.Channel.{
  acquire, pool_init, init_slots, acquire_slot, write_state, init_slot, drain_slots,
  begin_processing,
}
use postfga.Queue
use postfga.Sql.{put_request}
use postfga.Protocol.{System, Reach, next, drains, begins, completes}
use postfga.Worker.Tests.{running, fresh, submitted, submit_reached}
use postfga.Worker.Loop.{
  Settings, load_config_from_guc, same_config, is_enabled, make_processor, Event, sighup, edits,
  wakes, State, initial, reload, execute, round, step, run,
}
use postfga.Worker.Loop.Configs.{running_config, reload_ignores_start}

abbrev drained : System (List ℕ)
drained = record submitted {
  ch = (drain_slots list_slots submitted.ch 50).1;
  batch = (drain_slots list_slots submitted.ch 50).0;
}

abbrev begun : System (List ℕ)
begun = record drained {
  ch = (begin_processing list_slots drained.ch 0).1;
  batch = [];
  inflight = if (begin_processing list_slots drained.ch 0).0 then 0 ∷ [] else [];
}

abbrev finished : System (List ℕ)
finished = record begun { inflight = []; completed = 0 ∷ [] }

finish_reached : Reach list_slots running fresh finished
unfolding acquire pool_init init_slots acquire_slot write_state init_slot put_request Queue.init
    Queue.size Queue.is_full Queue.is_empty Queue.enqueue Queue.drain drain_slots begin_processing
finish_reached =
    next (next (next submit_reached (drains 50)) (begins 0 [] refl)) (completes 0 [] [] refl)

abbrev local : Settings
local = record { endpoint = some "localhost:8081"; cache_ttl_ms = 10000 }

abbrev other : Settings
other = record { endpoint = some "example:443"; cache_ttl_ms = 10000 }

-- The file is changed and changed back, with a reload each time.
abbrev there_and_back : List (Event (List ℕ))
there_and_back = edits other ∷ sighup ∷ wakes true ∷ edits local ∷ sighup ∷ []

abbrev back : State (List ℕ)
back = run list_slots running there_and_back (initial local finished.ch)

reload_ignores_start_example : running_config (round list_slots running true back).processor ≡ (
    if same_config (load_config_from_guc back.file) (load_config_from_guc local)
    then running_config back.processor
    else running_config (make_processor (load_config_from_guc back.file)))
unfolding run step round initial reload execute
reload_ignores_start_example =
    reload_ignores_start list_slots running there_and_back local finished.ch refl refl

-- It still runs with the configuration that is in the file no more.
stale :
    running_config (round list_slots running true back).processor
    ≡ some (load_config_from_guc other)
unfolding run step round initial reload execute make_processor is_enabled same_config
    load_config_from_guc
stale = refl
