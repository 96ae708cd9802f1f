-- ===== src/Client/Health.antt =====
-- `is_healthy` and `shutdown` of src/client/openfga_client.cpp. The state of the gRPC channel is an argument, `none`
-- where there is no channel.
use postfga.Prelude.{Bool, true, false, Option, none, some, if◌then◌else◌}

pub data ChannelState : Type 0 where
  channel_ready : ChannelState
  channel_idle : ChannelState
  channel_connecting : ChannelState
  channel_transient_failure : ChannelState
  channel_shutdown : ChannelState

-- `stopping_`
pub record Stopping : Type 0 where
  pub stopping : Bool

pub is_healthy : Stopping → Option ChannelState → Bool
is_healthy client none = false
is_healthy client (some state) = if client.stopping then false else by_state state
  where
    by_state : ChannelState → Bool
    by_state channel_ready = true
    by_state channel_idle = true
    by_state channel_connecting = true
    by_state channel_transient_failure = false
    by_state channel_shutdown = false

-- Whether this call is the first, and the flag. The calls under way go on.
pub shutdown : Stopping → Bool × Stopping
shutdown client =
    if client.stopping then (false, client) else (true, record client { stopping = true })
