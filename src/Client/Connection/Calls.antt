-- ===== src/Client/Connection/Calls.antt =====
-- Runs of the calls of bondriver-proxy-client/src/client/connection.rs, each with what the other tasks
-- do meanwhile.
use recisdb_proxy_rs.Base.{ℕ, Bool, List, [], ◌∷◌}
use recisdb_proxy_rs.Base.Ints.{ℤ}
use recisdb_proxy_rs.Client.Connection.{
  Connection, Exchange, connect, disconnect, open_tuner, stop_stream, close_tuner, set_channel,
  set_channel_space, get_signal_level, start_stream, purge_stream, enum_tuning_space,
  enum_channel_name, set_lnb_power,
}

-- The calls of the BonDriver functions.
pub data Call : Type 0 where
  connects : (hello filter : Exchange) → Call
  disconnects : Call
  opens : Exchange → Call
  closes : (stop x : Exchange) → Call
  sets_channel : (channel : ℕ) → Exchange → Call
  sets_channel_space : (space channel : ℕ) (priority : ℤ) (exclusive : Bool) → Exchange → Call
  gets_signal_level : (now : ℕ) → Exchange → Call
  starts : Exchange → Call
  stops : Exchange → Call
  purges : Exchange → Call
  enums_space : (space : ℕ) → Exchange → Call
  enums_channel : (space channel : ℕ) → Exchange → Call
  sets_lnb : (enable : Bool) → Exchange → Call

unfoldable pub step : Call → Connection → Connection
step (connects hello filter) c = (connect hello filter c).1
step disconnects c = disconnect c
step (opens x) c = (open_tuner x c).1
step (closes stop x) c = close_tuner stop x c
step (sets_channel channel x) c = (set_channel channel x c).1
step (sets_channel_space space channel priority exclusive x) c =
    (set_channel_space space channel priority exclusive x c).1
step (gets_signal_level now x) c = (get_signal_level now x c).1
step (starts x) c = (start_stream x c).1
step (stops x) c = stop_stream x c
step (purges x) c = purge_stream x c
step (enums_space space x) c = (enum_tuning_space space x c).1
step (enums_channel space channel x) c = (enum_channel_name space channel x c).1
step (sets_lnb enable x) c = (set_lnb_power enable x c).1

unfoldable pub run : List Call → Connection → Connection
run [] c = c
run (call ∷ calls) c = run calls (step call c)
