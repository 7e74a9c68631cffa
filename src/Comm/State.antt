-- ===== src/Comm/State.antt =====
-- The file-scope state of src/hal/comm/comm_nrf24l01.c, in the build for Linux (five peers).
use knot_hal_source.Prelude.{ℕ, Bool, false, Option, none, List, replicate, ℤ, negsuc}

abbrev pub data_size : ℕ
data_size = 128

abbrev pub mgmt_size : ℕ
mgmt_size = 32

-- `MGMT_SIZE` bytes each way. The pipe -1 is `none`, the pipe 0 of an open socket `some 0`.
pub record Mgmt : Type 0 where
  pub pipe : Option ℕ
  pub buffer_rx : List ℕ
  pub len_rx : ℕ
  pub buffer_tx : List ℕ
  pub len_tx : ℕ

-- `struct nrf24_data`. The pipe -1 is `none`.
pub record Peer : Type 0 where
  pub pipe : Option ℕ
  pub buffer_rx : List ℕ
  pub len_rx : ℕ
  pub buffer_tx : List ℕ
  pub len_tx : ℕ
  pub seqnumber_tx : ℕ
  pub seqnumber_rx : ℕ
  pub offset_rx : ℕ
  pub keepalive_anchor : ℕ
  pub keepalive : ℕ
  pub mac : List ℕ

pub data Running : Type 0 where
  start_mgmt mgmt start_raw raw : Running

pub data Presence : Type 0 where
  presence burst_window standby timeout_interval : Presence

-- The globals, the statics `start` and `sockIndex` of `running`, the static `start` of
-- `presence_connect`, and the world behind the driver and the clock.
pub record Hal (W : Type 0) : Type 0 where
  pub raw_timeout : ℕ
  pub rt_stamp : ℕ
  pub rt_offset : ℕ
  pub listen : Bool
  pub pipe_bitmask : ℕ
  pub mac_local : List ℕ
  pub mgmt : Mgmt
  pub peers : List Peer
  pub driver_index : ℤ
  pub running_state : Running
  pub presence_state : Presence
  pub previous_state : Presence
  pub presence_start : ℕ
  pub running_start : ℕ
  pub sock_index : ℕ
  pub world : W

abbrev pub zero_mac : List ℕ
zero_mac = replicate 8 0

-- `memset (&peers[i], 0, …)`, and then the pipe
abbrev pub fresh_peer : Option ℕ → Peer
fresh_peer pipe = record {
  pipe = pipe;
  buffer_rx = replicate data_size 0;
  len_rx = 0;
  buffer_tx = replicate data_size 0;
  len_tx = 0;
  seqnumber_tx = 0;
  seqnumber_rx = 0;
  offset_rx = 0;
  keepalive_anchor = 0;
  keepalive = 0;
  mac = zero_mac;
}

abbrev pub fresh_mgmt : Mgmt
fresh_mgmt = record {
  pipe = none;
  buffer_rx = replicate mgmt_size 0;
  len_rx = 0;
  buffer_tx = replicate mgmt_size 0;
  len_tx = 0;
}

abbrev pub connection_counter : ℕ
connection_counter = 5

abbrev pub raw_timeout_default : ℕ
raw_timeout_default = 10

-- What the initialisers of the globals leave.
abbrev pub initial : {W : Type 0} → W → Hal W
initial w = record {
  raw_timeout = raw_timeout_default;
  rt_stamp = 0;
  rt_offset = 0;
  listen = false;
  pipe_bitmask = 1;
  mac_local = zero_mac;
  mgmt = fresh_mgmt;
  peers = replicate connection_counter (fresh_peer none);
  driver_index = negsuc 0;
  running_state = start_mgmt;
  presence_state = presence;
  previous_state = timeout_interval;
  presence_start = 0;
  running_start = 0;
  sock_index = 1;
  world = w;
}
