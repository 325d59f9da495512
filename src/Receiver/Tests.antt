-- ===== src/Receiver/Tests.antt =====
-- Runs of the receiver (src/srtla/srtla_rec.c) on small contexts.
mod Texts
mod Backoffs
mod Starts
mod Traffic
use pyle_irl.Base.{true, false, none, some, [], ◌∷◌, ◌++◌, replicate}
use pyle_irl.Base.Int.{pos}
use pyle_irl.Receiver.Cleanup.{Handshake}
use pyle_irl.Receiver.Instances.{new_ctx}
use pyle_irl.Receiver.Io.{Io}
use pyle_irl.Receiver.State.{linux, Conn, zeroed_conn, active, waiting_srt, Group, Ctx}
use pyle_irl.Wire.{Bytes, srt_type_ack, srtla_type_reg1, be16, be32}

abbrev pub sender : Bytes
sender = 7 ∷ 1 ∷ []

abbrev pub other_sender : Bytes
other_sender = 7 ∷ 2 ∷ []

abbrev pub phone : Conn
phone = record zeroed_conn { addr = sender; last_rcvd = 10; recv_idx = 9 }

abbrev pub studio : Group
studio = record {
  node = 16;
  conns = phone ∷ [];
  created_at = 5;
  srt_sock = some 4;
  last_addr = sender;
  id = 3 ∷ 3 ∷ [];
  logical_group_id = 1;
  state = active;
  next_srt_retry_ms = 0;
  srt_retry_attempts = 0;
  bytes_received = 0;
}

abbrev pub ready_ctx : Ctx
ready_ctx = new_ctx linux 5000

abbrev pub busy_ctx : Ctx
busy_ctx = record ready_ctx { groups = studio ∷ []; group_count = pos 1; group_seq = 2 }

-- The memory that `malloc` returns for a group, with bytes of its last use.
abbrev pub used_memory : Group
used_memory = record studio { node = 32; bytes_received = 77 }

abbrev pub all_well : Io
all_well = record {
  memory = some used_memory;
  draws = (9 ∷ 9 ∷ []) ∷ [];
  reg2_sent = true;
  conn_memory = true;
  reg3_sent = true;
  socket = some 6;
  connected = true;
  watched = true;
  forwarded = true;
  now_ms = 1000;
}

abbrev pub reg2_lost : Io
reg2_lost = record all_well { reg2_sent = false }

abbrev pub reg1 : Bytes
reg1 = be16 srtla_type_reg1 ++ replicate 256 1

abbrev pub data_packet : Bytes
data_packet = be32 5 ++ replicate 20 0

abbrev pub ack_from_server : Bytes
ack_from_server = be16 srt_type_ack ++ replicate 20 0

-- The SRT server replies.
abbrev pub served : Handshake
served = record {
  clock = some 9000;
  socket = some 8;
  connected = true;
  sent = true;
  received = some 64;
  now_ms = 9000;
}

abbrev pub unserved : Handshake
unserved = record served { received = none }

abbrev pub waiting_group : Group
waiting_group = record studio {
  state = waiting_srt;
  next_srt_retry_ms = 8000;
  srt_retry_attempts = 2;
}
