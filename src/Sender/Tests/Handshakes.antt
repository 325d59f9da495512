-- ===== src/Sender/Tests/Handshakes.antt =====
-- A run of src/srtla/srtla_send.c and src/srtla/srtla_rec.c together, at fixed inputs.
use pyle_irl.Base.{
  ℕ, ◌≡◌, refl, true, false, none, some, List, [], ◌∷◌, ◌++◌, arith, get_elem?, replicate,
}
use pyle_irl.Receiver.Instances.{new_ctx}
use pyle_irl.Receiver.Io.{Io}
use pyle_irl.Receiver.Register.{reg2_packet, group_reg, conn_reg}
use pyle_irl.Receiver.Register.Join.{joined, full_id}
use pyle_irl.Receiver.Register.Replace.{registered}
use pyle_irl.Receiver.State.{linux, active, Group, send_to, Ctx}
use pyle_irl.Sender.Handshake.{handshake}
use pyle_irl.Sender.Packets.{handle_srtla_data}
use pyle_irl.Sender.State.{
  registered_link, Link, new_link, Action, to_receiver, Sender, reg1_packet,
}
use pyle_irl.Wire.{Bytes, srtla_type_reg3, srtla_type_reg_ngp, be16}

abbrev half_id : Bytes
half_id = replicate 128 9

abbrev first_id : Bytes
first_id = replicate 256 7

abbrev from_addr : Bytes
from_addr = 7 ∷ 1 ∷ []

abbrev idle_receiver : Ctx
idle_receiver = new_ctx linux 5000

-- The memory that `malloc` returns for a group, with bytes of its last use.
abbrev dirty_memory : Group
dirty_memory = record {
  node = 32;
  conns = [];
  created_at = 5;
  srt_sock = none;
  last_addr = [];
  id = 3 ∷ 3 ∷ [];
  logical_group_id = 1;
  state = active;
  next_srt_retry_ms = 0;
  srt_retry_attempts = 0;
  bytes_received = 77;
}

abbrev drawing_half : Io
drawing_half = record {
  memory = some dirty_memory;
  draws = half_id ∷ [];
  reg2_sent = true;
  conn_memory = true;
  reg3_sent = true;
  socket = some 6;
  connected = true;
  watched = true;
  forwarded = true;
  now_ms = 1000;
}

abbrev first_link : Link
first_link = record (new_link 1 from_addr) { fd = some 11 }

abbrev starting : Sender
starting = record {
  links = first_link ∷ [];
  srtla_addr = 5 ∷ 5 ∷ [];
  srt_addr = [];
  addrs = (5 ∷ 5 ∷ []) ∷ [];
  active_fds = 11 ∷ [];
  active_connections = 0;
  has_connected = false;
  pending_reg2_conn = none;
  pending_reg_timeout = 0;
  srtla_id = first_id;
  all_failed_at = 0;
  last_ran = 0;
  actions = [];
}

handshake_example :
    let id = full_id first_id half_id in
    let (ctx1, ok1) = group_reg drawing_half from_addr (reg1_packet first_id) 20 idle_receiver in
    let (ctx2, ok2) = conn_reg drawing_half from_addr (reg2_packet id) 21 ctx1 in
    (s1 : Sender) × (s2 : Sender) × (s3 : Sender) × (announced : List Action) × (k : ℕ)
    × (handle_srtla_data 20 true (be16 srtla_type_reg_ngp) [] 0 starting ≡ some s1)
    × (s1.actions ≡ to_receiver 11 (5 ∷ 5 ∷ []) (reg1_packet first_id) ∷ [])
    × (ok1 ≡ true)
    × (get_elem? ctx1.calls 0 ≡ some (send_to from_addr (reg2_packet id)))
    × (handle_srtla_data 21 true (reg2_packet id) [] 0 s1 ≡ some s2)
    × (s2.srtla_id ≡ id)
    × (s2.actions ≡ announced ++ s1.actions)
    × (get_elem? announced k ≡ some (to_receiver 11 (5 ∷ 5 ∷ []) (reg2_packet id)))
    × (ok2 ≡ true)
    × (ctx2.groups
        ≡ joined from_addr 21
            (registered dirty_memory from_addr first_id half_id 20 idle_receiver.group_seq)
          ∷ [])
    × (get_elem? ctx2.calls 0 ≡ some (send_to from_addr (be16 srtla_type_reg3)))
    × (handle_srtla_data 22 true (be16 srtla_type_reg3) [] 0 s2 ≡ some s3)
    × (s3.active_connections ≡ 1)
    × (get_elem? s3.links 0 ≡ some (record first_link { last_rcvd = 22; cstate = registered_link }))
handshake_example =
    handshake starting first_link 0 11 20 21 22 [] [] [] drawing_half drawing_half from_addr
      from_addr 20 21 idle_receiver dirty_memory half_id [] refl refl refl refl (omega arith) refl
      refl refl refl refl refl refl refl
