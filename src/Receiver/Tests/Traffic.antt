-- ===== src/Receiver/Tests/Traffic.antt =====
-- Packets from senders and from the SRT server (src/srtla/srtla_rec.c).
use mathlib.Core.List.{reverse}
use pyle_irl.Base.{
  ◌+◌, ◌*◌, ◌≡◌, refl, ap, ◌↔◌, true, false, none, some, List, [], ◌∷◌, ◌++◌, map, arith, length,
  get_elem?, take, replicate, concat,
}
use pyle_irl.Base.Int.{pos, negsuc}
use pyle_irl.Receiver.Ack.Ledger.{HasLog, register_all, payloads, pending, register_all_lem}
use pyle_irl.Receiver.Backward.{SrtRead, handle_srt_data}
use pyle_irl.Receiver.Backward.Acks.{handle_srt_data-ack}
use pyle_irl.Receiver.Compare.{cmp_loop, const_time_cmp, same}
use pyle_irl.Receiver.Compare.Equality.{const_time_cmp-eq_zero}
use pyle_irl.Receiver.Forward.{srtla_packet, Datagram, handle_srtla_data}
use pyle_irl.Receiver.Forward.Discard.{srtla_packet_discards}
use pyle_irl.Receiver.Groups.{
  group_find_by_id, member, conn_find, group_find_by_addr, draw_id, init_group, group_create,
}
use pyle_irl.Receiver.Instances.{Startup, loop_ctx, reset_groups}
use pyle_irl.Receiver.Invariant.{IsValid}
use pyle_irl.Receiver.Io.{Io}
use pyle_irl.Receiver.MainLoop.{from_senders, from_server, handle_events}
use pyle_irl.Receiver.MainLoop.Stale.{stale_event}
use pyle_irl.Receiver.Register.{
  shutdown_groups, destroy_found, destroy_with_id, packet_id, reg2_packet, clear_groups, group_reg,
  conn_reg,
}
use pyle_irl.Receiver.Register.Count.{group_reg_drifts}
use pyle_irl.Receiver.Register.Join.{joined, register_then_join}
use pyle_irl.Receiver.Register.Replace.{registered, group_reg_replaces}
use pyle_irl.Receiver.Resolve.{silent}
use pyle_irl.Receiver.State.{recv_ack_int, linux, Conn, send_to, Ctx, add64}
use pyle_irl.Receiver.System.{senders, reset, Reach, here, later, Reach-start-IsValid}
use pyle_irl.Receiver.Tests.{
  sender, other_sender, phone, studio, ready_ctx, busy_ctx, used_memory, all_well, reg2_lost, reg1,
  ack_from_server,
}
use pyle_irl.Wire.{
  Bytes, srtla_type_reg2, srtla_type_reg3, be16, be32, get_srt_type, is_srt_ack, is_srtla_reg1,
  is_srtla_reg2,
}

phone-HasLog : HasLog phone
phone-HasLog = record { room = omega arith; whole = refl }

found_none : conn_find sender [] ≡ none
unfolding conn_find
found_none = refl

busy-IsValid : IsValid busy_ctx
busy-IsValid = record {
  single = omega arith;
  good = (record { logs = (phone-HasLog, tt); distinct = (found_none, tt) }, tt);
}

const_time_cmp-eq_zero_example :
    ((const_time_cmp sender other_sender 2 ≡ pos 0) ↔ (sender ≡ other_sender))
    × ((same sender other_sender 2 ≡ true) ↔ (sender ≡ other_sender))
const_time_cmp-eq_zero_example =
    const_time_cmp-eq_zero sender other_sender (omega arith, (omega arith, tt))
      (omega arith, (omega arith, tt)) refl

register_all_lem_example :
    let (c', acks) = register_all (41 ∷ 42 ∷ []) phone [] in
    (payloads acks ++ pending c' ≡ pending phone ++ concat (map be32 (41 ∷ 42 ∷ [])))
    × (recv_ack_int * length acks + c'.recv_idx ≡ 11)
    × HasLog c'
register_all_lem_example = register_all_lem (41 ∷ 42 ∷ []) phone phone-HasLog

group_reg_replaces_example :
    let (c', ok) = group_reg all_well other_sender reg1 20 busy_ctx in
    (ok ≡ true)
    × (c'.groups ≡ registered used_memory other_sender (packet_id reg1) (9 ∷ 9 ∷ []) 20 2 ∷ [])
    × (c'.calls
        ≡ send_to other_sender (reg2_packet (take 128 (packet_id reg1) ++ (9 ∷ 9 ∷ [])))
          ∷ (clear_groups other_sender (packet_id reg1) busy_ctx).calls)
    × (c'.group_seq ≡ add64 2 1)
group_reg_replaces_example =
    group_reg_replaces all_well other_sender reg1 20 busy_ctx used_memory (9 ∷ 9 ∷ []) [] refl refl
      refl refl

abbrev cleared_ctx : Ctx
cleared_ctx = clear_groups sender (packet_id reg1) ready_ctx

made :
    group_create reg2_lost.memory reg2_lost.draws (packet_id reg1) 20 cleared_ctx
    ≡ some (init_group used_memory (take 128 (packet_id reg1) ++ (9 ∷ 9 ∷ [])) 20 cleared_ctx)
unfolding group_create draw_id group_find_by_id clear_groups shutdown_groups destroy_with_id
    destroy_found group_find_by_addr
made = refl

group_reg_drifts_example :
    let (d, ok) = group_reg reg2_lost sender reg1 20 ready_ctx in
    (ok ≡ false) × (d.groups ≡ []) × (d.group_count ≡ negsuc 0)
group_reg_drifts_example =
    group_reg_drifts reg2_lost sender reg1 20 ready_ctx
      (init_group used_memory (take 128 (packet_id reg1) ++ (9 ∷ 9 ∷ [])) 20 cleared_ctx) refl refl
      made refl

abbrev ack_read : SrtRead
ack_read = record { buf = some ack_from_server; send_error = none; now_ms = 1000 }

abbrev failed_read : SrtRead
failed_read = record { buf = none; send_error = none; now_ms = 1000 }

abbrev first_packets : List Datagram
first_packets = record { io = all_well; from = sender; buf = reg1 } ∷ []

abbrev a_start : Startup
a_start = record {
  memory = true;
  lookup =
      some (record { address = 1 ∷ []; connects = false; sends = false; polls = λ i. silent }, []);
  lookup_socket = true;
  urandom = true;
  epoll = true;
  socket = true;
  bound = true;
  watched = true;
}

abbrev begun_ctx : Ctx
begun_ctx = loop_ctx linux 5000 a_start

registered-Reach : Reach begun_ctx (reset_groups (handle_srtla_data 20 first_packets begun_ctx))
registered-Reach = later (later here (senders 20 first_packets)) reset

Reach-start-IsValid_example : IsValid (reset_groups (handle_srtla_data 20 first_packets begun_ctx))
Reach-start-IsValid_example = Reach-start-IsValid linux 5000 a_start registered-Reach

reg1-is_reg1 : is_srtla_reg1 reg1 ≡ true
unfolding is_srtla_reg1 get_srt_type
reg1-is_reg1 = refl

stale_event_example :
    handle_events 20
      (from_senders (record { io = all_well; from = sender; buf = reg1 } ∷ [])
        ∷ from_server 16 (ack_read ∷ [])
        ∷ [])
      busy_ctx
    ≡ none
stale_event_example =
    stale_event 20 (record { io = all_well; from = sender; buf = reg1 }) (ack_read ∷ []) busy_ctx
      studio used_memory (9 ∷ 9 ∷ []) [] refl refl reg1-is_reg1 refl refl refl
      (λ e. absurd (omega (arith, e)))

-- Packets with less than a type.
abbrev noise : Bytes
noise = 1 ∷ 2 ∷ 3 ∷ []

noise-not_reg1 : is_srtla_reg1 noise ≡ false
unfolding is_srtla_reg1
noise-not_reg1 = refl

noise-not_reg2 : is_srtla_reg2 noise ≡ false
unfolding is_srtla_reg2
noise-not_reg2 = refl

stranger : conn_find other_sender studio.conns ≡ none
unfolding conn_find same const_time_cmp cmp_loop
stranger = refl

srtla_packet_discards_example : srtla_packet all_well 30 other_sender noise busy_ctx ≡ busy_ctx
srtla_packet_discards_example =
    srtla_packet_discards all_well 30 other_sender noise busy_ctx noise-not_reg1 noise-not_reg2
      (stranger, tt)

ack_from_server-is_ack : is_srt_ack ack_from_server ≡ true
unfolding is_srt_ack get_srt_type
ack_from_server-is_ack = refl

handle_srt_data-ack_example :
    handle_srt_data 0 (ack_read ∷ []) busy_ctx
    ≡ handle_srt_data 0 [] (record busy_ctx {
      calls = reverse (map (λ (k : Conn). send_to k.addr ack_from_server) studio.conns) ++ [];
    })
handle_srt_data-ack_example =
    handle_srt_data-ack 0 ack_read [] ack_from_server busy_ctx studio refl refl (omega arith)
      ack_from_server-is_ack

abbrev reg2 : Bytes
reg2 = be16 srtla_type_reg2 ++ (take 128 (packet_id reg1) ++ (9 ∷ 9 ∷ []))

abbrev drawing_128 : Io
drawing_128 = record all_well { draws = replicate 128 9 ∷ [] }

-- The REG2 that answers `reg1`.
abbrev reg2_back : Bytes
reg2_back = reg2_packet (take 128 (packet_id reg1) ++ replicate 128 9)

reg2_back-sent :
    get_elem? (group_reg drawing_128 sender reg1 20 busy_ctx).0.calls 0
    ≡ some (send_to sender reg2_back)
reg2_back-sent =
    let (_, _, calls, _) =
      group_reg_replaces drawing_128 sender reg1 20 busy_ctx used_memory (replicate 128 9) [] refl
        refl refl refl in
    ap (λ cs. get_elem? cs 0) calls

register_then_join_example :
    let (c1, ok1) = group_reg drawing_128 sender reg1 20 busy_ctx in
    let (c2, ok2) = conn_reg all_well other_sender reg2_back 21 c1 in
    (ok1 ≡ true)
    × (ok2 ≡ true)
    × (c2.groups
        ≡ joined other_sender 21
            (registered used_memory sender (packet_id reg1) (replicate 128 9) 20 2)
          ∷ [])
    × (group_find_by_addr other_sender c2.groups ≡ member 0 0)
    × (c2.calls ≡ send_to other_sender (be16 srtla_type_reg3) ∷ c1.calls)
register_then_join_example =
    register_then_join drawing_128 all_well sender other_sender reg1 reg2_back 20 21 busy_ctx
      used_memory (replicate 128 9) [] reg2_back refl refl refl refl refl refl refl refl
      reg2_back-sent refl
