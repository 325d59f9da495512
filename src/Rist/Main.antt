-- ===== src/Rist/Main.antt =====
-- `rist_rec_main` of src/rist_rec.c, with `init_udp_relay` and `close_udp_relay`.
pub mod Release
use pyle_irl.Base.{
  ℕ, Bool, true, false, ◌&&◌, not, Option, none, some, List, [], ◌∷◌, ◌++◌, modify, if◌then◌else◌,
}
use pyle_irl.Base.Int.{ℤ, pos, negsuc}
use pyle_irl.Receiver.State.{add64}
use pyle_irl.Rist.{Info}
use pyle_irl.Rist.Contexts.{RistTable, add_rist_context, remove_rist_context}

-- The answers of the system and of librist to the calls of the start, in their order, the first,
-- `WSAStartup`, on Windows only.
pub record LibristAnswers : Type 0 where
  pub on_windows : Bool
  pub winsock_started : Bool
  pub udp_socket_opened : Bool
  pub logging_set : Bool
  pub receiver_created : Bool
  pub address_parsed : Bool
  pub peer_created : Bool
  pub receiver_started : Bool

-- What the function holds: Winsock, the socket of the relay, the logging settings, the context of librist and
-- the configuration of the peer.
pub record Holding : Type 0 where
  pub winsock : Bool
  pub udp_socket : Bool
  pub logging_settings : Bool
  pub rist_ctx : Bool
  pub peer_config : Bool

abbrev pub holding_none : Holding
holding_none = record {
  winsock = false;
  udp_socket = false;
  logging_settings = false;
  rist_ctx = false;
  peer_config = false;
}

-- `WSACleanup` comes with the close of the socket.
abbrev pub close_udp_relay : Holding → Holding
close_udp_relay h = if h.udp_socket then record h { udp_socket = false; winsock = false } else h

abbrev pub free_logging : Holding → Holding
free_logging h = record h { logging_settings = false }

abbrev pub destroy_rist : Holding → Holding
destroy_rist h = record h { rist_ctx = false }

abbrev pub free_peer_config : Holding → Holding
free_peer_config h = record h { peer_config = false }

-- The start: what is held, and whether the loop is reached. A failed parse may leave a configuration.
unfoldable pub start_rist : LibristAnswers → Holding × Bool
start_rist a =
    let h0 = record holding_none { winsock = a.on_windows } in
    let h1 = record h0 { udp_socket = true } in
    let h2 = record h1 { logging_settings = true } in
    let h3 = record h2 { rist_ctx = true } in
    let h4 = record h3 { peer_config = true } in
    let h5 = free_peer_config h4 in
    if a.on_windows && not a.winsock_started
    then (holding_none, false)
    else if not a.udp_socket_opened
    then (h0, false)
    else if not a.logging_set
    then (close_udp_relay h1, false)
    else if not a.receiver_created
    then (close_udp_relay (free_logging h2), false)
    else if not a.address_parsed
    then (close_udp_relay (free_logging (destroy_rist (free_peer_config h4))), false)
    else if not a.peer_created
    then (close_udp_relay (free_logging (destroy_rist (free_peer_config h4))), false)
    else if not a.receiver_started
    then (close_udp_relay (free_logging (destroy_rist h5)), false)
    else (h5, true)

-- What `rist_receiver_data_read2` returns in a round of the loop: a block of this length, nothing, or
-- an error.
pub data RistRead : Type 0 where
  data_block : ℕ → RistRead
  nothing_read : RistRead
  read_error : RistRead

abbrev pub add_bytes : ℕ → Option Info → Option Info
add_bytes n none = none
add_bytes n (some info) = some (record info { total_bytes = add64 info.total_bytes n })

-- One round: the table, with the bytes counted for the context if there is one, and the lengths of what
-- is sent on.
unfoldable pub relay_read : Option ℕ → RistRead → RistTable → RistTable × List ℕ
relay_read (some i) (data_block n) t = (modify i (add_bytes n) t, n ∷ [])
relay_read none (data_block n) t = (t, n ∷ [])
relay_read i nothing_read t = (t, [])
relay_read i read_error t = (t, [])

unfoldable pub relay_loop : Option ℕ → List RistRead → RistTable → RistTable × List ℕ
relay_loop i [] t = (t, [])
relay_loop i (r ∷ rs) t =
    let (t', sent) = relay_read i r t in
    let (t'', later_sent) = relay_loop i rs t' in (t'', sent ++ later_sent)

-- What `rist_rec_main` leaves: its result, what it holds, the table, and the lengths of what it sent on.
pub record RistEnd : Type 0 where
  pub result : ℤ
  pub holding : Holding
  pub table : RistTable
  pub sent : List ℕ

abbrev pub take_context : ℕ → RistTable → Option ℕ × RistTable
take_context port t = elim (add_rist_context port t) [
  | none ↦ (none, t)
  | some (i, t') ↦ (some i, t')
]

abbrev pub give_context : Option ℕ → RistTable → RistTable
give_context none t = t
give_context (some i) t = remove_rist_context i t

-- `reads` are the reads until the stop flag is set.
unfoldable pub rist_rec_main : LibristAnswers → ℕ → List RistRead → RistTable → RistEnd
rist_rec_main a port reads t =
    let (h, started) = start_rist a in
    let (i, t1) = take_context port t in
    let (t2, sent) = relay_loop i reads t1 in
    if started
    then record {
      result = pos 0;
      holding = close_udp_relay (free_logging (destroy_rist h));
      table = give_context i t2;
      sent = sent;
    }
    else record { result = negsuc 0; holding = h; table = t; sent = [] }
