-- ===== src/Receiver/Io.antt =====
-- What the operating system answers while src/srtla/srtla_rec.c handles one packet.
use pyle_irl.Base.{ℕ, Bool, true, false, Option, List}
use pyle_irl.Receiver.State.{Group}
use pyle_irl.Wire.{Bytes}

-- The errors of a UDP socket that `is_fatal_udp_error` (src/srtla/common.c) names, and the rest.
pub data Errno : Type 0 where
  enetunreach ehostunreach eaddrnotavail econnreset other_errno : Errno

unfoldable pub is_fatal_udp_error : Errno → Bool
is_fatal_udp_error enetunreach = true
is_fatal_udp_error ehostunreach = true
is_fatal_udp_error eaddrnotavail = true
is_fatal_udp_error econnreset = true
is_fatal_udp_error other_errno = false

-- For a packet from a sender: the memory of a new group, the blocks that `/dev/urandom` has, whether
-- REG2 went out, whether there is memory for a connection, whether REG3 went out, the new socket
-- to the SRT server, whether it connects and can be watched, whether the packet went out on it, and
-- the clock.
pub record Io : Type 0 where
  pub memory : Option Group
  pub draws : List Bytes
  pub reg2_sent : Bool
  pub conn_memory : Bool
  pub reg3_sent : Bool
  pub socket : Option ℕ
  pub connected : Bool
  pub watched : Bool
  pub forwarded : Bool
  pub now_ms : ℕ
