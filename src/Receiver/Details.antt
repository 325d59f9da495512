-- ===== src/Receiver/Details.antt =====
-- `srtla_get_connection_details` of src/srtla/srtla_rec.c: the receivers as a JSON text.
pub mod Json
pub mod Overflow
use pyle_irl.Base.{
  ℕ, suc, ◌+◌, ◌*◌, Bool, true, false, ◌||◌, Option, none, some, List, [], ◌∷◌, ◌++◌, map, ltb,
  ◌==◌, if◌then◌else◌,
}
use pyle_irl.Receiver.Instances.{Table}
use pyle_irl.Receiver.State.{Conn, Group}
use pyle_irl.Text.{ascii, decimal, Written, Write, print, ◌⨾◌, print_items, has_buffer, into_buffer}
use pyle_irl.Text.Groups.{Figures, group_head, conn_text}
use pyle_irl.Wire.{Bytes}

-- What is the system's of an address: its family and its text.
pub record AddrView : Type 0 where
  pub sa_family : Bytes → ℕ
  pub af_inet : ℕ
  pub af_inet6 : ℕ
  pub inet_ntop : Bytes → Bytes

abbrev pub is_inet : AddrView → Bytes → Bool
is_inet v addr = v.sa_family addr == v.af_inet || v.sa_family addr == v.af_inet6

-- `print_addr` of src/srtla/common.c
unfoldable pub print_addr : AddrView → Bytes → Bytes
print_addr v addr = if is_inet v addr then v.inet_ntop addr else ascii "Unknown"

-- The third and the fourth byte, in network order.
abbrev pub sin_port : Bytes → ℕ
sin_port (_ ∷ _ ∷ high ∷ low ∷ _) = high * 256 + low
sin_port _ = 0

-- `port_no` of src/srtla/common.c
unfoldable pub port_no : AddrView → Bytes → ℕ
port_no v addr = if is_inet v addr then sin_port addr else 0

-- The ports of the contexts that are there and listen.
unfoldable pub listening_ports : Table → List ℕ
listening_ports [] = []
listening_ports (none ∷ t) = listening_ports t
listening_ports (some c ∷ t) =
    let rest = listening_ports t in if c.is_listening then c.listen_port ∷ rest else rest

-- The groups of all contexts with the ports, in the order of the two loops over them: where the test of
-- the inner loop fails, nothing is written and it fails for the next context too.
unfoldable pub groups_with_port : Table → List (ℕ × Group)
groups_with_port [] = []
groups_with_port (none ∷ t) = groups_with_port t
groups_with_port (some c ∷ t) =
    map (λ (g : Group). (c.listen_port, g)) c.groups ++ groups_with_port t

-- `*failed_conns`
unfoldable pub sum_failed : Table → ℕ
sum_failed [] = 0
sum_failed (none ∷ t) = sum_failed t
sum_failed (some c ∷ t) = c.failed_connections + sum_failed t

-- `*listen_port`: that of the last context that listens.
unfoldable pub last_port : ℕ → List ℕ → ℕ
last_port port [] = port
last_port port (p ∷ ports) = last_port p ports

-- `offset < max_len - 1`
abbrev pub has_room : ℕ → Written → Bool
has_room max_len w = ltb (w.offset + 1) max_len

-- A loop that goes on while there is room.
abbrev pub while_room : ℕ → Write → Write
while_room max_len body w = if has_room max_len w then body w else some w

abbrev pub addr_text : AddrView → Conn → Bytes
addr_text v c = conn_text (print_addr v c.addr) (port_no v c.addr) c.bytes_received

-- The loop over the connections of a group, with a comma after each that has a next one.
unfoldable pub print_conns : ℕ → AddrView → List Conn → Write
print_conns max_len v [] = some
print_conns max_len v (c ∷ []) = while_room max_len (print max_len (addr_text v c))
print_conns max_len v (c ∷ c' ∷ cs) =
    while_room max_len
      (print max_len (addr_text v c) ⨾ print max_len (ascii ",") ⨾ print_conns max_len v (c' ∷ cs))

-- One round of the loop over the groups.
unfoldable pub print_group : ℕ → AddrView → Figures → ℕ × Group → Write
print_group max_len v x (port, g) =
    print max_len (group_head g.logical_group_id g.bytes_received port x)
    ⨾ print_conns max_len v g.conns
    ⨾ print max_len (ascii "]}")

-- The loop over the groups, with the flag `first_group`: `x` gives what each call of
-- `srtla_get_external_stats` answers, which changes from call to call, and `k` counts the calls.
unfoldable pub print_groups : ℕ → AddrView → (ℕ → Figures) → ℕ → Bool → List (ℕ × Group) → Write
print_groups max_len v x k first [] = some
print_groups max_len v x k first (pg ∷ pgs) = while_room max_len (
    (if first then some else print max_len (ascii ","))
    ⨾ print_group max_len v (x k) pg
    ⨾ print_groups max_len v x (suc k) false pgs)

-- What is written before the closing brackets.
unfoldable pub print_table : ℕ → AddrView → (ℕ → Figures) → List ℕ → List (ℕ × Group) → Write
print_table max_len v x ports pgs =
    print max_len (ascii "{")
    ⨾ print max_len (ascii "\"ports\":[")
    ⨾ print_items max_len true (map (λ port. print max_len (decimal port)) ports)
    ⨾ print max_len (ascii "],")
    ⨾ print max_len (ascii "\"groups\":[")
    ⨾ print_groups max_len v x 0 true pgs

-- What the function gives back; for `buffer`, `none` is a write behind its end.
pub record Details : Type 0 where
  pub listen_port : ℕ
  pub failed_conns : ℕ
  pub buffer : Option Written

unfoldable pub srtla_get_connection_details : Bool → ℕ → AddrView → (ℕ → Figures) → Table → Details
srtla_get_connection_details out_buffer max_len v x t =
    let reads = has_buffer out_buffer max_len in
    record {
      listen_port = if reads then last_port 0 (listening_ports t) else 0;
      failed_conns = if reads then sum_failed t else 0;
      buffer = into_buffer out_buffer max_len (
          print_table max_len v x (listening_ports t) (groups_with_port t)
          ⨾ print max_len (ascii "]}"));
    }
