-- ===== src/Receiver/Invariant.antt =====
-- What every context of src/srtla/srtla_rec.c satisfies between two calls of its handlers.

-- No two connections of the list answer to one address.
pub mod Cleanup
pub mod Packets
pub mod Traffic
pub mod Register
pub mod Conns
use pyle_irl.Base.{◌≤◌, ◌≡◌, none, List, [], ◌∷◌, length, All}
use pyle_irl.Receiver.Ack.Ledger.{HasLog}
use pyle_irl.Receiver.Groups.{conn_find}
use pyle_irl.Receiver.State.{Conn, Group, Ctx}

abbrev pub Distinct : List Conn → Type 0
Distinct [] = Unit {0}
Distinct (k ∷ ks) = (conn_find k.addr ks ≡ none) × Distinct ks

pub record IsGood (g : Group) : Type 0 where
  pub logs : All HasLog g.conns
  pub distinct : Distinct g.conns

-- There is at most one group, though the code is written for many; the log of each connection is
-- well formed; and a group has one connection for an address.
pub record IsValid (c : Ctx) : Type 0 where
  pub single : length c.groups ≤ 1
  pub good : All IsGood c.groups
