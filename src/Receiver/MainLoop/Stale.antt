-- ===== src/Receiver/MainLoop/Stale.antt =====
-- An event of a group that a registration has replaced (src/srtla/srtla_rec.c, the Linux loop).
use pyle_irl.Base.{ℕ, ◌≡◌, ap, ◌≢◌, true, false, none, some, List, [], ◌∷◌, arith, length}
use pyle_irl.Base.Int.{pos, leb_ℤ}
use pyle_irl.Receiver.Backward.{SrtRead}
use pyle_irl.Receiver.Forward.{srtla_packet, Datagram, handle_srtla_data}
use pyle_irl.Receiver.Groups.{counted}
use pyle_irl.Receiver.Io.{Io}
use pyle_irl.Receiver.MainLoop.{find_node, from_senders, from_server, handle_event, handle_events}
use pyle_irl.Receiver.Register.{packet_id, group_reg}
use pyle_irl.Receiver.Register.Count.{IsCounted, group_reg-IsCounted}
use pyle_irl.Receiver.Register.Replace.{registered, group_reg_replaces}
use pyle_irl.Receiver.State.{max_groups, Group, Ctx}
use pyle_irl.Receiver.Tests.{reg1}
use pyle_irl.Wire.{Bytes, is_srtla_reg1}

find_node-other : (node : ℕ) (g : Group) → g.node ≢ node → find_node node (g ∷ []) ≡ none
unfolding find_node
find_node-other node g other = ground arith

count-replaced :
    (io : Io) (addr buf : Bytes) (ts : ℕ) (c : Ctx) (g h : Group)
    → io.reg2_sent ≡ true
    → IsCounted c
    → c.groups ≡ g ∷ []
    → (group_reg io addr buf ts c).0.groups ≡ h ∷ []
    → leb_ℤ c.group_count (group_reg io addr buf ts c).0.group_count ≡ true
count-replaced io addr buf ts c g h sent counted one new =
    let after = group_reg-IsCounted io addr buf ts c sent counted in
    ground (
      arith,
      after,
      ap (λ (gs : List Group). length gs) one,
      ap (λ (gs : List Group). length gs) new,
    )

-- Where `epoll_wait` returned a REG1 packet on the listening socket and, behind it, an event of the
-- socket of the registered group, and the REG1 replaces that group by one whose struct lies
-- elsewhere, the count of groups is not smaller afterwards, so the loop goes on to the second event
-- and uses the freed struct: the round ends in a fault.
pub stale_event :
    (ts : ℕ) (d : Datagram) (rs : List SrtRead) (c : Ctx) (g raw : Group) (r : Bytes)
    (more : List Bytes)
    → c.groups ≡ g ∷ []
    → IsCounted c
    → is_srtla_reg1 d.buf ≡ true
    → d.io.memory ≡ some raw
    → d.io.draws ≡ r ∷ more
    → d.io.reg2_sent ≡ true
    → raw.node ≢ g.node
    → handle_events ts (from_senders (d ∷ []) ∷ from_server g.node rs ∷ []) c ≡ none
unfolding handle_events handle_event handle_srtla_data srtla_packet
stale_event ts d rs c g raw r more one counted reg1 memory draws sent moved =
    let room : leb_ℤ (pos max_groups) c.group_count ≡ false =
      ground (arith, ap (λ (gs : List Group). length gs) one) in
    let replaced = group_reg_replaces d.io d.from d.buf ts c raw r more room memory draws sent in
    let h = registered raw d.from (packet_id d.buf) r ts c.group_seq in
    let goes_on = count-replaced d.io d.from d.buf ts c g h sent counted one replaced.1 in
    ground (arith, goes_on, replaced.1, find_node-other g.node h moved)
