-- ===== src/Receiver/Register/Join.antt =====
-- A registration of a group and of its first connection (src/srtla/srtla_rec.c), one after the
-- other.
use mathlib.Core.Option.{some-injective}
use pyle_irl.Base.{
  ℕ, zero, suc, ◌≤◌, ◌≡◌, refl, sym, ap, subst, ◌∙◌, true, false, none, some, List, [], ◌∷◌, ◌++◌,
  arith, length, get_elem?, take, length-append, take_all,
}
use pyle_irl.Base.Int.{pos, leb_ℤ}
use pyle_irl.Receiver.Compare.{same}
use pyle_irl.Receiver.Compare.Equality.{same_refl}
use pyle_irl.Receiver.Groups.{group_find_by_id, member, conn_find, group_find_by_addr}
use pyle_irl.Receiver.Io.{Io}
use pyle_irl.Receiver.Register.{
  packet_id, reg2_packet, group_reg, new_conn, confirm_conn, join, join_group, conn_reg,
}
use pyle_irl.Receiver.Register.Replace.{registered, group_reg_replaces}
use pyle_irl.Receiver.State.{max_groups, addr_len, Group, Call, send_to, Ctx}
use pyle_irl.Wire.{Bytes, srtla_type_reg3, srtla_id_len, be16}

-- The group with the new connection in front, which is its last peer.
abbrev pub joined : Bytes → ℕ → Group → Group
joined addr ts g = record g { conns = new_conn addr ts ∷ g.conns; last_addr = addr }

-- With one group, whose id the packet has, with memory for the connection, from an address that is
-- none of its connections, and with a REG3 that goes out.
conn_reg_joins :
    (io : Io) (addr in_buf : Bytes) (ts : ℕ) (c : Ctx) (g : Group)
    → c.groups ≡ g ∷ []
    → g.id ≡ packet_id in_buf
    → conn_find addr g.conns ≡ none
    → io.conn_memory ≡ true
    → io.reg3_sent ≡ true
    → let (c', ok) = conn_reg io addr in_buf ts c in
      (ok ≡ true)
      × (c'.groups ≡ joined addr ts g ∷ [])
      × (c'.calls ≡ send_to addr (be16 srtla_type_reg3) ∷ c.calls)
unfolding conn_reg group_find_by_id group_find_by_addr join_group join confirm_conn
conn_reg_joins io addr in_buf ts c g one id absent memory sent =
    let found : same g.id (packet_id in_buf) srtla_id_len ≡ true =
      subst (λ b. same g.id b srtla_id_len ≡ true) id (same_refl g.id srtla_id_len) in
    ground (arith, found)

pub length-take : (n : ℕ) (xs : Bytes) → n ≤ length xs → length (take n xs) ≡ n
length-take zero xs h = refl
length-take (suc n) [] h = absurd (omega arith)
length-take (suc n) (x ∷ xs) h = ap suc (length-take n xs (omega arith))

-- The id that the receiver makes of the sender's half and its own.
abbrev pub full_id : Bytes → Bytes → Bytes
full_id id r = take 128 id ++ r

pub length-full_id :
    (id r : Bytes)
    → length id ≡ srtla_id_len
    → length r ≡ 128
    → length (full_id id r) ≡ srtla_id_len
length-full_id id r e f =
    length-append (take 128 id) r ∙ omega (arith, length-take 128 id (omega arith))

abbrev payload : Call → Bytes
payload (send_to addr buf) = buf
payload _ = []

-- A sender that registers a group and then, from any address, sends the id of the REG2 that the
-- registration sent to it: it is the one connection of the one group, and the searches find it. The two
-- registrations succeed under the conditions of `group_reg`, with 128 random bytes, and with memory for
-- the connection and a REG3 that goes out.
pub register_then_join :
    (io io' : Io) (addr addr' in_buf in_buf' : Bytes) (ts ts' : ℕ) (c : Ctx) (raw : Group)
    (r : Bytes) (rs : List Bytes) (reg2 : Bytes)
    → leb_ℤ (pos max_groups) c.group_count ≡ false
    → io.memory ≡ some raw
    → io.draws ≡ r ∷ rs
    → io.reg2_sent ≡ true
    → io'.conn_memory ≡ true
    → io'.reg3_sent ≡ true
    → length (packet_id in_buf) ≡ srtla_id_len
    → length r ≡ 128
    → get_elem? (group_reg io addr in_buf ts c).0.calls 0 ≡ some (send_to addr reg2)
    → packet_id in_buf' ≡ packet_id reg2
    → let (c1, ok1) = group_reg io addr in_buf ts c in
      let (c2, ok2) = conn_reg io' addr' in_buf' ts' c1 in
      (ok1 ≡ true)
      × (ok2 ≡ true)
      × (c2.groups
          ≡ joined addr' ts' (registered raw addr (packet_id in_buf) r ts c.group_seq) ∷ [])
      × (group_find_by_addr addr' c2.groups ≡ member 0 0)
      × (c2.calls ≡ send_to addr' (be16 srtla_type_reg3) ∷ c1.calls)
unfolding conn_find group_find_by_addr
register_then_join io io' addr addr' in_buf in_buf' ts ts' c raw r rs reg2 room memory draws sent
      memory' sent' size size' reg2_out echoed =
    let (c1, ok1) = group_reg io addr in_buf ts c in
    let (done, one, calls, _) =
      group_reg_replaces io addr in_buf ts c raw r rs room memory draws sent in
    let g = registered raw addr (packet_id in_buf) r ts c.group_seq in
    let id = full_id (packet_id in_buf) r in
    let is_reg2 : reg2 ≡ reg2_packet id =
      ap payload (some-injective _ _ (sym reg2_out ∙ ap (λ cs. get_elem? cs 0) calls)) in
    let given : packet_id in_buf' ≡ id =
      echoed
      ∙ ap packet_id is_reg2
      ∙ take_all srtla_id_len id (omega (arith, length-full_id (packet_id in_buf) r size size')) in
    let (done', one', calls') =
      conn_reg_joins io' addr' in_buf' ts' c1 g one (sym given) refl memory' sent' in
    (done, done', one', ground (arith, one', same_refl addr' addr_len), calls')
