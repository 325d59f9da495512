-- ===== src/Sender/Packets.antt =====
-- `handle_srtla_data` of src/srtla/srtla_send.c: packets of the receiver, on their way to the SRT
-- caller. `buf` is the packet that was received and `behind` what the buffer holds after it.
pub mod Reports
use pyle_irl.Base.{
  ℕ, ◌+◌, ◌*◌, ◌/◌, Bool, true, ◌&&◌, not, Option, none, some, List, [], ◌∷◌, ◌++◌, length,
  get_elem?, take, drop, modify, ltb, ◌==◌, if◌then◌else◌, is_none,
}
use pyle_irl.Receiver.Register.{reg2_packet}
use pyle_irl.Sender.Acks.{register_srtla_ack, register_srt_ack}
use pyle_irl.Sender.Naks.{register_naks, nak_pkts}
use pyle_irl.Sender.State.{
  reg2_timeout, reg3_timeout, registered_link, Link, Action, to_caller, Sender, is_pending,
  link_packet, reg1_packet,
}
use pyle_irl.Wire.{
  Bytes, srt_type_ack, srt_type_nak, srtla_type_keepalive, srtla_type_ack, srtla_type_reg2,
  srtla_type_reg3, srtla_type_reg_ngp, srtla_id_len, same_text, word_at, words_of, get_srt_type,
}

unfoldable pub register_acks : List ℕ → List Link → List Link
unfolding register_srtla_ack
register_acks [] cs = cs
register_acks (ack ∷ acks) cs = register_acks acks (register_srtla_ack ack cs)

-- "Only process NGPs if" nothing is established or under way.
unfoldable pub on_reg_ngp : ℕ → Bool → Link → Sender → Sender
on_reg_ngp ts sent c s =
    let out = record s {
      actions = link_packet s.srtla_addr (reg1_packet s.srtla_id) c ++ s.actions;
    } in
    if s.active_connections == 0 && is_none s.pending_reg2_conn && ltb s.pending_reg_timeout ts
    then (if sent && not (is_none c.fd)
        then record out { pending_reg2_conn = some c.node; pending_reg_timeout = ts + reg2_timeout }
        else out)
    else s

-- "Broadcast REG2", latest action first.
unfoldable pub broadcast_reg2 : Bytes → Bytes → List Link → List Action → List Action
broadcast_reg2 addr id [] actions = actions
broadcast_reg2 addr id (c ∷ cs) actions =
    broadcast_reg2 addr id cs (link_packet addr (reg2_packet id) c ++ actions)

-- `memory` is the buffer: the packet may be shorter than the id that is read from it.
unfoldable pub on_reg2 : ℕ → Bytes → Link → Sender → Sender
unfolding broadcast_reg2
on_reg2 ts memory c s =
    let id = take srtla_id_len (drop 2 memory) in
    if is_pending s.pending_reg2_conn c
    then (if same_text (take 128 id) (take 128 s.srtla_id)
        then record s {
          srtla_id = id;
          actions = broadcast_reg2 s.srtla_addr id s.links s.actions;
          pending_reg2_conn = none;
          pending_reg_timeout = ts + reg3_timeout;
        }
        else s)
    else s

abbrev pub to_srt : Bytes → Sender → Sender
to_srt buf s = record s { actions = to_caller s.srt_addr buf ∷ s.actions }

unfoldable pub on_srt_nak : Bytes → Bytes → Sender → Option Sender
unfolding nak_pkts register_naks
on_srt_nak buf behind s =
    let after = word_at (drop (length buf / 4 * 4) (buf ++ behind)) in
    elim (nak_pkts (drop 4 (words_of buf)) after) [
      | none ↦ none
      | some ps ↦ some (to_srt buf (record s { links = register_naks ps s.links }))
    ]

abbrev pub on_reg3 : ℕ → Sender → Sender
on_reg3 i s = record s {
  links = modify i (λ c. record c { cstate = registered_link }) s.links;
  has_connected = true;
  active_connections = s.active_connections + 1;
}

-- The `switch`.
unfoldable pub on_type : ℕ → Bytes → Bytes → ℕ → Sender → Option Sender
unfolding on_srt_nak
on_type type buf behind i s =
    if type == srt_type_ack
    then some (
        to_srt buf
          (record s { links = register_srt_ack (word_at (drop 16 (buf ++ behind))) s.links }))
    else if type == srt_type_nak
    then on_srt_nak buf behind s
    else if type == srtla_type_ack
    then some (record s { links = register_acks (drop 1 (words_of buf)) s.links })
    else if type == srtla_type_keepalive
    then some s
    else if type == srtla_type_reg3
    then some (on_reg3 i s)
    else some (to_srt buf s)

-- For the link at index `i`. `sent` says whether a REG1 goes out; `none` is a loop that never ends.
unfoldable pub handle_srtla_data : ℕ → Bool → Bytes → Bytes → ℕ → Sender → Option Sender
handle_srtla_data ts sent [] behind i s = some s
handle_srtla_data ts sent (b ∷ bs) behind i s = elim (get_elem? s.links i) [
  | none ↦ some s
  | some c ↦
      let buf = b ∷ bs in
      let type = get_srt_type buf in
      if type == srtla_type_reg_ngp
      then some (on_reg_ngp ts sent c s)
      else if type == srtla_type_reg2
      then some (on_reg2 ts (buf ++ behind) c s)
      else on_type type buf behind i
          (record s { links = modify i (λ l. record l { last_rcvd = ts }) s.links })
]
