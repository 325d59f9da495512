-- ===== src/Receiver/Register.antt =====
-- `group_reg` and `conn_reg` of src/srtla/srtla_rec.c: how a sender registers a group (REG1) and
-- then each of its connections (REG2).
pub mod Join
pub mod Count
pub mod Replace
use pyle_irl.Base.{
  ℕ, zero, suc, ◌*◌, ◌^◌, Bool, true, false, Option, none, some, List, [], ◌∷◌, ◌++◌, length, take,
  drop, replicate, remove_at, modify, ◌==◌, if◌then◌else◌,
}
use pyle_irl.Base.Int.{pos, ◌+ℤ◌, ◌-ℤ◌, leb_ℤ}
use pyle_irl.Receiver.Groups.{
  group_find_by_id, Found, member, peer, nobody, group_find_by_addr, group_create, counted,
  group_destroy,
}
use pyle_irl.Receiver.Io.{Io}
use pyle_irl.Receiver.State.{max_groups, Conn, zeroed_conn, Group, Call, send_to, send, Ctx, emit}
use pyle_irl.Wire.{
  Bytes, srt_type_shutdown, srtla_type_reg2, srtla_type_reg3, srtla_type_reg_err,
  srtla_type_reg_ngp, srtla_id_len, be16, be32,
}

-- A packet that is only a type.
abbrev pub reply : Bytes → ℕ → Ctx → Ctx
reply addr type c = emit (send_to addr (be16 type)) c

abbrev pub shutdown_packet : Bytes
shutdown_packet = be32 (srt_type_shutdown * 2 ^ 16) ++ replicate 12 0

abbrev pub shutdown_call : Option ℕ → List Call
shutdown_call (some (suc s)) = send (suc s) shutdown_packet ∷ []
shutdown_call _ = []

-- One round of the loop over `existing_g`, for the group at the head.
unfoldable pub shutdown_first : Ctx → Ctx
shutdown_first c = elim c.groups [
  | [] ↦ c
  | g ∷ gs ↦ group_destroy 0 (record c { calls = shutdown_call g.srt_sock ++ c.calls })
]

unfoldable pub shutdown_groups : ℕ → Ctx → Ctx
shutdown_groups zero c = c
shutdown_groups (suc n) c = shutdown_groups n (shutdown_first c)

-- The group that this address belongs to, as a member or as the last peer, is destroyed.
unfoldable pub destroy_found : Found → Ctx → Ctx
destroy_found (member gi ci) c = group_destroy gi c
destroy_found (peer gi) c = group_destroy gi c
destroy_found nobody c = c

unfoldable pub destroy_with_id : Option ℕ → Ctx → Ctx
destroy_with_id (some gi) c = group_destroy gi c
destroy_with_id none c = c

-- `in_buf + 2`
abbrev pub packet_id : Bytes → Bytes
packet_id in_buf = take srtla_id_len (drop 2 in_buf)

abbrev pub reg2_packet : Bytes → Bytes
reg2_packet id = be16 srtla_type_reg2 ++ id

-- From the new group at the head on: its address, REG2, and the count if all went well.
unfoldable pub announce_group : Io → Bytes → Ctx → Ctx × Bool
announce_group io addr c = elim c.groups [
  | [] ↦ (c, false)
  | g ∷ gs ↦
      let c' = record c {
        groups = record g { last_addr = addr } ∷ gs;
        calls = send_to addr (reg2_packet g.id) ∷ c.calls;
      } in
      if io.reg2_sent
      then (record c' { group_count = c'.group_count +ℤ pos 1 }, true)
      else (reply addr srtla_type_reg_err (group_destroy 0 c'), false)
]

-- What `group_reg` destroys before it makes the new group.
unfoldable pub clear_groups : Bytes → Bytes → Ctx → Ctx
unfolding destroy_found destroy_with_id
clear_groups addr id c =
    let c1 = destroy_found (group_find_by_addr addr c.groups) c in
    let c2 = destroy_with_id (group_find_by_id id c1.groups) c1 in
    shutdown_groups (length c2.groups) c2

-- `true` for the 0 that the function returns, `false` for -1.
unfoldable pub group_reg : Io → Bytes → Bytes → ℕ → Ctx → Ctx × Bool
unfolding announce_group
group_reg io addr in_buf ts c =
    if leb_ℤ (pos max_groups) c.group_count
    then (reply addr srtla_type_reg_err c, false)
    else let cleared = clear_groups addr (packet_id in_buf) c in
      elim (group_create io.memory io.draws (packet_id in_buf) ts cleared) [
        | none ↦ (reply addr srtla_type_reg_err cleared, false)
        | some c' ↦ announce_group io addr c'
      ]

-- The connection that is put at the head of the group's list.
abbrev pub new_conn : Bytes → ℕ → Conn
new_conn addr ts = record zeroed_conn { addr = addr; last_rcvd = ts; bytes_received = 0 }

abbrev pub add_conn : Conn → Group → Group
add_conn k g = record g { conns = k ∷ g.conns }

-- From REG3 on, for the connection at `ci` of the group at `gi`. On failure `g->conns = c->next`.
unfoldable pub confirm_conn : Io → Bytes → ℕ → ℕ → Ctx → Ctx × Bool
confirm_conn io addr gi ci c =
    let c' = reply addr srtla_type_reg3 c in
    if io.reg3_sent
    then (record c' { groups = modify gi (λ g. record g { last_addr = addr }) c'.groups }, true)
    else (
      reply addr srtla_type_reg_err (record c' {
        groups = modify gi (λ g. record g { conns = drop (suc ci) g.conns }) c'.groups;
        active_connections = c'.active_connections -ℤ pos (counted c'.platform 1);
      }),
      false,
    )

-- `group_find_by_addr` returned 1: the address is a connection already.
unfoldable pub rejoin : Io → Bytes → ℕ → ℕ → ℕ → ℕ → Ctx → Ctx × Bool
unfolding confirm_conn
rejoin io addr ts gi ti ci c =
    if gi == ti
    then confirm_conn io addr gi ci (record c {
      groups =
          modify gi (λ g. record g { conns = modify ci (λ k. record k { last_rcvd = ts }) g.conns })
            c.groups;
    })
    else confirm_conn io addr gi 0 (record c {
      groups =
          modify gi (add_conn (new_conn addr ts))
            (modify ti (λ g. record g { conns = remove_at ci g.conns }) c.groups);
    })

unfoldable pub join : Io → Bytes → ℕ → ℕ → Ctx → Ctx × Bool
unfolding confirm_conn
join io addr ts gi c =
    if io.conn_memory
    then confirm_conn io addr gi 0 (record c {
      groups = modify gi (add_conn (new_conn addr ts)) c.groups;
      active_connections = c.active_connections +ℤ pos (counted c.platform 1);
    })
    else (reply addr srtla_type_reg_err c, false)

-- "Check if we should register the connection".
unfoldable pub join_group : Io → Bytes → ℕ → ℕ → Found → Ctx → Ctx × Bool
unfolding rejoin join
join_group io addr ts gi (member ti ci) c = rejoin io addr ts gi ti ci c
join_group io addr ts gi (peer ti) c = join io addr ts gi c
join_group io addr ts gi nobody c = join io addr ts gi c

unfoldable pub conn_reg : Io → Bytes → Bytes → ℕ → Ctx → Ctx × Bool
conn_reg io addr in_buf ts c = elim (group_find_by_id (packet_id in_buf) c.groups) [
  | none ↦ (reply addr srtla_type_reg_ngp c, false)
  | some gi ↦ join_group io addr ts gi (group_find_by_addr addr c.groups) c
]
