-- ===== src/Receiver/Invariant/Traffic.antt =====
-- Packets in both directions (`handle_srtla_data` and `handle_srt_data` of src/srtla/srtla_rec.c)
-- keep the invariant.
use pyle_irl.Base.{
  ℕ, ◌+◌, ◌≡◌, refl, inl, inr, Bool, some, List, ◌∷◌, ◌++◌, arith, length, get_elem?, set,
  length-set, All-get, All-set, All-modify, ltb, Bool-cases, Option-cases,
}
use pyle_irl.Base.Int.{pos, ◌-ℤ◌}
use pyle_irl.Receiver.Ack.{register_packet}
use pyle_irl.Receiver.Ack.Ledger.{HasLog, register_packet-HasLog}
use pyle_irl.Receiver.Forward.{
  send_on, watch_srt, open_srt, forward, log_packet, touch, member_packet,
}
use pyle_irl.Receiver.Groups.{counted}
use pyle_irl.Receiver.Invariant.{IsGood, IsValid}
use pyle_irl.Receiver.Invariant.Conns.{Distinct-modify, Distinct-set}
use pyle_irl.Receiver.Invariant.Register.{IsValid-groups, group_destroy-IsValid}
use pyle_irl.Receiver.Io.{Io}
use pyle_irl.Receiver.Out.{Out, commit}
use pyle_irl.Receiver.State.{
  Platform, windows, linux, macos, Conn, Group, Call, epoll_add, Ctx, add64,
}
use pyle_irl.Wire.{Bytes, srt_min_len, get_srt_sn, is_srtla_keepalive}

pub IsGood-same : (g g' : Group) → g'.conns ≡ g.conns → IsGood g → IsGood g'
IsGood-same g g' e h = record { logs = rw e h.logs; distinct = rw e h.distinct }

pub commit-IsValid :
    (gi : ℕ) (out : Out) (c : Ctx) → IsGood out.group → IsValid c → IsValid (commit gi out c)
unfolding commit
commit-IsValid gi out c good v =
    let c' : Ctx = record c {
      groups = set c.groups gi out.group;
      active_connections = c.active_connections -ℤ pos (counted c.platform out.dropped);
      failed_connections = c.failed_connections + counted c.platform out.dropped;
      calls = out.calls ++ c.calls;
    } in
    let v' : IsValid c' =
      IsValid-groups c' (set c.groups gi out.group) refl
        (omega (arith, length-set c.groups gi out.group, v.single))
        (All-set IsGood c.groups gi out.group good v.good) in
    elim (Bool-cases out.stays) [
      | inl stays ↦ rw (stays, commit) v'
      | inr goes ↦ rw (goes, commit) (group_destroy-IsValid gi c' v')
    ]

module _ (auto : Bool) (interval : ℕ) (io : Io) (buf : Bytes) where
  conns-send_on :
      (s : ℕ) (g : Group) (calls : List Call)
      → (send_on auto interval io buf s g calls).group.conns ≡ g.conns
  unfolding send_on
  conns-send_on s g calls = ground arith

  conns-watch_srt :
      (plat : Platform) (s : ℕ) (g : Group) (calls : List Call)
      → (watch_srt plat auto interval io buf s g calls).group.conns ≡ g.conns
  unfolding watch_srt
  conns-watch_srt linux s g calls =
      ground (arith, conns-send_on s (record g { srt_sock = some s }) (epoll_add s ∷ calls))
  conns-watch_srt windows s g calls = conns-send_on s (record g { srt_sock = some s }) calls
  conns-watch_srt macos s g calls = conns-send_on s (record g { srt_sock = some s }) calls

  conns-open_srt :
      (plat : Platform) (g : Group) (calls : List Call)
      → (open_srt plat auto interval io buf g calls).group.conns ≡ g.conns
  unfolding open_srt
  conns-open_srt plat g calls = elim (Option-cases io.socket) [
    | inl no_sock ↦ ground arith
    | inr (s, made) ↦ ground (arith, conns-watch_srt plat s g calls)
  ]

  -- Only the fields for the SRT side of a group change on the way to the server.
  pub conns-forward :
      (plat : Platform) (g : Group) (calls : List Call)
      → (forward plat auto interval io buf g calls).group.conns ≡ g.conns
  unfolding forward
  conns-forward plat g calls = elim (Option-cases g.srt_sock) [
    | inl e ↦ rw (e, forward) (conns-open_srt plat g calls)
    | inr (s, e) ↦ rw (e, forward) (conns-send_on s g calls)
  ]

touch-IsGood : (n ts ci : ℕ) (g : Group) → IsGood g → IsGood (touch n ts ci g)
touch-IsGood n ts ci g h =
    let f = λ (k : Conn). record k { last_rcvd = ts; bytes_received = add64 k.bytes_received n } in
    record {
      logs =
          All-modify HasLog ci f g.conns (λ k p. record { room = p.room; whole = p.whole }) h.logs;
      distinct = Distinct-modify ci f g.conns (λ k. refl) h.distinct;
    }

addr-register_packet : (sn : ℕ) (k : Conn) → (register_packet sn k).0.addr ≡ k.addr
unfolding register_packet
addr-register_packet sn k = ground arith

log_packet-IsGood : (buf : Bytes) (ci : ℕ) (g : Group) → IsGood g → IsGood (log_packet buf ci g).0
unfolding log_packet
log_packet-IsGood buf ci g h = elim (Option-cases (get_srt_sn buf)) [
  | inl e ↦ rw (e, log_packet) h
  | inr (sn, e) ↦ elim (Option-cases (get_elem? g.conns ci)) [
    | inl out ↦ rw (e, log_packet) (rw out h)
    | inr (k, at) ↦
        let k' = (register_packet sn k).0 in
        rw (e, log_packet)
          (rw at (record {
            logs =
                All-set HasLog g.conns ci k'
                  (register_packet-HasLog sn (All-get HasLog g.conns ci at h.logs)) h.logs;
            distinct = Distinct-set g.conns ci k k' at (addr-register_packet sn k) h.distinct;
          }))
  ]
]

pub member_packet-IsGood :
    (plat : Platform) (auto : Bool) (interval : ℕ) (io : Io) (ts : ℕ) (addr buf : Bytes) (ci : ℕ)
    (g : Group)
    → IsGood g
    → IsGood (member_packet plat auto interval io ts addr buf ci g).group
unfolding member_packet
member_packet-IsGood plat auto interval io ts addr buf ci g h =
    let g1 = touch (length buf) ts ci g in
    let h1 = touch-IsGood (length buf) ts ci g h in
    let g1' : Group = record g1 { last_addr = addr } in
    let logged = log_packet buf ci g1' in
    elim (Bool-cases (is_srtla_keepalive buf)) [
      | inl keepalive ↦ rw (keepalive, member_packet) h1
      | inr other ↦ elim (Bool-cases (ltb (length buf) srt_min_len)) [
        | inl short ↦ rw (other, member_packet) (rw short h1)
        | inr long ↦
            rw (other, member_packet)
              (rw long (
                IsGood-same logged.0 _ (conns-forward auto interval io buf plat logged.0 logged.1)
                  (log_packet-IsGood buf ci g1' (IsGood-same g1 g1' refl h1))))
      ]
    ]
