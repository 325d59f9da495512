-- ===== src/Receiver/Invariant/Register.antt =====
-- Registrations (`group_reg` and `conn_reg` of src/srtla/srtla_rec.c) keep the invariant.
use pyle_irl.Base.{
  ℕ, suc, ◌≤◌, ◌≡◌, refl, sym, ap, subst, ◌∙◌, ◌⊎◌, inl, inr, Bool, none, List, [], ◌∷◌, arith,
  length, drop, remove_at, modify, length-modify, All, All-remove_at, All-drop, All-modify,
  length-remove_at-le, At-one, Bool-cases, Option-cases,
}
use pyle_irl.Base.Int.{pos, leb_ℤ}
use pyle_irl.Receiver.Ack.Ledger.{HasLog}
use pyle_irl.Receiver.Groups.{
  group_find_by_id, Found, member, peer, nobody, conn_find, group_find_by_addr, fresh_group,
  group_create, group_destroy,
}
use pyle_irl.Receiver.Groups.Destroy.{groups-group_destroy, groups-clear_groups}
use pyle_irl.Receiver.Groups.Lookup.{
  HasId, FoundIn, group_find_by_id-HasId, group_find_by_addr-FoundIn,
}
use pyle_irl.Receiver.Invariant.{Distinct, IsGood, IsValid}
use pyle_irl.Receiver.Invariant.Conns.{Distinct-drop, Distinct-modify}
use pyle_irl.Receiver.Io.{Io}
use pyle_irl.Receiver.Out.{keep}
use pyle_irl.Receiver.Register.{
  reply, packet_id, announce_group, clear_groups, group_reg, new_conn, add_conn, confirm_conn,
  rejoin, join, join_group, conn_reg,
}
use pyle_irl.Receiver.Register.Count.{group_create-some, group_reg-made}
use pyle_irl.Receiver.State.{max_groups, Conn, Group, Ctx}
use pyle_irl.Wire.{Bytes, srtla_type_reg_err, srtla_type_reg_ngp}

-- The invariant speaks of the groups only.
pub IsValid-groups :
    (c : Ctx) (gs : List Group) → c.groups ≡ gs → length gs ≤ 1 → All IsGood gs → IsValid c
IsValid-groups c gs e l h = record { single = rw e l; good = rw e h }

pub group_destroy-IsValid : (i : ℕ) (c : Ctx) → IsValid c → IsValid (group_destroy i c)
group_destroy-IsValid i c v =
    IsValid-groups (group_destroy i c) (remove_at i c.groups) (groups-group_destroy i c)
      (omega (arith, length-remove_at-le i c.groups, v.single))
      (All-remove_at IsGood i c.groups v.good)

groups-announce_group :
    (io : Io) (addr : Bytes) (c : Ctx) (g : Group) (gs : List Group)
    → c.groups ≡ g ∷ gs
    → let d = (announce_group io addr c).0 in
      (d.groups ≡ gs) ⊎ (d.groups ≡ record g { last_addr = addr } ∷ gs)
unfolding announce_group group_destroy
groups-announce_group io addr c g gs e = elim (Bool-cases io.reg2_sent) [
  | inl sent ↦ inr (ground arith)
  | inr unsent ↦ inl (ground arith)
]

announce_group-IsValid :
    (io : Io) (addr : Bytes) (c : Ctx) (g : Group)
    → c.groups ≡ g ∷ []
    → IsGood g
    → IsValid (announce_group io addr c).0
announce_group-IsValid io addr c g e good = elim (groups-announce_group io addr c g [] e) [
  | inl gone ↦ IsValid-groups _ [] gone (omega arith) tt
  | inr new ↦
      IsValid-groups _ (record g { last_addr = addr } ∷ []) new (omega arith)
        (record { logs = good.logs; distinct = good.distinct }, tt)
]

pub reply-IsValid : (addr : Bytes) (type : ℕ) (c : Ctx) → IsValid c → IsValid (reply addr type c)
reply-IsValid addr type c v = IsValid-groups _ c.groups refl v.single v.good

-- `group_reg` keeps the invariant on every branch.
pub group_reg-IsValid :
    (io : Io) (addr in_buf : Bytes) (ts : ℕ) (c : Ctx)
    → IsValid c
    → IsValid (group_reg io addr in_buf ts c).0
unfolding group_reg
group_reg-IsValid io addr in_buf ts c v =
    let pid = packet_id in_buf in
    let cleared = clear_groups addr pid c in
    let empty = groups-clear_groups addr pid c in
    elim (Bool-cases (leb_ℤ (pos max_groups) c.group_count)) [
      | inl full ↦ rw (full, group_reg) (reply-IsValid addr srtla_type_reg_err c v)
      | inr room ↦ elim (Option-cases (group_create io.memory io.draws pid ts cleared)) [
        | inl unmade ↦ rw (room, group_reg) (rw unmade (IsValid-groups _ [] empty (omega arith) tt))
        | inr (c', made) ↦
            let (raw, id, e) = group_create-some io.memory io.draws pid ts cleared c' made in
            let g = fresh_group raw id ts cleared.group_seq in
            subst (λ (r : Ctx × Bool). IsValid r.0)
              (sym (group_reg-made io addr in_buf ts c c' room made))
              (announce_group-IsValid io addr c' g
                (ap (λ (d : Ctx). d.groups) e ∙ ap (λ gs. g ∷ gs) empty)
                (record { logs = tt; distinct = tt }))
      ]
    ]

IsGood-conns :
    (g : Group) (cs : List Conn) (addr : Bytes)
    → All HasLog cs
    → Distinct cs
    → IsGood (record g { conns = cs; last_addr = addr })
IsGood-conns g cs addr l d = record { logs = l; distinct = d }

groups-confirm_conn :
    (io : Io) (addr : Bytes) (gi ci : ℕ) (c : Ctx)
    → let d = (confirm_conn io addr gi ci c).0 in
      (d.groups ≡ modify gi (λ g. record g { last_addr = addr }) c.groups)
      ⊎ (d.groups ≡ modify gi (λ g. record g { conns = drop (suc ci) g.conns }) c.groups)
unfolding confirm_conn
groups-confirm_conn io addr gi ci c = elim (Bool-cases io.reg3_sent) [
  | inl sent ↦ inl (ground arith)
  | inr unsent ↦ inr (ground arith)
]

modify-IsValid :
    (c d : Ctx) (i : ℕ) (f : Group → Group)
    → d.groups ≡ modify i f c.groups
    → ((g : Group) → IsGood g → IsGood (f g))
    → IsValid c
    → IsValid d
modify-IsValid c d i f e keep v =
    IsValid-groups d (modify i f c.groups) e (omega (arith, length-modify i f c.groups, v.single))
      (All-modify IsGood i f c.groups keep v.good)

confirm_conn-IsValid :
    (io : Io) (addr : Bytes) (gi ci : ℕ) (c : Ctx)
    → IsValid c
    → IsValid (confirm_conn io addr gi ci c).0
confirm_conn-IsValid io addr gi ci c v = elim (groups-confirm_conn io addr gi ci c) [
  | inl e ↦ modify-IsValid c _ gi _ e (λ g h. record { logs = h.logs; distinct = h.distinct }) v
  | inr e ↦
      modify-IsValid c _ gi _ e
        (λ g h. record {
          logs = All-drop HasLog (suc ci) g.conns h.logs;
          distinct = Distinct-drop (suc ci) g.conns h.distinct;
        })
        v
]

touched-IsGood :
    (ts ci : ℕ) (g : Group)
    → IsGood g
    → IsGood (record g { conns = modify ci (λ k. record k { last_rcvd = ts }) g.conns })
touched-IsGood ts ci g h = record {
  logs =
      All-modify HasLog ci (λ k. record k { last_rcvd = ts }) g.conns
        (λ k p. record { room = p.room; whole = p.whole }) h.logs;
  distinct = Distinct-modify ci (λ k. record k { last_rcvd = ts }) g.conns (λ k. refl) h.distinct;
}

pub new_conn-HasLog : (addr : Bytes) (ts : ℕ) → HasLog (new_conn addr ts)
new_conn-HasLog addr ts = record { room = omega arith; whole = refl }

join-IsValid :
    (io : Io) (addr : Bytes) (ts : ℕ) (c : Ctx) (g : Group)
    → c.groups ≡ g ∷ []
    → conn_find addr g.conns ≡ none
    → IsValid c
    → IsValid (join io addr ts 0 c).0
unfolding join
join-IsValid io addr ts c g e absent v = elim (Bool-cases io.conn_memory) [
  | inr full ↦ rw (full, join) (reply-IsValid addr srtla_type_reg_err c v)
  | inl memory ↦
      let good : All IsGood (g ∷ []) = subst (All IsGood) e v.good in
      rw (memory, join)
        (confirm_conn-IsValid io addr 0 0 _ (
          IsValid-groups _ (add_conn (new_conn addr ts) g ∷ [])
            (ap (modify 0 (add_conn (new_conn addr ts))) e) (omega arith)
            (
              record {
                logs = (new_conn-HasLog addr ts, good.0.logs);
                distinct = (absent, good.0.distinct);
              },
              tt,
            )))
]

-- The two searches of `conn_reg` meet in the one group that there is.
join_group-IsValid :
    (io : Io) (addr : Bytes) (ts : ℕ) (c : Ctx) (g : Group) (f : Found)
    → c.groups ≡ g ∷ []
    → FoundIn addr c.groups f
    → IsValid c
    → IsValid (join_group io addr ts 0 f c).0
unfolding join_group
join_group-IsValid io addr ts c g (member ti ci) e found v =
    let (_, _, first, _) = At-one _ c.groups ti v.single found in
    subst (λ i. IsValid (rejoin io addr ts 0 i ci c).0) (sym first)
      (unfold rejoin in
        confirm_conn-IsValid io addr 0 ci _ (modify-IsValid c _ 0 _ refl (touched-IsGood ts ci) v))
join_group-IsValid io addr ts c g (peer ti) e found v =
    let (g', one, _, absent) = At-one _ c.groups ti v.single found in
    join-IsValid io addr ts c g' one absent.0 v
join_group-IsValid io addr ts c g nobody e found v =
    join-IsValid io addr ts c g e (subst (All _) e found).0.0 v

-- `conn_reg` keeps the invariant on every branch.
pub conn_reg-IsValid :
    (io : Io) (addr in_buf : Bytes) (ts : ℕ) (c : Ctx)
    → IsValid c
    → IsValid (conn_reg io addr in_buf ts c).0
unfolding conn_reg
conn_reg-IsValid io addr in_buf ts c v =
    elim (Option-cases (group_find_by_id (packet_id in_buf) c.groups)) [
      | inl unknown ↦ rw (unknown, conn_reg) (reply-IsValid addr srtla_type_reg_ngp c v)
      | inr (gi, known) ↦
          let at = group_find_by_id-HasId (packet_id in_buf) c.groups gi known in
          let (g, one, first, _) = At-one (HasId (packet_id in_buf)) c.groups gi v.single at in
          rw (known, conn_reg)
            (subst (λ i. IsValid (join_group io addr ts i (group_find_by_addr addr c.groups) c).0)
              (sym first)
              (join_group-IsValid io addr ts c g (group_find_by_addr addr c.groups) one
                (group_find_by_addr-FoundIn addr c.groups) v))
    ]
