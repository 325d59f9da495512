-- ===== src/Receiver/Register/Count.antt =====
-- `group_count` (src/srtla/srtla_rec.c) beside the number of groups in the list.
use pyle_irl.Base.{
  ℕ, zero, suc, ◌≡◌, sym, ap, subst, ◌∙◌, inl, inr, Bool, true, false, Option, none, some, List, [],
  ◌∷◌, ◌++◌, arith, length, get_elem?, take, length-remove_at, List-cases, Bool-cases, Option-cases,
}
use pyle_irl.Base.Int.{pos, negsuc, ◌+ℤ◌, ◌-ℤ◌, leb_ℤ}
use pyle_irl.Receiver.Groups.{
  Found, member, peer, nobody, draw_id, fresh_group, init_group, group_create, group_destroy,
}
use pyle_irl.Receiver.Groups.Destroy.{groups-clear_groups}
use pyle_irl.Receiver.Io.{Io}
use pyle_irl.Receiver.Register.{
  shutdown_call, shutdown_first, shutdown_groups, destroy_found, destroy_with_id, packet_id,
  announce_group, clear_groups, group_reg,
}
use pyle_irl.Receiver.State.{max_groups, Group, Ctx}
use pyle_irl.Wire.{Bytes}

abbrev pub IsCounted : Ctx → Type 0
IsCounted c = c.group_count ≡ pos (length c.groups)

pub group_destroy-IsCounted : (i : ℕ) (c : Ctx) → IsCounted c → IsCounted (group_destroy i c)
unfolding group_destroy ◌-ℤ◌
group_destroy-IsCounted i c v = elim (Option-cases (get_elem? c.groups i)) [
  | inl e ↦ rw (e, group_destroy) v
  | inr (g, e) ↦ rw (e, group_destroy) (ground (arith, length-remove_at i c.groups e))
]

shutdown_first-IsCounted : (c : Ctx) → IsCounted c → IsCounted (shutdown_first c)
unfolding shutdown_first
shutdown_first-IsCounted c v = elim (List-cases c.groups) [
  | inl e ↦ rw (e, shutdown_first) (ground arith)
  | inr (g, gs, e) ↦
      rw (e, shutdown_first)
        (group_destroy-IsCounted 0 (record c { calls = shutdown_call g.srt_sock ++ c.calls }) v)
]

shutdown_groups-IsCounted : (n : ℕ) (c : Ctx) → IsCounted c → IsCounted (shutdown_groups n c)
unfolding shutdown_groups
shutdown_groups-IsCounted zero c v = v
shutdown_groups-IsCounted (suc n) c v =
    shutdown_groups-IsCounted n (shutdown_first c) (shutdown_first-IsCounted c v)

destroy_found-IsCounted : (f : Found) (c : Ctx) → IsCounted c → IsCounted (destroy_found f c)
unfolding destroy_found
destroy_found-IsCounted (member gi ci) c v = group_destroy-IsCounted gi c v
destroy_found-IsCounted (peer gi) c v = group_destroy-IsCounted gi c v
destroy_found-IsCounted nobody c v = v

destroy_with_id-IsCounted : (o : Option ℕ) (c : Ctx) → IsCounted c → IsCounted (destroy_with_id o c)
unfolding destroy_with_id
destroy_with_id-IsCounted (some gi) c v = group_destroy-IsCounted gi c v
destroy_with_id-IsCounted none c v = v

clear_groups-IsCounted :
    (addr id : Bytes) (c : Ctx) → IsCounted c → IsCounted (clear_groups addr id c)
unfolding clear_groups
clear_groups-IsCounted addr id c v =
    shutdown_groups-IsCounted _ _ (destroy_with_id-IsCounted _ _ (destroy_found-IsCounted _ c v))

clear_groups-count :
    (addr id : Bytes) (c : Ctx) → IsCounted c → (clear_groups addr id c).group_count ≡ pos 0
clear_groups-count addr id c v =
    clear_groups-IsCounted addr id c v
    ∙ ap (λ (gs : List Group). pos (length gs)) (groups-clear_groups addr id c)

-- The new group from `announce_group`, where the list holds that group alone and is not counted yet.
announce_group-sent :
    (io : Io) (addr : Bytes) (c : Ctx) (g : Group)
    → c.groups ≡ g ∷ []
    → c.group_count ≡ pos 0
    → io.reg2_sent ≡ true
    → IsCounted (announce_group io addr c).0
unfolding announce_group ◌+ℤ◌
announce_group-sent io addr c g e n sent = ground arith

pub group_create-some :
    (memory : Option Group) (draws : List Bytes) (pid : Bytes) (ts : ℕ) (c c' : Ctx)
    → group_create memory draws pid ts c ≡ some c'
    → (raw : Group) × (id : Bytes) × (c' ≡ init_group raw id ts c)
unfolding group_create
group_create-some memory draws pid ts c c' h =
    elim (Option-cases (draw_id (take 128 pid) draws c.groups)) [
      | inl no_id ↦ absurd (ground arith)
      | inr (id, drawn) ↦ elim (Option-cases memory) [
        | inl full ↦ absurd (ground arith)
        | inr (raw, got) ↦ (raw, id, ground arith)
      ]
    ]

announce_group-unsent :
    (io : Io) (addr : Bytes) (c : Ctx) (g : Group)
    → c.groups ≡ g ∷ []
    → c.group_count ≡ pos 0
    → io.reg2_sent ≡ false
    → let (d, ok) = announce_group io addr c in
      (ok ≡ false) × (d.groups ≡ []) × (d.group_count ≡ negsuc 0)
unfolding announce_group group_destroy ◌-ℤ◌
announce_group-unsent io addr c g e n unsent = ground arith

-- Past the two ways to fail before the group is made.
pub group_reg-made :
    (io : Io) (addr in_buf : Bytes) (ts : ℕ) (c c' : Ctx)
    → leb_ℤ (pos max_groups) c.group_count ≡ false
    → group_create io.memory io.draws (packet_id in_buf) ts (clear_groups addr (packet_id in_buf) c)
      ≡ some c'
    → group_reg io addr in_buf ts c ≡ announce_group io addr c'
unfolding group_reg
group_reg-made io addr in_buf ts c c' room made = rw (room, group_reg) (rw made)

-- The new group is alone in the list, and not counted.
made_alone :
    (io : Io) (addr pid : Bytes) (ts : ℕ) (c c' : Ctx)
    → IsCounted c
    → group_create io.memory io.draws pid ts (clear_groups addr pid c) ≡ some c'
    → (g : Group) × (c'.groups ≡ g ∷ []) × (c'.group_count ≡ pos 0)
made_alone io addr pid ts c c' v made =
    let cleared = clear_groups addr pid c in
    let (raw, id, e) = group_create-some io.memory io.draws pid ts cleared c' made in
    let g = fresh_group raw id ts cleared.group_seq in
    (
      g,
      ap (λ (d : Ctx). d.groups) e ∙ ap (λ gs. g ∷ gs) (groups-clear_groups addr pid c),
      ap (λ (d : Ctx). d.group_count) e ∙ clear_groups-count addr pid c v,
    )

-- Where REG2 goes out, if it is sent at all, `group_reg` keeps a count that is equal to the number
-- of groups equal to it.
pub group_reg-IsCounted :
    (io : Io) (addr in_buf : Bytes) (ts : ℕ) (c : Ctx)
    → io.reg2_sent ≡ true
    → IsCounted c
    → IsCounted (group_reg io addr in_buf ts c).0
unfolding group_reg
group_reg-IsCounted io addr in_buf ts c sent v =
    let pid = packet_id in_buf in
    let cleared = clear_groups addr pid c in
    elim (Bool-cases (leb_ℤ (pos max_groups) c.group_count)) [
      | inl full ↦ rw (full, group_reg) v
      | inr room ↦ elim (Option-cases (group_create io.memory io.draws pid ts cleared)) [
        | inl unmade ↦ rw (room, group_reg) (rw unmade (clear_groups-IsCounted addr pid c v))
        | inr (c', made) ↦
            let (g, one, n) = made_alone io addr pid ts c c' v made in
            subst (λ (r : Ctx × Bool). IsCounted r.0)
              (sym (group_reg-made io addr in_buf ts c c' room made))
              (announce_group-sent io addr c' g one n sent)
      ]
    ]

-- When the count is below MAX_GROUPS and the group is made but REG2 does not go out, `group_reg`
-- returns -1 and destroys the group that it had not counted yet: where the count was right before,
-- no group is left and the count is -1.
pub group_reg_drifts :
    (io : Io) (addr in_buf : Bytes) (ts : ℕ) (c c' : Ctx)
    → IsCounted c
    → leb_ℤ (pos max_groups) c.group_count ≡ false
    → group_create io.memory io.draws (packet_id in_buf) ts (clear_groups addr (packet_id in_buf) c)
      ≡ some c'
    → io.reg2_sent ≡ false
    → let (d, ok) = group_reg io addr in_buf ts c in
      (ok ≡ false) × (d.groups ≡ []) × (d.group_count ≡ negsuc 0)
group_reg_drifts io addr in_buf ts c c' v room made unsent =
    let (g, one, n) = made_alone io addr (packet_id in_buf) ts c c' v made in
    subst (λ (r : Ctx × Bool). (r.1 ≡ false) × (r.0.groups ≡ []) × (r.0.group_count ≡ negsuc 0))
      (sym (group_reg-made io addr in_buf ts c c' room made))
      (announce_group-unsent io addr c' g one n unsent)
