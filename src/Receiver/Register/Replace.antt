-- ===== src/Receiver/Register/Replace.antt =====
-- `group_reg` (src/srtla/srtla_rec.c): a registration replaces whatever was there.
use pyle_irl.Base.{
  ℕ, zero, suc, ◌≡◌, refl, ◌∙◌, inl, inr, true, false, Option, none, some, List, [], ◌∷◌, ◌++◌,
  arith, take, List-cases,
}
use pyle_irl.Base.Int.{pos, leb_ℤ}
use pyle_irl.Receiver.Groups.{
  group_find_by_id, Found, member, peer, nobody, fresh_group, init_group, group_create,
  group_destroy,
}
use pyle_irl.Receiver.Groups.Destroy.{groups-clear_groups}
use pyle_irl.Receiver.Io.{Io}
use pyle_irl.Receiver.Register.{
  shutdown_first, shutdown_groups, destroy_found, destroy_with_id, packet_id, reg2_packet,
  clear_groups, group_reg,
}
use pyle_irl.Receiver.State.{max_groups, Group, send_to, Ctx, add64}
use pyle_irl.Wire.{Bytes}

-- The group that a registration makes: its id is the first half of the sender's, then random bytes.
abbrev pub registered : Group → Bytes → Bytes → Bytes → ℕ → ℕ → Group
registered raw addr pid r ts seq = record (fresh_group raw (take 128 pid ++ r) ts seq) {
  last_addr = addr;
}

group_create-fresh :
    (raw : Group) (r : Bytes) (rs : List Bytes) (pid : Bytes) (ts : ℕ) (c : Ctx)
    → c.groups ≡ []
    → group_create (some raw) (r ∷ rs) pid ts c ≡ some (init_group raw (take 128 pid ++ r) ts c)
unfolding group_create group_find_by_id
group_create-fresh raw r rs pid ts c e = rw (e, group_create) (ground arith)

seq-group_destroy : (i : ℕ) (c : Ctx) → (group_destroy i c).group_seq ≡ c.group_seq
unfolding group_destroy
seq-group_destroy i c = ground arith

seq-shutdown_first : (c : Ctx) → (shutdown_first c).group_seq ≡ c.group_seq
unfolding shutdown_first
seq-shutdown_first c = elim (List-cases c.groups) [
  | inl e ↦ rw (e, shutdown_first)
  | inr (g, gs, e) ↦ rw (e, shutdown_first) (seq-group_destroy 0 _)
]

seq-shutdown_groups : (n : ℕ) (c : Ctx) → (shutdown_groups n c).group_seq ≡ c.group_seq
unfolding shutdown_groups
seq-shutdown_groups zero c = refl
seq-shutdown_groups (suc n) c = seq-shutdown_groups n (shutdown_first c) ∙ seq-shutdown_first c

seq-destroy_found : (f : Found) (c : Ctx) → (destroy_found f c).group_seq ≡ c.group_seq
unfolding destroy_found
seq-destroy_found (member gi ci) c = seq-group_destroy gi c
seq-destroy_found (peer gi) c = seq-group_destroy gi c
seq-destroy_found nobody c = refl

seq-destroy_with_id : (o : Option ℕ) (c : Ctx) → (destroy_with_id o c).group_seq ≡ c.group_seq
unfolding destroy_with_id
seq-destroy_with_id (some gi) c = seq-group_destroy gi c
seq-destroy_with_id none c = refl

pub seq-clear_groups :
    (addr id : Bytes) (c : Ctx) → (clear_groups addr id c).group_seq ≡ c.group_seq
unfolding clear_groups
seq-clear_groups addr id c =
    seq-shutdown_groups _ _ ∙ seq-destroy_with_id _ _ ∙ seq-destroy_found _ _

-- With a count below MAX_GROUPS, memory for the group, at least one block of random bytes and a REG2
-- that goes out, `group_reg` returns 0. The new group is then the only one, whatever was registered
-- before: it has the id that REG2 carries to the sender, the sender's address, the next number, no
-- connection and no socket. `bytes_received` is left as the allocated memory had it.
pub group_reg_replaces :
    (io : Io) (addr in_buf : Bytes) (ts : ℕ) (c : Ctx) (raw : Group) (r : Bytes) (rs : List Bytes)
    → leb_ℤ (pos max_groups) c.group_count ≡ false
    → io.memory ≡ some raw
    → io.draws ≡ r ∷ rs
    → io.reg2_sent ≡ true
    → let (c', ok) = group_reg io addr in_buf ts c in
      (ok ≡ true)
      × (c'.groups ≡ registered raw addr (packet_id in_buf) r ts c.group_seq ∷ [])
      × (c'.calls
          ≡ send_to addr (reg2_packet (take 128 (packet_id in_buf) ++ r))
            ∷ (clear_groups addr (packet_id in_buf) c).calls)
      × (c'.group_seq ≡ add64 c.group_seq 1)
unfolding group_reg
group_reg_replaces io addr in_buf ts c raw r rs room memory draws sent =
    let cleared = clear_groups addr (packet_id in_buf) c in
    let empty = groups-clear_groups addr (packet_id in_buf) c in
    let made = group_create-fresh raw r rs (packet_id in_buf) ts cleared empty in
    let seq = seq-clear_groups addr (packet_id in_buf) c in ground (arith, made, empty, seq)
