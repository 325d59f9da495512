-- ===== src/Receiver/Groups/Lookup.antt =====
-- What the searches of src/srtla/srtla_rec.c find.
use pyle_irl.Base.{
  ℕ, zero, suc, ◌≡◌, inl, inr, true, false, none, some, List, [], ◌∷◌, arith, All, At, Bool-cases,
  Option-cases,
}
use pyle_irl.Receiver.Compare.{same}
use pyle_irl.Receiver.Groups.{
  group_find_by_id, Found, member, peer, nobody, conn_find, next_group, group_find_by_addr,
}
use pyle_irl.Receiver.State.{addr_len, Conn, Group}
use pyle_irl.Wire.{Bytes, srtla_id_len}

-- The test by which the code takes a connection for the one at an address.
abbrev pub HasAddr : Bytes → Conn → Type 0
HasAddr addr k = same k.addr addr addr_len ≡ true

abbrev pub HasId : Bytes → Group → Type 0
HasId id g = same g.id id srtla_id_len ≡ true

-- What it means that `group_find_by_addr` found this in the list.
abbrev pub FoundIn : Bytes → List Group → Found → Type 0
FoundIn addr gs (member gi ci) = At (λ g. conn_find addr g.conns ≡ some ci) gs gi
FoundIn addr gs (peer gi) =
    At (λ g. (conn_find addr g.conns ≡ none) × (same g.last_addr addr addr_len ≡ true)) gs gi
FoundIn addr gs nobody =
    All (λ g. (conn_find addr g.conns ≡ none) × (same g.last_addr addr addr_len ≡ false)) gs

pub conn_find-HasAddr :
    (addr : Bytes) (cs : List Conn) (i : ℕ) → conn_find addr cs ≡ some i → At (HasAddr addr) cs i
unfolding conn_find
conn_find-HasAddr addr [] i e = absurd (ground arith)
conn_find-HasAddr addr (c ∷ cs) zero e = ground arith
conn_find-HasAddr addr (c ∷ cs) (suc i) e = conn_find-HasAddr addr cs i (ground arith)

pub group_find_by_id-HasId :
    (id : Bytes) (gs : List Group) (i : ℕ) → group_find_by_id id gs ≡ some i → At (HasId id) gs i
unfolding group_find_by_id
group_find_by_id-HasId id [] i e = absurd (ground arith)
group_find_by_id-HasId id (g ∷ gs) zero e = ground arith
group_find_by_id-HasId id (g ∷ gs) (suc i) e = group_find_by_id-HasId id gs i (ground arith)

FoundIn-next :
    (addr : Bytes) (g : Group) (gs : List Group) (f : Found)
    → conn_find addr g.conns ≡ none
    → same g.last_addr addr addr_len ≡ false
    → FoundIn addr gs f
    → FoundIn addr (g ∷ gs) (next_group f)
FoundIn-next addr g gs (member gi ci) p q h = h
FoundIn-next addr g gs (peer gi) p q h = h
FoundIn-next addr g gs nobody p q h = ((p, q), h)

-- `group_find_by_addr` returns 1 with a connection of that address, 0 with a group whose last peer
-- has it and none of whose connections has, and -1 only if no connection and no last peer has it.
pub group_find_by_addr-FoundIn :
    (addr : Bytes) (gs : List Group) → FoundIn addr gs (group_find_by_addr addr gs)
unfolding group_find_by_addr
group_find_by_addr-FoundIn addr [] = tt
group_find_by_addr-FoundIn addr (g ∷ gs) = elim (Option-cases (conn_find addr g.conns)) [
  | inr (ci, e) ↦ rw (e, group_find_by_addr) e
  | inl e ↦ elim (Bool-cases (same g.last_addr addr addr_len)) [
    | inl hit ↦ rw (e, group_find_by_addr) (rw hit (e, hit))
    | inr miss ↦
        rw (e, group_find_by_addr)
          (rw miss (FoundIn-next addr g gs _ e miss (group_find_by_addr-FoundIn addr gs)))
  ]
]
