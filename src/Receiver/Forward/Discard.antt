-- ===== src/Receiver/Forward/Discard.antt =====
-- Packets of senders that are no connection of a group (src/srtla/srtla_rec.c).
use mathlib.Core.Option.{none-ne-some}
use pyle_irl.Base.{ℕ, zero, suc, ◌≡◌, refl, sym, ◌∙◌, false, none, List, [], ◌∷◌, All}
use pyle_irl.Receiver.Forward.{from_found, srtla_packet}
use pyle_irl.Receiver.Groups.{Found, member, peer, nobody, conn_find, group_find_by_addr}
use pyle_irl.Receiver.Groups.Lookup.{FoundIn, group_find_by_addr-FoundIn}
use pyle_irl.Receiver.Io.{Io}
use pyle_irl.Receiver.State.{Group, Ctx}
use pyle_irl.Wire.{Bytes, is_srtla_reg1, is_srtla_reg2}

-- No group has a connection at the address.
abbrev pub IsStranger : Bytes → List Group → Type 0
IsStranger addr = All (λ (g : Group). conn_find addr g.conns ≡ none)

stranger-not_member :
    (addr : Bytes) (gs : List Group) (gi ci : ℕ)
    → IsStranger addr gs
    → FoundIn addr gs (member gi ci)
    → ⊥
stranger-not_member addr [] gi ci h at = at
stranger-not_member addr (g ∷ gs) zero ci h at = none-ne-some ci (sym h.0 ∙ at)
stranger-not_member addr (g ∷ gs) (suc gi) ci h at = stranger-not_member addr gs gi ci h.1 at

from_found-discards :
    (io : Io) (ts : ℕ) (addr buf : Bytes) (f : Found) (c : Ctx)
    → IsStranger addr c.groups
    → FoundIn addr c.groups f
    → from_found io ts addr buf f c ≡ c
unfolding from_found
from_found-discards io ts addr buf (member gi ci) c h found =
    absurd (stranger-not_member addr c.groups gi ci h found)
from_found-discards io ts addr buf (peer gi) c h found = refl
from_found-discards io ts addr buf nobody c h found = refl

-- A packet that registers nothing, from an address that is no connection of any group, changes
-- nothing and causes no call: not even where the address is the last peer of a group.
pub srtla_packet_discards :
    (io : Io) (ts : ℕ) (addr buf : Bytes) (c : Ctx)
    → is_srtla_reg1 buf ≡ false
    → is_srtla_reg2 buf ≡ false
    → IsStranger addr c.groups
    → srtla_packet io ts addr buf c ≡ c
unfolding srtla_packet
srtla_packet_discards io ts addr buf c not_reg1 not_reg2 h =
    rw (not_reg1, srtla_packet)
      (rw not_reg2 (
        from_found-discards io ts addr buf (group_find_by_addr addr c.groups) c h
          (group_find_by_addr-FoundIn addr c.groups)))
