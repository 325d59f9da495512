-- ===== src/Receiver/Backward/Acks.antt =====
-- The packets that come from the SRT server (src/srtla/srtla_rec.c).
use mathlib.Core.List.{reverse, reverse_aux, reverse_aux-eq}
use pyle_irl.Base.{
  ℕ, ◌+◌, ◌≤◌, ◌≡◌, refl, ◌∙◌, true, some, List, [], ◌∷◌, ◌++◌, map, append-nil, arith, length,
  get_elem?, set_same,
}
use pyle_irl.Base.Int.{ℤ, pos, negsuc, ◌-ℤ◌}
use pyle_irl.Receiver.Backward.{SrtRead, broadcast, srt_packet, srt_read, handle_srt_data}
use pyle_irl.Receiver.Groups.{counted}
use pyle_irl.Receiver.Out.{keep, commit}
use pyle_irl.Receiver.State.{Platform, windows, linux, macos, Conn, Group, Call, send_to, Ctx}
use pyle_irl.Wire.{Bytes, srt_min_len, is_srt_ack}

broadcast_lem :
    (buf : Bytes) (cs : List Conn) (calls : List Call)
    → broadcast buf cs calls ≡ reverse_aux (map (λ (k : Conn). send_to k.addr buf) cs) calls
unfolding broadcast
broadcast_lem buf [] calls = refl
broadcast_lem buf (c ∷ cs) calls = broadcast_lem buf cs (send_to c.addr buf ∷ calls)

sub_none : (n : ℤ) (plat : Platform) → n -ℤ pos (counted plat 0) ≡ n
unfolding ◌-ℤ◌
sub_none (pos n) windows = ground arith
sub_none (pos n) linux = ground arith
sub_none (pos n) macos = ground arith
sub_none (negsuc n) windows = ground arith
sub_none (negsuc n) linux = ground arith
sub_none (negsuc n) macos = ground arith

add_none : (n : ℕ) (plat : Platform) → n + counted plat 0 ≡ n
add_none n windows = omega arith
add_none n linux = omega arith
add_none n macos = omega arith

-- A group that is left as it was, with some calls made.
commit-keep :
    (gi : ℕ) (g : Group) (calls : List Call) (c : Ctx)
    → get_elem? c.groups gi ≡ some g
    → commit gi (keep g calls) c ≡ record c { calls = calls ++ c.calls }
unfolding commit
commit-keep gi g calls c at =
    rw
      (
        set_same c.groups gi g at,
        sub_none c.active_connections c.platform,
        add_none c.failed_connections c.platform,
        commit,
      )
      refl

-- The loop over the packets goes on after an SRT ACK, and the context then differs only in the calls
-- made: one copy of the packet went to each connection of the group, in the order of the list.
pub handle_srt_data-ack :
    (gi : ℕ) (r : SrtRead) (rs : List SrtRead) (buf : Bytes) (c : Ctx) (g : Group)
    → get_elem? c.groups gi ≡ some g
    → r.buf ≡ some buf
    → srt_min_len ≤ length buf
    → is_srt_ack buf ≡ true
    → handle_srt_data gi (r ∷ rs) c
      ≡ handle_srt_data gi rs
          (record c { calls = reverse (map (λ (k : Conn). send_to k.addr buf) g.conns) ++ c.calls })
unfolding handle_srt_data srt_read srt_packet
handle_srt_data-ack gi r rs buf c g at read long ack =
    let copies =
      broadcast_lem buf g.conns []
      ∙ reverse_aux-eq (map (λ (k : Conn). send_to k.addr buf) g.conns) []
      ∙ append-nil _ in
    let kept = commit-keep gi g (broadcast buf g.conns []) c at in ground (arith, copies, kept)
