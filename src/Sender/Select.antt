-- ===== src/Sender/Select.antt =====
-- The choice of a link, and the packets from the SRT caller (src/srtla/srtla_send.c).
pub mod Best
use pyle_irl.Base.{
  ℕ, suc, ◌+◌, ◌/◌, Bool, ◌&&◌, not, Option, none, some, List, [], ◌∷◌, ◌++◌, get_elem?, modify,
  ltb, if◌then◌else◌, is_none,
}
use pyle_irl.Sender.Log.{reg_pkt}
use pyle_irl.Sender.State.{Link, Sender, link_packet, link_timed_out}
use pyle_irl.Wire.{Bytes, get_srt_sn}

abbrev pub score : Link → ℕ
score c = c.window / (c.in_flight_pkts + 1)

-- One round of the second loop, for the link at index `i`: the best link so far with its score.
abbrev pub better : ℕ → Link → ℕ → Option (ℕ × ℕ) → Option (ℕ × ℕ)
better t c i none = if link_timed_out c t then none else some (i, score c)
better t c i (some (j, max_score)) =
    if link_timed_out c t
    then some (j, max_score)
    else if ltb max_score (score c)
    then some (i, score c)
    else some (j, max_score)

unfoldable pub select_loop : ℕ → List Link → ℕ → Option (ℕ × ℕ) → Option (ℕ × ℕ)
select_loop t [] i best = best
select_loop t (c ∷ cs) i best = select_loop t cs (suc i) (better t c i best)

-- The index of the link, and the links with its `last_sent` set.
unfoldable pub select_conn : ℕ → List Link → Option ℕ × List Link
unfolding select_loop
select_conn t cs = elim (select_loop t cs 0 none) [
  | none ↦ (none, cs)
  | some (i, best) ↦ (some i, modify i (λ c. record c { last_sent = t }) cs)
]

-- The packet went out on the link: a data packet is logged.
abbrev pub log_sent : Bytes → Link → Link
log_sent buf c = elim (get_srt_sn buf) [ none ↦ c | some sn ↦ reg_pkt sn c ]

-- `sent` says whether `sendto` succeeds, which it does not without a descriptor.
abbrev pub forward_on : Bool → Bytes → Link → Link
forward_on sent buf c =
    if sent && not (is_none c.fd) then log_sent buf c else record c { last_rcvd = 1 }

-- `handle_srt_data` of the sender, for a packet from the address `from`. A read that fails leaves
-- `n` at -1: `sendto` then fails as well and returns the same, so that nothing else happens.
unfoldable pub handle_srt_data : ℕ → Bool → Option Bytes → Bytes → Sender → Sender
unfolding select_conn
handle_srt_data t sent none from s = record s { links = (select_conn t s.links).1 }
handle_srt_data t sent (some buf) from s =
    let (chosen, cs) = select_conn t s.links in
    elim chosen [
      | none ↦ record s { srt_addr = from; links = cs }
      | some i ↦ record s {
        srt_addr = from;
        links = modify i (forward_on sent buf) cs;
        actions =
            (elim (get_elem? cs i) [ none ↦ [] | some c ↦ link_packet s.srtla_addr buf c ])
            ++ s.actions;
      }
    ]
