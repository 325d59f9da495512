-- ===== src/Sender/Histories.antt =====
-- The logs of all links (src/srtla/srtla_send.c) as plain lists of packets, latest first.
use pyle_irl.Base.{
  ℕ, zero, suc, ◌≡◌, refl, ap, ap₂, subst, ◌∙◌, inl, inr, true, false, none, some, List, [], ◌∷◌,
  map, set, take, modify, length-set, All, ◌==◌, Bool-cases,
}
use pyle_irl.Sender.Acks.{ack_at, grow_window, ack_links, register_srtla_ack, register_srt_ack}
use pyle_irl.Sender.Log.{reg_pkt}
use pyle_irl.Sender.Log.Expired.{cleared_before, conn_register_srt_ack_lem}
use pyle_irl.Sender.Log.History.{reg_pkt-HasPktLog, reg_pkt-recent, Clears, find-Clears}
use pyle_irl.Sender.Log.Recent.{HasPktLog, recent, index_from}
use pyle_irl.Sender.Naks.{nak_at, register_nak}
use pyle_irl.Sender.State.{no_pkt, Link}

-- What happens to the logs: a packet goes out on the link at an index, one is acknowledged by the
-- receiver, one is reported lost, all before one are acknowledged by the SRT server.
pub data LogEvent : Type 0 where
  put_on : ℕ → ℕ → LogEvent
  ack_of : ℕ → LogEvent
  nak_of : ℕ → LogEvent
  ack_up_to : ℕ → LogEvent

unfoldable pub log_event : LogEvent → List Link → List Link
log_event (put_on i p) cs = modify i (reg_pkt p) cs
log_event (ack_of p) cs = register_srtla_ack p cs
log_event (nak_of p) cs = register_nak p cs
log_event (ack_up_to p) cs = register_srt_ack p cs

unfoldable pub log_events : List LogEvent → List Link → List Link
log_events [] cs = cs
log_events (e ∷ es) cs = log_events es (log_event e cs)

-- The packet is struck out where it was sent last, in the first list that has it.
unfoldable pub strike : ℕ → List (List ℕ) → List (List ℕ)
strike p [] = []
strike p (h ∷ hs) = elim (index_from 0 p h) [
  | none ↦ h ∷ strike p hs
  | some j ↦ set h j no_pkt ∷ hs
]

unfoldable pub note_event : LogEvent → List (List ℕ) → List (List ℕ)
note_event (put_on i p) hs = modify i (λ h. p ∷ take 254 h) hs
note_event (ack_of p) hs = strike p hs
note_event (nak_of p) hs = strike p hs
note_event (ack_up_to p) hs = map (map (cleared_before p)) hs

unfoldable pub note_events : List LogEvent → List (List ℕ) → List (List ℕ)
note_events [] hs = hs
note_events (e ∷ es) hs = note_events es (note_event e hs)

-- The links hold these lists, and their logs are well formed.
pub record Holds (hs : List (List ℕ)) (cs : List Link) : Type 0 where
  pub history : map recent cs ≡ hs
  pub logs : All HasPktLog cs

grow_window-log :
    (c : Link) → HasPktLog c → (recent (grow_window c) ≡ recent c) × HasPktLog (grow_window c)
unfolding recent
grow_window-log c v = elim (Bool-cases (c.last_rcvd == 0)) [
  | inl e ↦ rw e (refl, v)
  | inr e ↦ rw e (refl, record { room = v.room; whole = v.whole })
]

ack_links_found-Holds :
    (p : ℕ) (cs : List Link) → All HasPktLog cs → Holds (map recent cs) (ack_links p true cs)
unfolding ack_links
ack_links_found-Holds p [] v = record { history = refl; logs = tt }
ack_links_found-Holds p (c ∷ cs) v =
    let rest = ack_links_found-Holds p cs v.1 in
    record {
      history = ap₂ (λ h hs. h ∷ hs) (grow_window-log c v.0).0 rest.history;
      logs = ((grow_window-log c v.0).1, rest.logs);
    }

ack_at-log :
    (p : ℕ) (c : Link) (j i : ℕ)
    → HasPktLog c
    → Clears p c j i
    → (recent (ack_at i c) ≡ set (recent c) j no_pkt) × HasPktLog (ack_at i c)
unfolding recent
ack_at-log p c j i v x =
    (x.cleared, record { room = v.room; whole = length-set c.pkt_log i no_pkt ∙ v.whole })

nak_at-log :
    (p : ℕ) (c : Link) (j i : ℕ)
    → HasPktLog c
    → Clears p c j i
    → (recent (nak_at i c) ≡ set (recent c) j no_pkt) × HasPktLog (nak_at i c)
unfolding recent
nak_at-log p c j i v x =
    (x.cleared, record { room = v.room; whole = length-set c.pkt_log i no_pkt ∙ v.whole })

ack_links-Holds :
    (p : ℕ) (cs : List Link)
    → All HasPktLog cs
    → Holds (strike p (map recent cs)) (ack_links p false cs)
unfolding ack_links strike
ack_links-Holds p [] v = record { history = refl; logs = tt }
ack_links-Holds p (c ∷ cs) v = elim (find-Clears p c v.0) [
  | inl (e, f) ↦
      let rest = ack_links-Holds p cs v.1 in
      let head = grow_window-log c v.0 in
      rw (e, strike, f, ack_links)
        record { history = ap₂ (λ h hs. h ∷ hs) head.0 rest.history; logs = (head.1, rest.logs) }
  | inr (j, i, x) ↦
      let rest = ack_links_found-Holds p cs v.1 in
      let acked = ack_at-log p c j i v.0 x in
      let head = grow_window-log (ack_at i c) acked.1 in
      rw (x.at, strike, x.found, ack_links)
        record {
          history = ap₂ (λ h hs. h ∷ hs) (head.0 ∙ acked.0) rest.history;
          logs = (head.1, rest.logs);
        }
]

register_nak-Holds :
    (p : ℕ) (cs : List Link)
    → All HasPktLog cs
    → Holds (strike p (map recent cs)) (register_nak p cs)
unfolding register_nak strike
register_nak-Holds p [] v = record { history = refl; logs = tt }
register_nak-Holds p (c ∷ cs) v = elim (find-Clears p c v.0) [
  | inl (e, f) ↦
      let rest = register_nak-Holds p cs v.1 in
      rw (e, strike, f, register_nak)
        record { history = ap (λ hs. recent c ∷ hs) rest.history; logs = (v.0, rest.logs) }
  | inr (j, i, x) ↦
      let lost = nak_at-log p c j i v.0 x in
      rw (x.at, strike, x.found, register_nak)
        record { history = ap (λ h. h ∷ map recent cs) lost.0; logs = (lost.1, v.1) }
]

register_srt_ack-Holds :
    (p : ℕ) (cs : List Link)
    → All HasPktLog cs
    → Holds (map (map (cleared_before p)) (map recent cs)) (register_srt_ack p cs)
unfolding register_srt_ack
register_srt_ack-Holds p [] v = record { history = refl; logs = tt }
register_srt_ack-Holds p (c ∷ cs) v =
    let rest = register_srt_ack-Holds p cs v.1 in
    let (head, n, kept) = conn_register_srt_ack_lem p c v.0 in
    record { history = ap₂ (λ h hs. h ∷ hs) head rest.history; logs = (kept, rest.logs) }

reg_pkt-Holds :
    (i p : ℕ) (cs : List Link)
    → All HasPktLog cs
    → Holds (modify i (λ h. p ∷ take 254 h) (map recent cs)) (modify i (reg_pkt p) cs)
reg_pkt-Holds i p [] v = record { history = refl; logs = tt }
reg_pkt-Holds zero p (c ∷ cs) v = record {
  history = ap (λ h. h ∷ map recent cs) (reg_pkt-recent p c v.0);
  logs = (reg_pkt-HasPktLog p c v.0, v.1);
}
reg_pkt-Holds (suc i) p (c ∷ cs) v =
    let rest = reg_pkt-Holds i p cs v.1 in
    record { history = ap (λ hs. recent c ∷ hs) rest.history; logs = (v.0, rest.logs) }

log_event-Holds :
    (e : LogEvent) (cs : List Link)
    → All HasPktLog cs
    → Holds (note_event e (map recent cs)) (log_event e cs)
unfolding log_event note_event register_srtla_ack
log_event-Holds (put_on i p) cs v = reg_pkt-Holds i p cs v
log_event-Holds (ack_of p) cs v = ack_links-Holds p cs v
log_event-Holds (nak_of p) cs v = register_nak-Holds p cs v
log_event-Holds (ack_up_to p) cs v = register_srt_ack-Holds p cs v

-- Over any run of packets sent, acknowledged and reported lost, the circular logs of links whose logs
-- are well formed do what plain lists of the 255 latest packets do: a packet sent goes in front and
-- the last one drops out; one that is acknowledged by the receiver or reported lost is struck out at
-- its latest place in the first list that has it; the SRT server's acknowledgement strikes out all
-- packets before it. The logs stay well formed, so that they are never read or written out of bounds.
pub log_events-Holds :
    (es : List LogEvent) (cs : List Link)
    → All HasPktLog cs
    → Holds (note_events es (map recent cs)) (log_events es cs)
unfolding log_events note_events
log_events-Holds [] cs v = record { history = refl; logs = v }
log_events-Holds (e ∷ es) cs v =
    let x = log_event-Holds e cs v in
    subst (λ hs. Holds (note_events es hs) (log_events es (log_event e cs))) x.history
      (log_events-Holds es (log_event e cs) x.logs)
