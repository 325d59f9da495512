-- ===== src/Sender/Tests.antt =====
-- Runs of the sender (src/srtla/srtla_send.c) at fixed inputs.
mod Handshakes
use mathlib.Core.Option
use mathlib.Core.Option.{none-ne-some, some-injective}
use pyle_irl.Base.{
  ℕ, zero, suc, ◌+◌, ◌*◌, ◌^◌, ◌≡◌, refl, sym, ap, subst, ◌∙◌, ◌⊎◌, inl, inr, Bool, true, false,
  Option, none, some, List, [], ◌∷◌, map, arith, replicate, modify, concat, All, ◌==◌,
  if◌then◌else◌, Bool-cases,
}
use pyle_irl.Receiver.Ack.{ack_packet}
use pyle_irl.Sender.Histories.{
  put_on, ack_of, nak_of, log_events, note_events, Holds, log_events-Holds,
}
use pyle_irl.Sender.Housekeeping.{exited, connection_housekeeping}
use pyle_irl.Sender.Housekeeping.Active.{live_links}
use pyle_irl.Sender.Housekeeping.Exits.{active_after, connection_housekeeping_lem}
use pyle_irl.Sender.Housekeeping.Walk.{idle, Regular, last_time, idle-exits}
use pyle_irl.Sender.Log.{reg_pkt, get_pkt_idx, find_pkt, find_in_log}
use pyle_irl.Sender.Log.Recent.{nth_last, HasPktLog, recent, index_from, find_pkt-recent}
use pyle_irl.Sender.MainLoop.{
  Incoming, Round, read_links, read_sockets, next_round, process_exit, sender_round,
}
use pyle_irl.Sender.Naks.{register_nak, register_naks, nak_loop, nak_pkts}
use pyle_irl.Sender.Naks.Report.{Loss, one_pkt, from_to, loss_words, losses}
use pyle_irl.Sender.Packets.{handle_srtla_data, register_acks, to_srt, on_srt_nak, on_type}
use pyle_irl.Sender.Packets.Reports.{
  heard_from, handle_srtla_data-losses, endless_report, ack_packet-register_acks,
}
use pyle_irl.Sender.Select.{handle_srt_data, select_loop, select_conn}
use pyle_irl.Sender.Select.Best.{IsBest, select_conn-IsBest}
use pyle_irl.Sender.Sockets.{not_made}
use pyle_irl.Sender.Sound.{IsLink}
use pyle_irl.Sender.Sound.Ends.{Harmless}
use pyle_irl.Sender.Sound.Packets.{IsSound}
use pyle_irl.Sender.Sound.Progress.{AllHarmless, sender_round-continues}
use pyle_irl.Sender.State.{
  registered_link, no_pkt, Link, new_link, to_receiver, to_caller, Sender, link_timed_out,
}
use pyle_irl.Wire.{Bytes, srt_type_nak, be32, get_srt_sn, get_srt_type}

abbrev wifi : Bytes
wifi = 192 ∷ 168 ∷ 1 ∷ 2 ∷ []

abbrev mobile : Bytes
mobile = 10 ∷ 0 ∷ 0 ∷ 2 ∷ []

abbrev far_end : Bytes
far_end = 203 ∷ 0 ∷ 113 ∷ 5 ∷ []

-- A link that has been heard of at second 100.
abbrev link_at : ℕ → Bytes → ℕ → Link
link_at node src fd = record (new_link node src) {
  fd = some fd;
  last_rcvd = 100;
  cstate = registered_link;
}

abbrev two_links : List Link
two_links = link_at 1 wifi 11 ∷ link_at 2 mobile 12 ∷ []

abbrev running : Sender
running = record {
  links = two_links;
  srtla_addr = far_end;
  srt_addr = wifi;
  addrs = far_end ∷ wifi ∷ [];
  active_fds = 11 ∷ 12 ∷ [];
  active_connections = 2;
  has_connected = true;
  pending_reg2_conn = none;
  pending_reg_timeout = 0;
  srtla_id = [];
  all_failed_at = 0;
  last_ran = 100000;
  actions = [];
}

new-HasPktLog : (node : ℕ) (src : Bytes) → HasPktLog (new_link node src)
new-HasPktLog node src = record { room = omega arith; whole = refl }

two-HasPktLog : All HasPktLog two_links
two-HasPktLog =
    (record { room = omega arith; whole = refl }, (record { room = omega arith; whole = refl }, tt))

link_at-IsLink : (node fd : ℕ) (src : Bytes) → IsLink (link_at node src fd)
link_at-IsLink node fd src = record {
  log = record { room = omega arith; whole = refl };
  open_window = omega arith;
  few_attempts = omega arith;
  short_delay = omega arith;
}

running-IsSound : IsSound running
running-IsSound = record {
  sound_links = (link_at-IsLink 1 11 wifi, (link_at-IsLink 2 12 mobile, tt));
  live = λ n e. absurd (none-ne-some n e);
}

-- The loss report of packet 7 and of 20 to 22.
abbrev some_losses : List Loss
some_losses = one_pkt 7 ∷ from_to 20 22 ∷ []

abbrev nak_packet : List ℕ → Bytes
nak_packet ws = concat (map be32 (srt_type_nak * 2 ^ 16 ∷ 0 ∷ 0 ∷ 0 ∷ ws))

find_pkt-recent_example :
    find_pkt 300 (get_pkt_idx 0) 0 (replicate 256 0) 7
    ≡ Option.map (λ k. nth_last k 0) (index_from 0 7 (recent (new_link 1 wifi)))
find_pkt-recent_example =
    find_pkt-recent 300 7 (new_link 1 wifi) (omega arith) (new-HasPktLog 1 wifi)

log_events-Holds_example :
    Holds
      (note_events (put_on 0 7 ∷ put_on 1 8 ∷ ack_of 7 ∷ nak_of 8 ∷ []) (map recent two_links))
      (log_events (put_on 0 7 ∷ put_on 1 8 ∷ ack_of 7 ∷ nak_of 8 ∷ []) two_links)
log_events-Holds_example =
    log_events-Holds (put_on 0 7 ∷ put_on 1 8 ∷ ack_of 7 ∷ nak_of 8 ∷ []) two_links two-HasPktLog

handle_srtla_data-losses_example :
    handle_srtla_data 101 true (nak_packet (loss_words some_losses)) [] 0 running
    ≡ some (
        to_srt (nak_packet (loss_words some_losses)) (record (heard_from 101 0 running) {
          links = register_naks (losses some_losses) (heard_from 101 0 running).links;
        }))
unfolding get_srt_type
handle_srtla_data-losses_example =
    handle_srtla_data-losses 101 true (nak_packet (loss_words some_losses)) [] 0 running
      (link_at 1 wifi 11) some_losses refl (omega arith) refl refl
      (omega arith, ((omega arith, omega arith), tt))

endless_report_example :
    ((tests : ℕ) → nak_loop tests 20 no_pkt ≡ none)
    × (handle_srtla_data 101 true (nak_packet (7 ∷ (20 + 2 ^ 31) ∷ no_pkt ∷ [])) [] 0 running
        ≡ none)
unfolding get_srt_type
endless_report_example =
    endless_report 101 true (nak_packet (7 ∷ (20 + 2 ^ 31) ∷ no_pkt ∷ [])) [] 0 running
      (link_at 1 wifi 11) (one_pkt 7 ∷ []) 20 [] refl (omega arith) refl refl (omega arith, tt)
      (omega arith)

ack_packet-register_acks_example :
    handle_srtla_data 101 true (ack_packet (map be32 (7 ∷ 8 ∷ 9 ∷ []))) [] 1 running
    ≡ some (record (heard_from 101 1 running) {
      links = register_acks (7 ∷ 8 ∷ 9 ∷ []) (heard_from 101 1 running).links;
    })
ack_packet-register_acks_example =
    ack_packet-register_acks 101 true (7 ∷ 8 ∷ 9 ∷ []) [] 1 running (link_at 2 mobile 12) refl
      (omega arith, (omega arith, (omega arith, tt)))

select_conn-IsBest_example :
    (All (λ (c : Link). link_timed_out c 101 ≡ true) two_links
      × (select_conn 101 two_links ≡ (none, two_links)))
    ⊎ ((k : ℕ) × (m : ℕ) × IsBest 101 k m two_links
        × (select_conn 101 two_links
            ≡ (some k, modify k (λ c. record c { last_sent = 101 }) two_links)))
select_conn-IsBest_example = select_conn-IsBest 101 two_links

connection_housekeeping_lem_example :
    active_after (connection_housekeeping 101000 101000 (λ i. not_made) running) ≡ some 2
unfolding live_links
connection_housekeeping_lem_example =
    connection_housekeeping_lem 101000 101000 (λ i. not_made) running (omega arith)

abbrev hopeful : Sender
hopeful = record running {
  links = new_link 1 wifi ∷ [];
  active_connections = 0;
  has_connected = false;
}

-- The times of `n` calls of housekeeping, 200 ms apart.
abbrev calls_after : ℕ → ℕ → List ℕ
calls_after zero t = []
calls_after (suc n) t = (t + 200) ∷ calls_after n (t + 200)

calls_after-Regular : (n t : ℕ) → Regular 200 t (calls_after n t)
calls_after-Regular zero t = tt
calls_after-Regular (suc n) t = (omega arith, omega arith, calls_after-Regular n (t + 200))

last_time-calls_after : (n t : ℕ) → last_time t (calls_after n t) ≡ t + n * 200
last_time-calls_after zero t = omega arith
last_time-calls_after (suc n) t = last_time-calls_after n (t + 200) ∙ omega arith

idle-exits_example : idle (λ ms i. not_made) (calls_after 200 100000) hopeful ≡ exited
idle-exits_example =
    idle-exits (λ ms i. not_made) 200 far_end (wifi ∷ []) 100000 (calls_after 200 100000) hopeful
      record {
        never = refl;
        unheard = λ t h. (ground arith, tt);
        left = refl;
        since = refl;
        ran = omega arith;
      }
      (calls_after-Regular 200 100000) (omega (arith, last_time-calls_after 200 100000))

abbrev incoming_if : Bool → Option Incoming
incoming_if t =
    if t
    then some record { ts = 100; sent = true; buf = nak_packet (5 ∷ []); behind = [] }
    else none

-- A round in which the caller sends packet 5, and the second link gets a loss report for it.
abbrev busy_round : Round
busy_round = record {
  update = none;
  ms = 100500;
  now = 100500;
  opens = λ i. not_made;
  from_caller =
      some record { t = 100; sent = true; buf = some (0 ∷ 0 ∷ 0 ∷ 5 ∷ []); caller = wifi };
  from_receiver = λ i. incoming_if (i == 1);
}

abbrev after_busy_round : Sender
after_busy_round = record running {
  links =
      record (link_at 1 wifi 11) {
        last_sent = 100;
        in_flight_pkts = 1;
        pkt_idx = 1;
        pkt_log = no_pkt ∷ replicate 255 0;
        window = 19900;
      }
      ∷ record (link_at 2 mobile 12) { last_rcvd = 100 }
      ∷ [];
  actions = to_caller wifi (nak_packet (5 ∷ [])) ∷ to_receiver 11 far_end (0 ∷ 0 ∷ 0 ∷ 5 ∷ []) ∷ [];
}

ran_busy_round : sender_round busy_round running ≡ next_round after_busy_round
unfolding sender_round connection_housekeeping read_sockets read_links handle_srt_data select_conn
    select_loop reg_pkt get_srt_sn handle_srtla_data on_type on_srt_nak nak_pkts register_naks
    register_nak find_in_log find_pkt get_pkt_idx get_srt_type
ran_busy_round = refl

loss_of_five-Harmless : Harmless (nak_packet (5 ∷ [])) []
loss_of_five-Harmless = record { in_report = λ e. ((refl, tt), refl) }

busy_round-AllHarmless : AllHarmless busy_round.from_receiver
busy_round-AllHarmless i m e = elim (Bool-cases (i == 1)) [
  | inl hit ↦
      subst (λ (p : Incoming). Harmless p.buf p.behind)
        (some-injective _ _ (sym (ap (λ (t : Bool). incoming_if t) hit) ∙ e)) loss_of_five-Harmless
  | inr other ↦ absurd (none-ne-some m (sym (ap (λ (t : Bool). incoming_if t) other) ∙ e))
]

sender_round-continues_example :
    (sender_round busy_round running ≡ process_exit)
    ⊎ ((s' : Sender) × (sender_round busy_round running ≡ next_round s') × IsSound s')
sender_round-continues_example =
    sender_round-continues busy_round running running-IsSound busy_round-AllHarmless
