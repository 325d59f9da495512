-- ===== src/Sender/Sound.antt =====
-- The invariant of the links of the sender (src/srtla/srtla_send.c), and the changes of one link that
-- keep it.
pub mod Ends
pub mod Progress
pub mod Rounds
pub mod Housekeeping
pub mod Conns
pub mod Packets
pub mod Links
use pyle_irl.Base.{
  ℕ, ◌≤◌, ◌≡◌, refl, inl, inr, Bool, ◌&&◌, not, Option, none, some, arith, length-set, length-map,
  ltb, Bool-cases, is_none,
}
use pyle_irl.Receiver.State.{reg_retry_max_ms}
use pyle_irl.Sender.Acks.{grow_window, ack_found, conn_register_srt_ack}
use pyle_irl.Sender.Housekeeping.{reg_retry_max_attempts, fail_link, Upkeep, retry_registration}
use pyle_irl.Sender.Log.{reg_pkt}
use pyle_irl.Sender.Log.Expired.{conn_register_srt_ack_lem}
use pyle_irl.Sender.Log.History.{reg_pkt-HasPktLog}
use pyle_irl.Sender.Log.Recent.{HasPktLog}
use pyle_irl.Sender.Naks.{nak_at}
use pyle_irl.Sender.Select.{log_sent, forward_on}
use pyle_irl.Sender.State.{window_min, no_pkt, Link}
use pyle_irl.Wire.{Bytes, get_srt_sn}

-- The log is whole; the window, the retries and their delay are within the limits of the code.
pub record IsLink (c : Link) : Type 0 where
  pub log : HasPktLog c
  pub open_window : window_min ≤ c.window
  pub few_attempts : c.reg_attempts ≤ reg_retry_max_attempts
  pub short_delay : c.backoff_ms ≤ reg_retry_max_ms

-- What a change of a link keeps.
pub record Keeps (c c' : Link) : Type 0 where
  pub sound : IsLink c'
  pub same_node : c'.node ≡ c.node

pub reg_pkt-Keeps : (p : ℕ) (c : Link) → IsLink c → Keeps c (reg_pkt p c)
unfolding reg_pkt
reg_pkt-Keeps p c v = record {
  sound = record {
    log = reg_pkt-HasPktLog p c v.log;
    open_window = v.open_window;
    few_attempts = v.few_attempts;
    short_delay = v.short_delay;
  };
  same_node = refl;
}

-- A change that leaves the log and the limits alone.
pub same-Keeps :
    (c c' : Link)
    → c'.pkt_idx ≡ c.pkt_idx
    → c'.pkt_log ≡ c.pkt_log
    → c'.window ≡ c.window
    → c'.reg_attempts ≡ c.reg_attempts
    → c'.backoff_ms ≡ c.backoff_ms
    → c'.node ≡ c.node
    → IsLink c
    → Keeps c c'
same-Keeps c c' i l w a b n v = ground (arith, v.log.room, v.log.whole)

pub grow_window-Keeps : (c : Link) → IsLink c → Keeps c (grow_window c)
grow_window-Keeps c v = ground (arith, v.log.room, v.log.whole)

pub ack_found-Keeps : (found : Option ℕ) (c : Link) → IsLink c → Keeps c (ack_found found c)
ack_found-Keeps none c v = record { sound = v; same_node = refl }
ack_found-Keeps (some i) c v =
    ground (arith, v.log.room, v.log.whole, length-set c.pkt_log i no_pkt)

pub nak_at-Keeps : (i : ℕ) (c : Link) → IsLink c → Keeps c (nak_at i c)
nak_at-Keeps i c v = ground (arith, v.log.room, v.log.whole, length-set c.pkt_log i no_pkt)

pub conn_register_srt_ack-Keeps :
    (p : ℕ) (c : Link) → IsLink c → Keeps c (conn_register_srt_ack p c)
unfolding conn_register_srt_ack
conn_register_srt_ack-Keeps p c v = record {
  sound = record {
    log = (conn_register_srt_ack_lem p c v.log).2;
    open_window = v.open_window;
    few_attempts = v.few_attempts;
    short_delay = v.short_delay;
  };
  same_node = refl;
}

log_found-Keeps :
    (sn : Option ℕ) (c : Link) → IsLink c → Keeps c (elim sn [ none ↦ c | some p ↦ reg_pkt p c ])
log_found-Keeps none c v = record { sound = v; same_node = refl }
log_found-Keeps (some p) c v = reg_pkt-Keeps p c v

pub log_sent-Keeps : (buf : Bytes) (c : Link) → IsLink c → Keeps c (log_sent buf c)
log_sent-Keeps buf c v = log_found-Keeps (get_srt_sn buf) c v

pub forward_on-Keeps :
    (sent : Bool) (buf : Bytes) (c : Link) → IsLink c → Keeps c (forward_on sent buf c)
forward_on-Keeps sent buf c v = elim (Bool-cases (sent && not (is_none c.fd))) [
  | inl e ↦ rw e (log_sent-Keeps buf c v)
  | inr e ↦ rw e (same-Keeps c _ refl refl refl refl refl refl v)
]

pub fail_link-Keeps : (now : ℕ) (c : Link) → IsLink c → Keeps c (fail_link now c)
fail_link-Keeps now c v = elim (Bool-cases (ltb 0 c.last_rcvd)) [
  | inl e ↦ rw e (ground (arith, v.log.room, v.log.whole, length-map (λ (p : ℕ). no_pkt) c.pkt_log))
  | inr e ↦ rw e record { sound = v; same_node = refl }
]

pub retry_registration-Keeps :
    (u : Upkeep) (c : Link) → IsLink c → Keeps c (retry_registration u c).0
unfolding retry_registration
retry_registration-Keeps u c v = ground (arith, v.log.room, v.log.whole)
