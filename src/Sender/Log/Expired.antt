-- ===== src/Sender/Log/Expired.antt =====
-- What `conn_register_srt_ack` (src/srtla/srtla_send.c) does to the latest entries of a link's log.
use pyle_irl.Base.{
  ℕ, zero, suc, ◌+◌, ◌<◌, ◌≡◌, refl, sym, subst, ◌∙◌, inl, inr, true, false, List, [], ◌∷◌, map,
  arith, length, set, length-set, if◌then◌else◌, Bool-cases,
}
use pyle_irl.Sender.Acks.{conn_register_srt_ack}
use pyle_irl.Sender.Log.{entry, get_pkt_idx, int_lt, expire}
use pyle_irl.Sender.Log.History.{entry-set, entries-set_other}
use pyle_irl.Sender.Log.Recent.{
  nth_last, HasPktLog, entries, recent, next-nth_last, nth_last-ne, nth_last-eq, first-nth_last,
}
use pyle_irl.Sender.State.{pkt_log_sz, no_pkt, Link}

-- A packet before the acknowledged one is cleared.
abbrev pub cleared_before : ℕ → ℕ → ℕ
cleared_before ack q = if int_lt q ack then no_pkt else q

-- How many packets are not before the acknowledged one.
unfoldable pub count_kept : ℕ → List ℕ → ℕ
count_kept ack [] = 0
count_kept ack (q ∷ qs) = let rest = count_kept ack qs in if int_lt q ack then rest else suc rest

-- The loop from the entry `k` on leaves the later entries alone.
record Expires (n k i ack : ℕ) (log : List ℕ) (count : ℕ) (r : List ℕ × ℕ) : Type 0 where
  size : length r.0 ≡ length log
  before : (j : ℕ) → j < k → entry r.0 (nth_last j i) ≡ entry log (nth_last j i)
  from : entries n k i r.0 ≡ map (cleared_before ack) (entries n k i log)
  amount : r.1 ≡ count + count_kept ack (entries n k i log)

expire_old :
    (n k i ack : ℕ) (log : List ℕ) (count : ℕ) (r : List ℕ × ℕ)
    → n + k ≡ 254
    → length log ≡ 256
    → i < 256
    → int_lt (entry log (nth_last k i)) ack ≡ true
    → Expires n (suc k) i ack (set log (nth_last k i) no_pkt) count r
    → Expires (suc n) k i ack log count r
unfolding entries count_kept
expire_old n k i ack log count r e w h old x =
    let s = nth_last k i in
    let tail =
      entries-set_other n (suc k) i k log no_pkt w h (omega arith) (omega arith)
        (inl (omega arith)) in
    record {
      size = x.size ∙ length-set log s no_pkt;
      before =
          λ j l. ground (arith, x.before j (omega arith), entry-set log s no_pkt (nth_last j i));
      from =
          rw (x.from, tail)
            (ground (arith, old, x.before k (omega arith), entry-set log s no_pkt s));
      amount = rw (x.amount, tail) (ground (arith, old));
    }

expire_new :
    (n k i ack : ℕ) (log : List ℕ) (count : ℕ) (r : List ℕ × ℕ)
    → int_lt (entry log (nth_last k i)) ack ≡ false
    → Expires n (suc k) i ack log (count + 1) r
    → Expires (suc n) k i ack log count r
unfolding entries count_kept
expire_new n k i ack log count r new x = record {
  size = x.size;
  before = λ j l. x.before j (omega arith);
  from = rw x.from (ground (arith, new, x.before k (omega arith)));
  amount = rw x.amount (ground (arith, new));
}

expire_from :
    (n k i ack : ℕ) (log : List ℕ) (count : ℕ)
    → n + k ≡ 255
    → length log ≡ 256
    → i < 256
    → Expires n k i ack log count (expire (suc n) (nth_last k i) i ack log count)
unfolding expire entries count_kept
expire_from zero k i ack log count e w h =
    let k_last : k ≡ 255 = omega arith in
    rw (k_last, nth_last-eq i h)
      record { size = refl; before = λ j l. refl; from = refl; amount = omega arith }
expire_from (suc n) k i ack log count e w h =
    rw (nth_last-ne k i (omega arith) h, next-nth_last k i (omega arith) h)
      (elim (Bool-cases (int_lt (entry log (nth_last k i)) ack)) [
        | inl old ↦ rw old (
            expire_old n k i ack log count _ (omega arith) w h old (
              expire_from n (suc k) i ack (set log (nth_last k i) no_pkt) count (omega arith)
                (length-set log (nth_last k i) no_pkt ∙ w) h))
        | inr new ↦ rw new (
            expire_new n k i ack log count _ new
              (expire_from n (suc k) i ack log (count + 1) (omega arith) w h))
      ])

zero_plus : (n : ℕ) → 0 + n ≡ n
zero_plus n = omega arith

expire_all :
    (i ack : ℕ) (log : List ℕ)
    → length log ≡ 256
    → i < 256
    → Expires 255 0 i ack log 0 (expire pkt_log_sz (get_pkt_idx i) i ack log 0)
expire_all i ack log w h =
    subst (λ s. Expires 255 0 i ack log 0 (expire pkt_log_sz s i ack log 0))
      (sym (first-nth_last i)) (expire_from 255 0 i ack log 0 refl w h)

-- An acknowledgement of the SRT server clears, among the 255 latest entries, exactly those of packets
-- before the acknowledged one, and takes the number of the others as that of the packets in flight.
pub conn_register_srt_ack_lem :
    (ack : ℕ) (c : Link)
    → HasPktLog c
    → let c' = conn_register_srt_ack ack c in
      (recent c' ≡ map (cleared_before ack) (recent c))
      × (c'.in_flight_pkts ≡ count_kept ack (recent c))
      × HasPktLog c'
unfolding recent conn_register_srt_ack
conn_register_srt_ack_lem ack c v =
    let x = expire_all c.pkt_idx ack c.pkt_log v.whole v.room in
    (
      x.from,
      x.amount ∙ zero_plus (count_kept ack (recent c)),
      record { room = v.room; whole = x.size ∙ v.whole },
    )
