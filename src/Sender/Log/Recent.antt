-- ===== src/Sender/Log/Recent.antt =====
-- The log of a link (src/srtla/srtla_send.c) read as the list of the packets that it was given last.
use mathlib.Core.Option
use pyle_irl.Base.{
  ℕ, zero, suc, ◌+◌, ◌-◌, ◌%◌, ◌≤◌, ◌<◌, ◌≡◌, refl, inl, inr, true, false, Option, none, some, List,
  [], ◌∷◌, arith, length, ◌==◌, if◌then◌else◌, Bool-cases,
}
use pyle_irl.Sender.Log.{entry, get_pkt_idx, find_pkt, find_in_log}
use pyle_irl.Sender.State.{pkt_log_sz, Link}

abbrev pub nth_last : ℕ → ℕ → ℕ
nth_last k i = (i + 255 - k) % 256

-- `pkt_idx` is an index of the log, and the log is whole.
pub record HasPktLog (c : Link) : Type 0 where
  pub room : c.pkt_idx < pkt_log_sz
  pub whole : length c.pkt_log ≡ pkt_log_sz

-- `n` entries, from the one that `k` later packets followed, latest first.
unfoldable pub entries : ℕ → ℕ → ℕ → List ℕ → List ℕ
entries zero k i log = []
entries (suc n) k i log = entry log (nth_last k i) ∷ entries n (suc k) i log

-- The entries that the searches look at: all but the oldest.
unfoldable pub recent : Link → List ℕ
recent c = entries 255 0 c.pkt_idx c.pkt_log

-- The position of a packet in a list, counted from `k` on.
unfoldable pub index_from : ℕ → ℕ → List ℕ → Option ℕ
index_from k p [] = none
index_from k p (q ∷ qs) = let rest = index_from (suc k) p qs in if q == p then some k else rest

pub next-nth_last : (k i : ℕ) → k < 255 → i < 256 → get_pkt_idx (nth_last k i) ≡ nth_last (suc k) i
unfolding get_pkt_idx
next-nth_last k i h g = omega arith

pub nth_last-ne : (k i : ℕ) → k < 255 → i < 256 → (nth_last k i == i) ≡ false
nth_last-ne k i h g = ground arith

pub nth_last-eq : (i : ℕ) → i < 256 → (nth_last 255 i == i) ≡ true
nth_last-eq i h = ground arith

-- The search from the entry `k` on, with any fuel that is enough.
find_from :
    (n k fuel i : ℕ) (log : List ℕ) (p : ℕ)
    → n + k ≡ 255
    → n ≤ fuel
    → i < 256
    → find_pkt (suc fuel) (nth_last k i) i log p
      ≡ Option.map (λ j. nth_last j i) (index_from k p (entries n k i log))
unfolding find_pkt entries index_from
find_from zero k fuel i log p e f h =
    let k_last : k ≡ 255 = omega arith in rw (k_last, nth_last-eq i h) refl
find_from (suc n) k zero i log p e f h = absurd (omega arith)
find_from (suc n) k (suc fuel) i log p e f h =
    rw (nth_last-ne k i (omega arith) h, next-nth_last k i (omega arith) h)
      (elim (Bool-cases (entry log (nth_last k i) == p)) [
        | inl hit ↦ rw hit refl
        | inr miss ↦ rw miss (find_from n (suc k) fuel i log p (omega arith) (omega arith) h)
      ])

pub first-nth_last : (i : ℕ) → get_pkt_idx i ≡ nth_last 0 i
unfolding get_pkt_idx
first-nth_last i = omega arith

-- In a well-formed log the search for a packet, on any fuel from the log's size on, ends, and finds
-- what a plain search in the list of the 255 latest entries finds: the latest entry with the packet,
-- or nothing.
pub find_pkt-recent :
    (fuel p : ℕ) (c : Link)
    → pkt_log_sz ≤ fuel
    → HasPktLog c
    → find_pkt fuel (get_pkt_idx c.pkt_idx) c.pkt_idx c.pkt_log p
      ≡ Option.map (λ k. nth_last k c.pkt_idx) (index_from 0 p (recent c))
unfolding recent
find_pkt-recent zero p c h v = absurd (omega arith)
find_pkt-recent (suc fuel) p c h v =
    rw (first-nth_last c.pkt_idx)
      (find_from 255 0 fuel c.pkt_idx c.pkt_log p refl (omega arith) v.room)

pub find_in_log-recent :
    (p : ℕ) (c : Link)
    → HasPktLog c
    → find_in_log p c ≡ Option.map (λ k. nth_last k c.pkt_idx) (index_from 0 p (recent c))
unfolding find_in_log
find_in_log-recent p c v = find_pkt-recent pkt_log_sz p c (omega arith) v
