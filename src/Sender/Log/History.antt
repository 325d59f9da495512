-- ===== src/Sender/Log/History.antt =====
-- What the operations on a link's log (src/srtla/srtla_send.c) do to its latest entries.
use mathlib.Core.Option
use pyle_irl.Base.{
  ℕ, zero, suc, ◌+◌, ◌%◌, ◌≤◌, ◌<◌, ◌≡◌, refl, sym, ap, ap₂, subst, ◌∙◌, ◌⊎◌, inl, inr, none, some,
  List, [], ◌∷◌, arith, length, set, take, length-set, ◌==◌, if◌then◌else◌, Bool-cases,
}
use pyle_irl.Sender.Log.{entry, reg_pkt, find_in_log}
use pyle_irl.Sender.Log.Recent.{
  nth_last, HasPktLog, entries, recent, index_from, find_in_log-recent,
}
use pyle_irl.Sender.State.{no_pkt, Link}

pub entry-set :
    (log : List ℕ) (i v j : ℕ)
    → i < length log
    → entry (set log i v) j ≡ (if j == i then v else entry log j)
entry-set [] i v j h = absurd (omega arith)
entry-set (x ∷ xs) zero v zero h = refl
entry-set (x ∷ xs) zero v (suc j) h = ground arith
entry-set (x ∷ xs) (suc i) v zero h = ground arith
entry-set (x ∷ xs) (suc i) v (suc j) h = ground (arith, entry-set xs i v j)

-- A write at an entry that is not listed, and at one that is.
pub entries-set_other :
    (n k i j : ℕ) (log : List ℕ) (v : ℕ)
    → length log ≡ 256
    → i < 256
    → j < 256
    → n + k ≤ 256
    → (j < k) ⊎ (n + k ≤ j)
    → entries n k i (set log (nth_last j i) v) ≡ entries n k i log
unfolding entries
entries-set_other zero k i j log v w h l m o = refl
entries-set_other (suc n) k i j log v w h l m o = ground (
  arith,
  entry-set log (nth_last j i) v (nth_last k i),
  entries-set_other n (suc k) i j log v w h l (omega arith) (ground arith),
)

entries-set :
    (n k i j : ℕ) (log : List ℕ) (v : ℕ)
    → length log ≡ 256
    → i < 256
    → n + k ≤ 256
    → j < n
    → entries n k i (set log (nth_last (k + j) i) v) ≡ set (entries n k i log) j v
unfolding entries
entries-set zero k i j log v w h m l = absurd (omega arith)
entries-set (suc n) k i zero log v w h m l = ground (
  arith,
  entry-set log (nth_last k i) v (nth_last k i),
  entries-set_other n (suc k) i k log v w h (omega arith) (omega arith) (inl (omega arith)),
)
entries-set (suc n) k i (suc j) log v w h m l = ground (
  arith,
  entry-set log (nth_last (k + suc j) i) v (nth_last k i),
  entries-set n (suc k) i j log v w h (omega arith) (omega arith),
)

pub length-entries : (n k i : ℕ) (log : List ℕ) → length (entries n k i log) ≡ n
unfolding entries
length-entries zero k i log = refl
length-entries (suc n) k i log = ap suc (length-entries n (suc k) i log)

entries-shift :
    (n k i : ℕ) (log : List ℕ)
    → i < 256
    → n + k ≤ 255
    → entries n (suc k) ((i + 1) % 256) log ≡ entries n k i log
unfolding entries
entries-shift zero k i log h m = refl
entries-shift (suc n) k i log h m =
    let here_same : nth_last (suc k) ((i + 1) % 256) ≡ nth_last k i = omega arith in
    rw (here_same, entries-shift n (suc k) i log h (omega arith)) refl

entries-take : (n k i : ℕ) (log : List ℕ) → take n (entries (suc n) k i log) ≡ entries n k i log
unfolding entries
entries-take zero k i log = refl
entries-take (suc n) k i log =
    ap (λ (es : List ℕ). entry log (nth_last k i) ∷ es) (entries-take n (suc k) i log)

pub entries-suc :
    (n k i : ℕ) (log : List ℕ)
    → entries (suc n) k i log ≡ entry log (nth_last k i) ∷ entries n (suc k) i log
unfolding entries
entries-suc n k i log = refl

pub reg_pkt-HasPktLog : (p : ℕ) (c : Link) → HasPktLog c → HasPktLog (reg_pkt p c)
unfolding reg_pkt
reg_pkt-HasPktLog p c v = ground (arith, length-set c.pkt_log c.pkt_idx p)

entries-put :
    (i p : ℕ) (log : List ℕ)
    → length log ≡ 256
    → i < 256
    → entries 255 0 ((i + 1) % 256) (set log i p) ≡ p ∷ take 254 (entries 255 0 i log)
entries-put i p log w h =
    let oldest : nth_last 255 i ≡ i = omega arith in
    let newest : nth_last 0 ((i + 1) % 256) ≡ i = omega arith in
    let put : entry (set log i p) i ≡ p = ground (arith, entry-set log i p i) in
    let kept : entries 254 0 i (set log i p) ≡ entries 254 0 i log =
      subst (λ j. entries 254 0 i (set log j p) ≡ entries 254 0 i log) oldest
        (entries-set_other 254 0 i 255 log p w h (omega arith) (omega arith) (inr (omega arith))) in
    entries-suc 254 0 ((i + 1) % 256) (set log i p)
    ∙ ap₂ (λ (q : ℕ) (es : List ℕ). q ∷ es) (ap (entry (set log i p)) newest ∙ put)
        (entries-shift 254 0 i (set log i p) h (omega arith)
          ∙ kept
          ∙ sym (entries-take 254 0 i log))

-- Logging a packet puts it in front of the latest entries, of which the last one drops out.
pub reg_pkt-recent :
    (p : ℕ) (c : Link) → HasPktLog c → recent (reg_pkt p c) ≡ p ∷ take 254 (recent c)
unfolding reg_pkt recent
reg_pkt-recent p c v = entries-put c.pkt_idx p c.pkt_log v.whole v.room

index-bound :
    (p k : ℕ) (qs : List ℕ)
    → (index_from k p qs ≡ none) ⊎ ((j : ℕ) × (index_from k p qs ≡ some (k + j)) × (j < length qs))
unfolding index_from
index-bound p k [] = inl refl
index-bound p k (q ∷ qs) = elim (Bool-cases (q == p)) [
  | inl hit ↦ inr (0, ground arith, omega arith)
  | inr miss ↦ elim (index-bound p (suc k) qs) [
    | inl e ↦ inl (ground arith)
    | inr (j, e, h) ↦ inr (suc j, ground arith, omega arith)
  ]
]

-- What it means that the search finds a packet of the latest entries, and that it is cleared there.
pub record Clears (p : ℕ) (c : Link) (j i : ℕ) : Type 0 where
  pub at : index_from 0 p (recent c) ≡ some j
  pub found : find_in_log p c ≡ some i
  pub cleared : entries 255 0 c.pkt_idx (set c.pkt_log i no_pkt) ≡ set (recent c) j no_pkt

index-Clears :
    (p : ℕ) (c : Link) (j : ℕ)
    → HasPktLog c
    → index_from 0 p (recent c) ≡ some (0 + j)
    → j < length (recent c)
    → Clears p c (0 + j) (nth_last (0 + j) c.pkt_idx)
unfolding recent
index-Clears p c j v e h =
    let in_range : j < 255 = subst (λ n. j < n) (length-entries 255 0 c.pkt_idx c.pkt_log) h in
    let same_place : 0 + j ≡ j = omega arith in
    record {
      at = e;
      found = find_in_log-recent p c v ∙ ap (Option.map (λ k. nth_last k c.pkt_idx)) e;
      cleared =
          entries-set 255 0 c.pkt_idx j c.pkt_log no_pkt v.whole v.room (omega arith) in_range
          ∙ ap (λ k. set (entries 255 0 c.pkt_idx c.pkt_log) k no_pkt) (sym same_place);
    }

pub find-Clears :
    (p : ℕ) (c : Link)
    → HasPktLog c
    → ((index_from 0 p (recent c) ≡ none) × (find_in_log p c ≡ none))
      ⊎ ((j : ℕ) × (i : ℕ) × Clears p c j i)
find-Clears p c v =
    let place = Option.map (λ k. nth_last k c.pkt_idx) in
    elim (index-bound p 0 (recent c)) [
      | inl e ↦ inl (e, find_in_log-recent p c v ∙ ap place e)
      | inr (j, e, h) ↦ inr (0 + j, nth_last (0 + j) c.pkt_idx, index-Clears p c j v e h)
    ]
