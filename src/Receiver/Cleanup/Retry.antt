-- ===== src/Receiver/Cleanup/Retry.antt =====
-- The handshake retries of `connection_cleanup` (src/srtla/srtla_rec.c).
use mathlib.Core.Option
use pyle_irl.Base.{
  ℕ, suc, ◌≤◌, ◌≡◌, refl, ap₂, ◌≢◌, ◌⊎◌, inl, inr, true, false, Option, none, some, List, [], ◌∷◌,
  map, arith, get_elem?, Option-cases,
}
use pyle_irl.Receiver.Backoff.{backoff, add_int}
use pyle_irl.Receiver.Cleanup.{
  Handshake, is_reply, attempt, schedule_retry, retry_handshake, clock_or_zero, retry_group,
  retry_groups,
}
use pyle_irl.Receiver.State.{reg_retry_base_ms, Conn, waiting_srt, Group, Call, close_socket}
use pyle_irl.Wire.{Bytes}

-- What the retries leave alone in a group.
abbrev pub identity : Group → ℕ × Bytes × List Conn × ℕ
identity g = (g.node, g.id, g.conns, g.created_at)

identity-retry_handshake :
    (h : Handshake) (g : Group) → identity (retry_handshake h g).0 ≡ identity g
unfolding retry_handshake
identity-retry_handshake h g = ground arith

identity-retry_group : (h : Handshake) (g : Group) → identity (retry_group h g).0 ≡ identity g
unfolding retry_group
identity-retry_group h g = ground (arith, identity-retry_handshake h g)

pub identity-retry_groups :
    (hs : ℕ → Handshake) (i : ℕ) (gs : List Group) (calls : List Call)
    → map identity (retry_groups hs i gs calls).0 ≡ map identity gs
unfolding retry_groups
identity-retry_groups hs i [] calls = refl
identity-retry_groups hs i (g ∷ gs) calls =
    ap₂ ◌∷◌ (identity-retry_group (hs i) g) (identity-retry_groups hs (suc i) gs _)

-- A retry that is due: the group waits for the SRT server, has a connection, and the clock reading
-- has come to the time that was set.
abbrev pub IsDue : Handshake → Group → Type 0
IsDue h g = (g.state ≡ waiting_srt) × (g.conns ≢ []) × (g.next_srt_retry_ms ≤ clock_or_zero h.clock)

IsDue-test : (h : Handshake) (g : Group) → IsDue h g → retry_group h g ≡ retry_handshake h g
unfolding retry_group
IsDue-test h g (waits, some_conn, due) = ground arith

-- A handshake attempt that gets no reply of 64 bytes.
abbrev pub Unanswered : Handshake → Type 0
Unanswered h = (h.socket ≡ none) ⊎ (h.connected ≡ false) ⊎ (h.sent ≡ false) ⊎ (h.received ≢ some 64)

is_reply-some : (o : Option ℕ) → is_reply o ≡ true → o ≡ some 64
is_reply-some none e = absurd (ground arith)
is_reply-some (some n) e = ground arith

attempt-fails :
    (h : Handshake) (s : ℕ)
    → h.socket ≡ some s
    → Unanswered h
    → ((attempt h s).0 ≡ false) × (get_elem? (attempt h s).1 0 ≡ some (close_socket s))
unfolding attempt
attempt-fails h s made bad = ground (arith, is_reply-some h.received)

retry_handshake-fails :
    (h : Handshake) (g : Group)
    → Unanswered h
    → ((retry_handshake h g).0 ≡ schedule_retry h.now_ms g)
      × (get_elem? (retry_handshake h g).1 0 ≡ Option.map close_socket h.socket)
unfolding retry_handshake
retry_handshake-fails h g bad = elim (Option-cases h.socket) [
  | inl no_socket ↦ ground arith
  | inr (s, made) ↦ ground (arith, attempt-fails h s made bad)
]

-- When a retry that is due gets no reply of 64 bytes, the group goes on waiting with its socket as
-- it was, the attempt is counted, the next one is set by the doubling delay, and the last call made
-- closes the new socket, or, where no socket could be made, no call was made.
pub retry_fails :
    (h : Handshake) (g : Group)
    → IsDue h g
    → Unanswered h
    → let (g', calls) = retry_group h g in
      (g'.state ≡ waiting_srt)
      × (g'.srt_sock ≡ g.srt_sock)
      × (g'.srt_retry_attempts ≡ suc g.srt_retry_attempts)
      × (g'.next_srt_retry_ms
          ≡ add_int h.now_ms (backoff reg_retry_base_ms (suc g.srt_retry_attempts)))
      × (get_elem? calls 0 ≡ Option.map close_socket h.socket)
retry_fails h g due bad =
    let (scheduled, last) = retry_handshake-fails h g bad in
    rw (IsDue-test h g due)
      (ground (arith, due), ground (arith, due), ground (arith, due), ground (arith, due), last)
