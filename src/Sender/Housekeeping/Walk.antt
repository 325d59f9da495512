-- ===== src/Sender/Housekeeping/Walk.antt =====
-- How a sender that never hears from the receiver goes through the addresses
-- (src/srtla/srtla_send.c).
use pyle_irl.Base.{
  ℕ, ◌+◌, ◌*◌, ◌/◌, ◌≤◌, ◌<◌, ◌≡◌, refl, ◌∙◌, ◌⊎◌, inl, inr, true, false, List, [], ◌∷◌, arith,
  length, ltb, ltb→lt, lt→ltb, Bool-cases,
}
use pyle_irl.Sender.Housekeeping.{
  housekeeping_int, Upkeep, house_links, Outcome, continues, exited, next_addr, check_failed,
  expire_pending, run_housekeeping, connection_housekeeping,
}
use pyle_irl.Sender.Housekeeping.Active.{
  Silent, house_links-active, live_links-Silent, house_links-Silent,
}
use pyle_irl.Sender.Sockets.{Opening}
use pyle_irl.Sender.State.{global_timeout_ms, Sender}
use pyle_irl.Wire.{Bytes}

-- Housekeeping at one time after the other, with nothing heard in between.
unfoldable pub idle : (ℕ → ℕ → Opening) → List ℕ → Sender → Outcome
idle opens [] s = continues s
idle opens (ms ∷ times) s = elim (connection_housekeeping ms ms (opens ms) s) [
  | exited ↦ exited
  | continues s' ↦ idle opens times s'
]

-- Calls that come one after the other, each at most `gap` ms after the one before.
abbrev pub Regular : ℕ → ℕ → List ℕ → Type 0
Regular gap t [] = Unit
Regular gap t (ms ∷ times) = (t ≤ ms) × (ms ≤ t + gap) × Regular gap ms times

abbrev pub last_time : ℕ → List ℕ → ℕ
last_time t [] = t
last_time t (ms ∷ times) = last_time ms times

-- The time in ms that an address takes, with calls at most `gap` ms apart.
abbrev pub per_addr : ℕ → ℕ
per_addr gap = global_timeout_ms + 2 * (gap + housekeeping_int)

-- A sender that never connected, and that heard nothing lately.
pub record Hopes (ms : ℕ) (addrs : List Bytes) (failed : ℕ) (s : Sender) : Type 0 where
  pub never : s.has_connected ≡ false
  pub unheard : (t : ℕ) → ms / 1000 ≤ t → Silent t s.links
  pub left : s.addrs ≡ addrs
  pub since : s.all_failed_at ≡ failed
  pub ran : s.last_ran ≤ ms

-- What housekeeping hands to its last part.
record Housekept (ms : ℕ) (s s1 : Sender) : Type 0 where
  none_active : s1.active_connections ≡ 0
  unheard : (t : ℕ) → ms / 1000 ≤ t → Silent t s1.links
  same_never : s1.has_connected ≡ s.has_connected
  same_addrs : s1.addrs ≡ s.addrs
  same_since : s1.all_failed_at ≡ s.all_failed_at

housekept :
    (ms now : ℕ) (opens : ℕ → Opening) (s : Sender)
    → s.last_ran + housekeeping_int ≤ ms
    → Silent (ms / 1000) s.links
    → (s1 : Sender) × Housekept ms s s1
      × (connection_housekeeping ms now opens s ≡ check_failed ms s1)
unfolding connection_housekeeping run_housekeeping
housekept ms now opens s h v =
    let u : Upkeep = record {
      addr = s.srtla_addr;
      id = s.srtla_id;
      pending_conn = expire_pending (ms / 1000) s;
      ms = ms;
      now = now;
    } in
    let r = house_links u opens 0 s.links s.active_fds s.actions in
    let late : ltb ms (s.last_ran + housekeeping_int) ≡ false = ground arith in
    (
      record s {
        links = r.links;
        active_fds = r.fds;
        actions = r.actions;
        active_connections = r.active_connections;
        pending_reg2_conn = expire_pending (ms / 1000) s;
      },
      record {
        none_active =
            house_links-active u opens 0 s.links s.active_fds s.actions
            ∙ live_links-Silent (ms / 1000) s.links v;
        unheard = λ t l. house_links-Silent u opens 0 s.links s.active_fds s.actions t l v;
        same_never = refl;
        same_addrs = refl;
        same_since = refl;
      },
      rw late refl,
    )

first_failure :
    (ms : ℕ) (addrs : List Bytes) (s s1 : Sender)
    → 0 < ms
    → s.has_connected ≡ false
    → s.addrs ≡ addrs
    → s.all_failed_at ≡ 0
    → Housekept ms s s1
    → (s' : Sender) × (check_failed ms s1 ≡ continues s') × Hopes ms addrs ms s'
unfolding check_failed
first_failure ms addrs s s1 h n a f x =
    let s' : Sender = record s1 { all_failed_at = ms; last_ran = ms } in
    (
      s',
      ground (arith, x.none_active, x.same_since),
      record {
        never = x.same_never ∙ n;
        unheard = x.unheard;
        left = x.same_addrs ∙ a;
        since = refl;
        ran = omega arith;
      },
    )

last_address :
    (ms failed : ℕ) (s s1 : Sender) (a : Bytes)
    → 0 < failed
    → failed + global_timeout_ms < ms
    → s.has_connected ≡ false
    → s.addrs ≡ a ∷ []
    → s.all_failed_at ≡ failed
    → Housekept ms s s1
    → check_failed ms s1 ≡ exited
unfolding check_failed next_addr
last_address ms failed s s1 a p h n e f x =
    ground (arith, x.none_active, x.same_since, x.same_never, x.same_addrs)

-- The global timeout is not over yet.
still_failing :
    (ms failed : ℕ) (addrs : List Bytes) (s s1 : Sender)
    → 0 < failed
    → ms ≤ failed + global_timeout_ms
    → s.has_connected ≡ false
    → s.addrs ≡ addrs
    → s.all_failed_at ≡ failed
    → Housekept ms s s1
    → (s' : Sender) × (check_failed ms s1 ≡ continues s') × Hopes ms addrs failed s'
unfolding check_failed
still_failing ms failed addrs s s1 p h n a f x =
    let s' : Sender = record s1 { all_failed_at = failed; last_ran = ms } in
    (
      s',
      ground (arith, x.none_active, x.same_since),
      record {
        never = x.same_never ∙ n;
        unheard = x.unheard;
        left = x.same_addrs ∙ a;
        since = refl;
        ran = omega arith;
      },
    )

next_address :
    (ms failed : ℕ) (s s1 : Sender) (a b : Bytes) (more : List Bytes)
    → 0 < failed
    → failed + global_timeout_ms < ms
    → s.has_connected ≡ false
    → s.addrs ≡ a ∷ b ∷ more
    → s.all_failed_at ≡ failed
    → Housekept ms s s1
    → (s' : Sender) × (check_failed ms s1 ≡ continues s') × Hopes ms (b ∷ more) 0 s'
unfolding check_failed next_addr
next_address ms failed s s1 a b more p h n e f x =
    let s' : Sender = record s1 {
      addrs = b ∷ more;
      srtla_addr = b;
      all_failed_at = 0;
      last_ran = ms;
    } in
    (
      s',
      ground (arith, x.none_active, x.same_since, x.same_never, x.same_addrs),
      record {
        never = x.same_never ∙ n;
        unheard = x.unheard;
        left = refl;
        since = refl;
        ran = omega arith;
      },
    )

idle-continues :
    (opens : ℕ → ℕ → Opening) (ms : ℕ) (times : List ℕ) (s s' : Sender)
    → connection_housekeeping ms ms (opens ms) s ≡ continues s'
    → idle opens (ms ∷ times) s ≡ idle opens times s'
unfolding idle
idle-continues opens ms times s s' e = rw (e, idle) refl

idle-exited :
    (opens : ℕ → ℕ → Opening) (ms : ℕ) (times : List ℕ) (s : Sender)
    → connection_housekeeping ms ms (opens ms) s ≡ exited
    → idle opens (ms ∷ times) s ≡ exited
unfolding idle
idle-exited opens ms times s e = rw (e, idle) refl

-- A call before the next run is due.
idle-skips :
    (opens : ℕ → ℕ → Opening) (ms : ℕ) (times : List ℕ) (s : Sender)
    → ms < s.last_ran + housekeeping_int
    → idle opens (ms ∷ times) s ≡ idle opens times s
unfolding connection_housekeeping
idle-skips opens ms times s h =
    let early : ltb ms (s.last_ran + housekeeping_int) ≡ true =
      lt→ltb ms (s.last_ran + housekeeping_int) h in
    idle-continues opens ms times s s (rw early refl)

Hopes-later :
    (t ms : ℕ) (addrs : List Bytes) (failed : ℕ) (s : Sender)
    → t ≤ ms
    → Hopes t addrs failed s
    → Hopes ms addrs failed s
Hopes-later t ms addrs failed s h x = record {
  never = x.never;
  unheard = λ u l. x.unheard u (omega (arith, h, l));
  left = x.left;
  since = x.since;
  ran = omega (arith, x.ran, h);
}

-- A call comes before the next run is due, or housekeeping runs.
due-cases : (r ms : ℕ) → (ms < r + housekeeping_int) ⊎ (r + housekeeping_int ≤ ms)
due-cases r ms = elim (Bool-cases (ltb ms (r + housekeeping_int))) [
  | inl e ↦ inl (ltb→lt ms (r + housekeeping_int) e)
  | inr e ↦ inr (ground arith)
]

over-cases : (failed ms : ℕ) → (failed + global_timeout_ms < ms) ⊎ (ms ≤ failed + global_timeout_ms)
over-cases failed ms = elim (Bool-cases (ltb (failed + global_timeout_ms) ms)) [
  | inl e ↦ inl (ltb→lt (failed + global_timeout_ms) ms e)
  | inr e ↦ inr (ground arith)
]

-- The timeout is over: the next address, if there is one, and what comes then.
idle-moves :
    (opens : ℕ → ℕ → Opening) (failed : ℕ) (a : Bytes) (more : List Bytes) (ms : ℕ) (times : List ℕ)
    (s s1 : Sender) (budget : List Bytes → ℕ)
    → 0 < failed
    → failed + global_timeout_ms < ms
    → s.has_connected ≡ false
    → s.addrs ≡ a ∷ more
    → s.all_failed_at ≡ failed
    → Housekept ms s s1
    → connection_housekeeping ms ms (opens ms) s ≡ check_failed ms s1
    → budget more < last_time ms times
    → ((b : Bytes) (rest : List Bytes) (s' : Sender)
        → Hopes ms (b ∷ rest) 0 s'
        → budget (b ∷ rest) < last_time ms times
        → idle opens times s' ≡ exited)
    → idle opens (ms ∷ times) s ≡ exited
idle-moves opens failed a [] ms times s s1 budget p timed_out n e f kept run over goes_on =
    idle-exited opens ms times s (run ∙ last_address ms failed s s1 a p timed_out n e f kept)
idle-moves opens failed a (b ∷ more) ms times s s1 budget p timed_out n e f kept run over goes_on =
    let (s', g, y) = next_address ms failed s s1 a b more p timed_out n e f kept in
    idle-continues opens ms times s s' (run ∙ g) ∙ goes_on b more s' y over

mutual
  -- Before the first run of an address: a call after `b` finds housekeeping due.
  idle-begins :
      (opens : ℕ → ℕ → Opening) (gap b : ℕ) (a : Bytes) (more : List Bytes) (t : ℕ) (times : List ℕ)
      (s : Sender)
      → Hopes t (a ∷ more) 0 s
      → Regular gap t times
      → t ≤ b
      → s.last_ran + housekeeping_int ≤ b
      → b + length (a ∷ more) * per_addr gap < last_time t times
      → idle opens times s ≡ exited
  idle-begins opens gap b a more t [] s x v l r over = absurd (omega (arith, l, over))
  idle-begins opens gap b a more t (ms ∷ times) s x v l r over = elim (due-cases s.last_ran ms) [
    | inl early ↦
        idle-skips opens ms times s early
        ∙ idle-begins opens gap b a more ms times s (Hopes-later t ms (a ∷ more) 0 s v.0 x) v.2
            (omega (arith, early, r)) r over
    | inr due ↦
        let x' = Hopes-later t ms (a ∷ more) 0 s v.0 x in
        let (s1, kept, e) =
          housekept ms ms (opens ms) s due (x'.unheard (ms / 1000) (omega arith)) in
        let (s', f, y) =
          first_failure ms (a ∷ more) s s1 (omega (arith, due)) x.never x.left x.since kept in
        idle-continues opens ms times s s' (e ∙ f)
        ∙ idle-waits opens gap (b + gap + global_timeout_ms + housekeeping_int) ms a more ms times
            s' y v.2 (omega (arith, due)) (omega (arith, l, v.1)) (omega (arith, l, v.1))
            (omega (arith, y.ran, l, v.1)) (omega (arith, over))
  ]

  -- After it: a call after `c` finds the global timeout over.
  idle-waits :
      (opens : ℕ → ℕ → Opening) (gap c failed : ℕ) (a : Bytes) (more : List Bytes) (t : ℕ)
      (times : List ℕ) (s : Sender)
      → Hopes t (a ∷ more) failed s
      → Regular gap t times
      → 0 < failed
      → failed + global_timeout_ms + housekeeping_int ≤ c
      → t ≤ c
      → s.last_ran + housekeeping_int ≤ c
      → c + gap + housekeeping_int + length more * per_addr gap < last_time t times
      → idle opens times s ≡ exited
  idle-waits opens gap c failed a more t [] s x v p f l r over = absurd (omega (arith, l, over))
  idle-waits opens gap c failed a more t (ms ∷ times) s x v p f l r over =
      let x' = Hopes-later t ms (a ∷ more) failed s v.0 x in
      elim (due-cases s.last_ran ms) [
        | inl early ↦
            idle-skips opens ms times s early
            ∙ idle-waits opens gap c failed a more ms times s x' v.2 p f (omega (arith, early, r)) r
                over
        | inr due ↦
            let (s1, kept, e) =
              housekept ms ms (opens ms) s due (x'.unheard (ms / 1000) (omega arith)) in
            elim (over-cases failed ms) [
              | inr not_over ↦
                  let (s', g, y) =
                    still_failing ms failed (a ∷ more) s s1 p not_over x.never x.left x.since
                      kept in
                  idle-continues opens ms times s s' (e ∙ g)
                  ∙ idle-waits opens gap c failed a more ms times s' y v.2 p f
                      (omega (arith, not_over, f)) (omega (arith, y.ran, not_over, f)) over
              | inl timed_out ↦
                  idle-moves opens failed a more ms times s s1
                    (λ addrs. c + gap + housekeeping_int + length addrs * per_addr gap) p timed_out
                    x.never x.left x.since kept e over
                    (λ b rest s' y over'.
                      idle-begins opens gap (c + gap + housekeeping_int) b rest ms times s' y v.2
                        (omega (arith, l, v.1)) (omega (arith, y.ran, l, v.1)) over')
            ]
      ]

-- A sender that never connected and hears nothing, with `n` addresses of the receiver left, gives up:
-- where the calls of housekeeping come at most `gap` ms apart, the process exits at the latest with
-- the first call that is more than 1 s and `n` times the global timeout and two intervals of
-- `gap` + 1 s after the time `t`.
pub idle-exits :
    (opens : ℕ → ℕ → Opening) (gap : ℕ) (a : Bytes) (more : List Bytes) (t : ℕ) (times : List ℕ)
    (s : Sender)
    → Hopes t (a ∷ more) 0 s
    → Regular gap t times
    → t + housekeeping_int + length (a ∷ more) * per_addr gap < last_time t times
    → idle opens times s ≡ exited
idle-exits opens gap a more t times s x v over =
    idle-begins opens gap (t + housekeeping_int) a more t times s x v (omega arith)
      (omega (arith, x.ran)) over
