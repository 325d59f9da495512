-- ===== src/Sender/Sound/Progress.antt =====
-- The rounds of the main loop of the sender (src/srtla/srtla_send.c) come to their end.
use mathlib.Core.Option.{none-ne-some}
use pyle_irl.Base.{
  ℕ, zero, suc, ◌≡◌, refl, ◌⊎◌, inl, inr, Bool, true, false, Option, none, some, arith, length,
  get_elem?, if◌then◌else◌, Option-cases, is_none,
}
use pyle_irl.Receiver.Out.{keep}
use pyle_irl.Sender.Housekeeping.{Outcome, continues, exited}
use pyle_irl.Sender.MainLoop.{
  Incoming, Round, read_links, read_sockets, RoundEnd, next_round, process_exit, never_ends,
  sender_round,
}
use pyle_irl.Sender.Packets.{handle_srtla_data}
use pyle_irl.Sender.Select.{handle_srt_data}
use pyle_irl.Sender.Sound.Ends.{Harmless, Ends, some-Ends, handle_srtla_data-Ends}
use pyle_irl.Sender.Sound.Packets.{IsSound}
use pyle_irl.Sender.Sound.Rounds.{sender_round-IsSound}
use pyle_irl.Sender.State.{Link, Sender}

then-Ends :
    (r : Option Sender) (f : Sender → Option Sender)
    → Ends r
    → ((s : Sender) → Ends (f s))
    → Ends (elim r as (λ x. Option Sender) [ none ↦ none | some s ↦ f s ])
then-Ends none f x keep = absurd (ground (arith, x.ends))
then-Ends (some s) f x keep = keep s

ready-Ends :
    (o : Option Incoming) (i : ℕ) (f : Sender → Option Sender) (s : Sender)
    → ((m : Incoming) → o ≡ some m → Harmless m.buf m.behind)
    → ((s : Sender) → Ends (f s))
    → Ends (elim o as (λ x. Option Sender) [
      | none ↦ f s
      | some m ↦ elim (handle_srtla_data m.ts m.sent m.buf m.behind i s) as (λ x. Option Sender) [
        | none ↦ none
        | some s' ↦ f s'
      ]
    ])
ready-Ends none i f s v keep = keep s
ready-Ends (some m) i f s v keep =
    then-Ends _ f (handle_srtla_data-Ends m.ts m.sent m.buf m.behind i s (v m refl)) keep

-- What a link's socket has, if it has one.
on_socket :
    (shut : Bool) (o : Option Incoming)
    → ((m : Incoming) → o ≡ some m → Harmless m.buf m.behind)
    → (m : Incoming) → (if shut then none else o) ≡ some m
    → Harmless m.buf m.behind
on_socket true o v m e = absurd (none-ne-some m e)
on_socket false o v m e = v m e

-- No packet that waits is harmful.
abbrev pub AllHarmless : (ℕ → Option Incoming) → Type 0
AllHarmless ready = (i : ℕ) (m : Incoming) → ready i ≡ some m → Harmless m.buf m.behind

link-Ends :
    (o : Option Link) (i : ℕ) (ready : ℕ → Option Incoming) (f : Sender → Option Sender)
    (s : Sender)
    → AllHarmless ready
    → ((s : Sender) → Ends (f s))
    → Ends (elim o as (λ x. Option Sender) [
      | none ↦ some s
      | some c ↦ elim (if is_none c.fd then none else ready i) as (λ x. Option Sender) [
        | none ↦ f s
        | some m ↦ elim (handle_srtla_data m.ts m.sent m.buf m.behind i s) as (λ x. Option Sender) [
          | none ↦ none
          | some s' ↦ f s'
        ]
      ]
    ])
link-Ends none i ready f s v keep = some-Ends
link-Ends (some c) i ready f s v keep =
    ready-Ends (if is_none c.fd then none else ready i) i f s
      (on_socket (is_none c.fd) (ready i) (v i)) keep

read_links-Ends :
    (n i : ℕ) (ready : ℕ → Option Incoming) (s : Sender)
    → AllHarmless ready
    → Ends (read_links n i ready s)
unfolding read_links
read_links-Ends zero i ready s v = some-Ends
read_links-Ends (suc n) i ready s v =
    link-Ends (get_elem? s.links i) i ready (read_links n (suc i) ready) s v
      (λ s'. read_links-Ends n (suc i) ready s' v)

read_sockets-Ends : (r : Round) (s : Sender) → AllHarmless r.from_receiver → Ends (read_sockets r s)
unfolding read_sockets
read_sockets-Ends r s v =
    let s' : Sender = elim r.from_caller [
      | none ↦ s
      | some m ↦ handle_srt_data m.t m.sent m.buf m.caller s
    ] in
    read_links-Ends (length s'.links) 0 r.from_receiver s' v

after_housekeeping :
    (o : Outcome) (r : Round)
    → AllHarmless r.from_receiver
    → let end : RoundEnd = elim o as (λ x. RoundEnd) [
      | exited ↦ process_exit
      | continues s ↦ elim (read_sockets r s) as (λ x. RoundEnd) [
        | none ↦ never_ends
        | some t ↦ next_round t
      ]
    ] in
      (end ≡ process_exit) ⊎ ((s' : Sender) × (end ≡ next_round s'))
after_housekeeping exited r v = inl refl
after_housekeeping (continues s) r v =
    let x = read_sockets-Ends r s v in
    elim (Option-cases (read_sockets r s)) [
      | inl n ↦ absurd (ground (arith, x.ends))
      | inr (t, e) ↦ inr (t, rw e refl)
    ]

round_ends :
    (r : Round) (s : Sender)
    → AllHarmless r.from_receiver
    → (sender_round r s ≡ process_exit) ⊎ ((s' : Sender) × (sender_round r s ≡ next_round s'))
unfolding sender_round
round_ends r s w = after_housekeeping _ r w

-- A round of the main loop from a well formed sender, where no loss report among the packets that it
-- reads has the word 0xFFFFFFFF or has it behind: the round comes to its end, and the process exits or
-- the loop goes on with a well formed sender: each link's log has 256 entries and an index inside, its
-- window is not below the least one, its attempts and their delay are not above theirs, and
-- `pending_reg2_conn` is NULL or one of the links, never one that was freed.
pub sender_round-continues :
    (r : Round) (s : Sender)
    → IsSound s
    → AllHarmless r.from_receiver
    → (sender_round r s ≡ process_exit)
      ⊎ ((s' : Sender) × (sender_round r s ≡ next_round s') × IsSound s')
sender_round-continues r s v w = elim (round_ends r s w) [
  | inl e ↦ inl e
  | inr (s', e) ↦ inr (s', e, sender_round-IsSound r s s' v e)
]
