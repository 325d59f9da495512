-- ===== src/Sender/Sound/Rounds.antt =====
-- The rounds of the main loop (src/srtla/srtla_send.c) keep the invariant of the sender.
use pyle_irl.Base.{
  ℕ, zero, suc, ◌≡◌, refl, inl, inr, Option, none, some, List, arith, get_elem?, if◌then◌else◌,
  Option-cases, is_none,
}
use pyle_irl.Receiver.Out.{keep}
use pyle_irl.Sender.Conns.{Line, update_conns}
use pyle_irl.Sender.Housekeeping.{Outcome, continues, exited}
use pyle_irl.Sender.MainLoop.{
  Incoming, FromCaller, Round, read_links, read_sockets, RoundEnd, next_round, process_exit,
  never_ends, sender_round,
}
use pyle_irl.Sender.Packets.{handle_srtla_data}
use pyle_irl.Sender.Select.{handle_srt_data}
use pyle_irl.Sender.Sound.Conns.{update_conns-IsSound}
use pyle_irl.Sender.Sound.Housekeeping.{GoesOn, housekeeping-GoesOn}
use pyle_irl.Sender.Sound.Packets.{
  IsSound, handle_srt_data-IsSound, Returns, some-Returns, none-Returns, handle_srtla_data-Returns,
}
use pyle_irl.Sender.State.{Link, Sender}

then-Returns :
    (r : Option Sender) (f : Sender → Option Sender)
    → Returns r
    → ((s : Sender) → IsSound s → Returns (f s))
    → Returns (elim r as (λ x. Option Sender) [ none ↦ none | some s ↦ f s ])
then-Returns none f x keep = none-Returns
then-Returns (some s) f x keep = keep s (x.result s refl)

ready-Returns :
    (o : Option Incoming) (i : ℕ) (f : Sender → Option Sender) (s : Sender)
    → ((s : Sender) → IsSound s → Returns (f s))
    → IsSound s
    → Returns (elim o as (λ x. Option Sender) [
      | none ↦ f s
      | some m ↦ elim (handle_srtla_data m.ts m.sent m.buf m.behind i s) as (λ x. Option Sender) [
        | none ↦ none
        | some s' ↦ f s'
      ]
    ])
ready-Returns none i f s keep v = keep s v
ready-Returns (some m) i f s keep v =
    then-Returns _ f (handle_srtla_data-Returns m.ts m.sent m.buf m.behind i s v) keep

link-Returns :
    (o : Option Link) (i : ℕ) (ready : ℕ → Option Incoming) (f : Sender → Option Sender)
    (s : Sender)
    → ((s : Sender) → IsSound s → Returns (f s))
    → IsSound s
    → Returns (elim o as (λ x. Option Sender) [
      | none ↦ some s
      | some c ↦ elim (if is_none c.fd then none else ready i) as (λ x. Option Sender) [
        | none ↦ f s
        | some m ↦ elim (handle_srtla_data m.ts m.sent m.buf m.behind i s) as (λ x. Option Sender) [
          | none ↦ none
          | some s' ↦ f s'
        ]
      ]
    ])
link-Returns none i ready f s keep v = some-Returns v
link-Returns (some c) i ready f s keep v =
    ready-Returns (if is_none c.fd then none else ready i) i f s keep v

read_links-Returns :
    (n i : ℕ) (ready : ℕ → Option Incoming) (s : Sender)
    → IsSound s
    → Returns (read_links n i ready s)
unfolding read_links
read_links-Returns zero i ready s v = some-Returns v
read_links-Returns (suc n) i ready s v =
    link-Returns (get_elem? s.links i) i ready (read_links n (suc i) ready) s
      (read_links-Returns n (suc i) ready) v

caller-IsSound :
    (o : Option FromCaller) (s : Sender)
    → IsSound s
    → IsSound (elim o as (λ x. Sender) [
      | none ↦ s
      | some m ↦ handle_srt_data m.t m.sent m.buf m.caller s
    ])
caller-IsSound none s v = v
caller-IsSound (some m) s v = handle_srt_data-IsSound m.t m.sent m.buf m.caller s v

read_sockets-Returns : (r : Round) (s : Sender) → IsSound s → Returns (read_sockets r s)
unfolding read_sockets
read_sockets-Returns r s v =
    read_links-Returns _ 0 r.from_receiver _ (caller-IsSound r.from_caller s v)

updated-IsSound :
    (o : Option (List Line)) (s : Sender)
    → IsSound s
    → IsSound (elim o as (λ x. Sender) [ none ↦ s | some ls ↦ update_conns ls s ])
updated-IsSound none s v = v
updated-IsSound (some ls) s v = update_conns-IsSound ls s v

round_end-IsSound :
    (o : Outcome) (r : Round) (s' : Sender)
    → GoesOn o
    → (elim o as (λ x. RoundEnd) [
      | exited ↦ process_exit
      | continues s ↦ elim (read_sockets r s) as (λ x. RoundEnd) [
        | none ↦ never_ends
        | some t ↦ next_round t
      ]
    ])
      ≡ next_round s'
    → IsSound s'
round_end-IsSound exited r s' x e = absurd (ground arith)
round_end-IsSound (continues s) r s' x e =
    let y = read_sockets-Returns r s (x.next s refl) in
    elim (Option-cases (read_sockets r s)) [
      | inl n ↦ absurd (ground arith)
      | inr (t, n) ↦ y.result s' (ground arith)
    ]

-- A round of the main loop that ends with the loop going on keeps the sender well formed, whatever the
-- file of addresses, the clock, the sockets and the packets are: each link's log has 256 entries and an
-- index inside, its window is not below the least one, its attempts and their delay are not above
-- theirs, and `pending_reg2_conn` is NULL or one of the links, never one that was freed.
pub sender_round-IsSound :
    (r : Round) (s s' : Sender) → IsSound s → sender_round r s ≡ next_round s' → IsSound s'
unfolding sender_round
sender_round-IsSound r s s' v e =
    round_end-IsSound _ r s'
      (housekeeping-GoesOn r.ms r.now r.opens _ (updated-IsSound r.update s v)) e
