-- ===== src/Receiver/Cleanup/Sweep.antt =====
-- What `connection_cleanup` (src/srtla/srtla_rec.c) removes, against a filter.
use mathlib.Core.List.{filter}
use native.Mathlib.Decide.{dec_le}
use pyle_irl.Base.{ℕ, ◌+◌, ◌≤◌, ◌≡◌, refl, List, [], ◌∷◌, ◌++◌, map, arith, length, List-cases}
use pyle_irl.Receiver.Cleanup.{sweep_conns, sweep_groups}
use pyle_irl.Receiver.State.{group_timeout, conn_timeout, Platform, Conn, Group, Call, release_sock}

-- A connection heard from within CONN_TIMEOUT.
abbrev pub live? : (ts : ℕ) (k : Conn) → Dec (ts ≤ k.last_rcvd + conn_timeout)
live? ts k = dec_le ts (k.last_rcvd + conn_timeout)

abbrev pub live_conns : ℕ → List Conn → List Conn
live_conns ts = filter (live? ts)

pub sweep_conns-filter :
    (ts : ℕ) (cs : List Conn)
    → ((sweep_conns ts cs).0 ≡ live_conns ts cs)
      × ((sweep_conns ts cs).1 + length (live_conns ts cs) ≡ length cs)
unfolding sweep_conns
sweep_conns-filter ts [] = (refl, omega arith)
sweep_conns-filter ts (c ∷ cs) = ground (arith, sweep_conns-filter ts cs)

-- A group stays while it has a connection, and for GROUP_TIMEOUT after it was made.
abbrev pub Survives : ℕ → List Conn → ℕ → Type 0
Survives ts [] created_at = ts ≤ created_at + group_timeout
Survives ts (c ∷ cs) created_at = Unit {0}

pub survives? : (ts : ℕ) (cs : List Conn) (created_at : ℕ) → Dec (Survives ts cs created_at)
survives? ts [] created_at = dec_le ts (created_at + group_timeout)
survives? ts (c ∷ cs) created_at = yes tt

abbrev pub purge : ℕ → Group → Group
purge ts g = record g { conns = live_conns ts g.conns }

abbrev pub surviving : ℕ → List Group → List Group
surviving ts gs = filter (λ (g : Group). survives? ts g.conns g.created_at) (map (purge ts) gs)

pub sweep_groups-filter :
    (plat : Platform) (ts : ℕ) (gs : List Group) (calls : List Call)
    → let swept = sweep_groups plat ts gs calls in
      (swept.kept ≡ surviving ts gs) × (swept.removed_groups + length (surviving ts gs) ≡ length gs)
unfolding sweep_groups survives?
sweep_groups-filter plat ts [] calls = (refl, omega arith)
sweep_groups-filter plat ts (g ∷ gs) calls = ground (
  arith,
  (sweep_conns-filter ts g.conns).0,
  List-cases (live_conns ts g.conns),
  sweep_groups-filter plat ts gs calls,
  sweep_groups-filter plat ts gs (release_sock plat g.srt_sock ++ calls),
)
