-- ===== src/Receiver/Invariant/Conns.antt =====
-- How the list operations of src/srtla/srtla_rec.c keep the connections of a group distinct.
use mathlib.Core.Option.{some-injective}
use pyle_irl.Base.{
  ℕ, zero, suc, ◌≡◌, refl, sym, ap, ◌∙◌, none, some, List, [], ◌∷◌, arith, get_elem?, set, drop,
  remove_at, modify, All,
}
use pyle_irl.Receiver.Cleanup.{sweep_conns}
use pyle_irl.Receiver.Groups.{conn_find}
use pyle_irl.Receiver.Invariant.{Distinct}
use pyle_irl.Receiver.State.{Conn}
use pyle_irl.Wire.{Bytes}

pub conn_find-remove_at :
    (addr : Bytes) (i : ℕ) (cs : List Conn)
    → conn_find addr cs ≡ none
    → conn_find addr (remove_at i cs) ≡ none
unfolding conn_find
conn_find-remove_at addr i [] e = refl
conn_find-remove_at addr zero (c ∷ cs) e = ground arith
conn_find-remove_at addr (suc i) (c ∷ cs) e = ground (arith, conn_find-remove_at addr i cs)

conn_find-drop :
    (addr : Bytes) (n : ℕ) (cs : List Conn)
    → conn_find addr cs ≡ none
    → conn_find addr (drop n cs) ≡ none
unfolding conn_find
conn_find-drop addr zero cs e = e
conn_find-drop addr (suc n) [] e = refl
conn_find-drop addr (suc n) (c ∷ cs) e = conn_find-drop addr n cs (ground arith)

pub conn_find-modify :
    (addr : Bytes) (i : ℕ) (f : Conn → Conn) (cs : List Conn)
    → ((k : Conn) → (f k).addr ≡ k.addr)
    → conn_find addr (modify i f cs) ≡ conn_find addr cs
unfolding conn_find
conn_find-modify addr i f [] h = refl
conn_find-modify addr zero f (c ∷ cs) h = rw (h c)
conn_find-modify addr (suc i) f (c ∷ cs) h = rw (conn_find-modify addr i f cs h)

pub conn_find-set :
    (addr : Bytes) (cs : List Conn) (i : ℕ) (k k' : Conn)
    → get_elem? cs i ≡ some k
    → k'.addr ≡ k.addr
    → conn_find addr (set cs i k') ≡ conn_find addr cs
unfolding conn_find
conn_find-set addr [] i k k' e h = refl
conn_find-set addr (c ∷ cs) zero k k' e h = ground (arith, some-injective c k e)
conn_find-set addr (c ∷ cs) (suc i) k k' e h = rw (conn_find-set addr cs i k k' e h)

conn_find-sweep_conns :
    (addr : Bytes) (ts : ℕ) (cs : List Conn)
    → conn_find addr cs ≡ none
    → conn_find addr (sweep_conns ts cs).0 ≡ none
unfolding conn_find sweep_conns
conn_find-sweep_conns addr ts [] e = refl
conn_find-sweep_conns addr ts (c ∷ cs) e = ground (arith, conn_find-sweep_conns addr ts cs)

pub Distinct-remove_at : (i : ℕ) (cs : List Conn) → Distinct cs → Distinct (remove_at i cs)
Distinct-remove_at i [] d = tt
Distinct-remove_at zero (c ∷ cs) d = d.1
Distinct-remove_at (suc i) (c ∷ cs) d =
    (conn_find-remove_at c.addr i cs d.0, Distinct-remove_at i cs d.1)

pub Distinct-drop : (n : ℕ) (cs : List Conn) → Distinct cs → Distinct (drop n cs)
Distinct-drop zero cs d = d
Distinct-drop (suc n) [] d = tt
Distinct-drop (suc n) (c ∷ cs) d = Distinct-drop n cs d.1

pub Distinct-modify :
    (i : ℕ) (f : Conn → Conn) (cs : List Conn)
    → ((k : Conn) → (f k).addr ≡ k.addr)
    → Distinct cs
    → Distinct (modify i f cs)
Distinct-modify i f [] h d = tt
Distinct-modify zero f (c ∷ cs) h d = (rw (h c) d.0, d.1)
Distinct-modify (suc i) f (c ∷ cs) h d =
    (conn_find-modify c.addr i f cs h ∙ d.0, Distinct-modify i f cs h d.1)

pub Distinct-set :
    (cs : List Conn) (i : ℕ) (k k' : Conn)
    → get_elem? cs i ≡ some k
    → k'.addr ≡ k.addr
    → Distinct cs
    → Distinct (set cs i k')
Distinct-set [] i k k' e h d = tt
Distinct-set (c ∷ cs) zero k k' e h d =
    (rw (h ∙ ap (λ (x : Conn). x.addr) (sym (some-injective c k e))) d.0, d.1)
Distinct-set (c ∷ cs) (suc i) k k' e h d =
    (conn_find-set c.addr cs i k k' e h ∙ d.0, Distinct-set cs i k k' e h d.1)

pub Distinct-sweep_conns : (ts : ℕ) (cs : List Conn) → Distinct cs → Distinct (sweep_conns ts cs).0
unfolding sweep_conns
Distinct-sweep_conns ts [] d = tt
Distinct-sweep_conns ts (c ∷ cs) d =
    ground (arith, conn_find-sweep_conns c.addr ts cs d.0, Distinct-sweep_conns ts cs d.1)

pub All-sweep_conns :
    (P : Conn → Type 0) (ts : ℕ) (cs : List Conn) → All P cs → All P (sweep_conns ts cs).0
unfolding sweep_conns
All-sweep_conns P ts [] h = tt
All-sweep_conns P ts (c ∷ cs) h = ground (arith, All-sweep_conns P ts cs h.1)
