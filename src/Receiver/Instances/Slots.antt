-- ===== src/Receiver/Instances/Slots.antt =====
-- The table of instances (`global_contexts` of src/srtla/srtla_rec.c): slots and lookups.
use pyle_irl.Base.{
  ℕ, zero, suc, ◌+◌, ◌≡◌, refl, ap, subst, ◌∙◌, ◌⊎◌, inl, inr, Bool, true, false, ◌&&◌, Option,
  none, some, List, [], ◌∷◌, arith, get_elem?, set, set_same, Bool-cases,
}
use pyle_irl.Base.Int.{pos, leb_ℤ}
use pyle_irl.Receiver.Instances.{
  Table, take_slot, free_slot, Startup, new_ctx, sockets_ready, not_started, start_failed,
  now_running, start_instance, stop_instance,
}
use pyle_irl.Receiver.Resolve.{Candidate, resolve_srt_addr}
use pyle_irl.Receiver.State.{Platform, Ctx}

-- How many slots are free.
unfoldable pub free_slots : Table → ℕ
free_slots [] = 0
free_slots (none ∷ t) = suc (free_slots t)
free_slots (some c ∷ t) = free_slots t

pub free_slots-fill :
    (t : Table) (i : ℕ) (c : Ctx)
    → get_elem? t i ≡ some none
    → free_slots (set t i (some c)) + 1 ≡ free_slots t
unfolding free_slots
free_slots-fill [] i c e = absurd (ground arith)
free_slots-fill (none ∷ t) zero c e = omega arith
free_slots-fill (some d ∷ t) zero c e = absurd (ground arith)
free_slots-fill (none ∷ t) (suc i) c e = omega (arith, free_slots-fill t i c e)
free_slots-fill (some d ∷ t) (suc i) c e = free_slots-fill t i c e

-- The slot is free and all before it are taken.
abbrev pub FirstFree : Table → ℕ → Type 0
FirstFree [] i = ⊥
FirstFree (none ∷ t) zero = Unit {0}
FirstFree (none ∷ t) (suc i) = ⊥
FirstFree (some c ∷ t) zero = ⊥
FirstFree (some c ∷ t) (suc i) = FirstFree t i

pub FirstFree-get : (t : Table) (i : ℕ) → FirstFree t i → get_elem? t i ≡ some none
FirstFree-get [] i h = absurd h
FirstFree-get (none ∷ t) zero h = refl
FirstFree-get (none ∷ t) (suc i) h = absurd h
FirstFree-get (some c ∷ t) zero h = absurd h
FirstFree-get (some c ∷ t) (suc i) h = FirstFree-get t i h

-- `take_slot` fails only when no slot is free; otherwise the context goes into the first free slot,
-- and no other slot changes.
pub take_slot_lem :
    (c : Ctx) (t : Table)
    → ((take_slot c t ≡ none) × (free_slots t ≡ 0))
      ⊎ ((i : ℕ) × (take_slot c t ≡ some (i, set t i (some c))) × FirstFree t i)
unfolding take_slot free_slots
take_slot_lem c [] = inl (refl, refl)
take_slot_lem c (none ∷ t) = inr (0, refl, tt)
take_slot_lem c (some d ∷ t) = elim (take_slot_lem c t) [
  | inl (e, full) ↦ inl (ground arith, full)
  | inr (i, e, at) ↦ inr (suc i, ground arith, at)
]

pub set-set : (t : Table) (i : ℕ) (v w : Option Ctx) → set (set t i v) i w ≡ set t i w
set-set [] i v w = refl
set-set (x ∷ t) zero v w = refl
set-set (x ∷ t) (suc i) v w = ap (λ u. x ∷ u) (set-set t i v w)

resolve-keeps :
    (l : Option (Candidate × List Candidate)) (socket_made : Bool) (c : Ctx)
    → let d = (resolve_srt_addr l socket_made c).0 in
      (d.listen_port ≡ c.listen_port) × (d.groups ≡ c.groups)
unfolding resolve_srt_addr
resolve-keeps none socket_made c = (refl, refl)
resolve-keeps (some (first, others)) false c = (refl, refl)
resolve-keeps (some (first, others)) true c = ground arith

-- The start with slot `i` free for the context.
pub start-taken :
    (plat : Platform) (port : ℕ) (s : Startup) (t : Table) (i : ℕ)
    → s.memory ≡ true
    → take_slot (new_ctx plat port) t ≡ some (i, set t i (some (new_ctx plat port)))
    → (c : Ctx) × (c.listen_port ≡ port)
      × (c.groups ≡ [])
      × ((start_instance plat port s t ≡ (set t i (some c), now_running i))
          ⊎ (start_instance plat port s t ≡ (set t i (some c), start_failed i)))
unfolding start_instance
start-taken plat port s t i memory taken =
    let (c, ret) = resolve_srt_addr s.lookup s.lookup_socket (new_ctx plat port) in
    let (same_port, no_groups) = resolve-keeps s.lookup s.lookup_socket (new_ctx plat port) in
    let overwrite = λ (d : Ctx). set-set t i (some (new_ctx plat port)) (some d) in
    elim (Bool-cases (leb_ℤ (pos 0) ret && sockets_ready plat s)) [
      | inl ok ↦ (
        record c { is_listening = true },
        same_port,
        no_groups,
        inl (ground (arith, overwrite (record c { is_listening = true }))),
      )
      | inr bad ↦ (c, same_port, no_groups, inr (ground (arith, overwrite c)))
    ]

-- A start that leaves an instance running took the first free slot.
pub start_running :
    (plat : Platform) (port : ℕ) (s : Startup) (t t' : Table) (i : ℕ)
    → start_instance plat port s t ≡ (t', now_running i)
    → (c : Ctx) × FirstFree t i × (t' ≡ set t i (some c))
unfolding start_instance
start_running plat port s t t' i e = elim (Bool-cases s.memory) [
  | inr no_memory ↦ absurd (ground arith)
  | inl memory ↦ elim (take_slot_lem (new_ctx plat port) t) [
    | inl (none_free, full) ↦ absurd (ground arith)
    | inr (j, taken, at) ↦
        let (c, _, _, result) = start-taken plat port s t j memory taken in
        (c, subst (FirstFree t) (ground (arith, result)) at, ground (arith, result))
  ]
]

-- With memory for the context, a start finds no slot only when none is free; otherwise, whether it
-- fails later or not, it takes the first free slot, and ending the instance gives the table back as
-- it was.
pub start_then_stop :
    (plat : Platform) (port : ℕ) (s : Startup) (t : Table)
    → s.memory ≡ true
    → ((start_instance plat port s t ≡ (t, not_started)) × (free_slots t ≡ 0))
      ⊎ ((i : ℕ) × FirstFree t i
          × (free_slots (start_instance plat port s t).0 + 1 ≡ free_slots t)
          × (stop_instance i (start_instance plat port s t).0 ≡ t))
unfolding start_instance stop_instance free_slot
start_then_stop plat port s t memory = elim (take_slot_lem (new_ctx plat port) t) [
  | inl (none_free, full) ↦ inl (ground arith, full)
  | inr (i, taken, at) ↦
      let (c, _, _, result) = start-taken plat port s t i memory taken in
      let filled = free_slots-fill t i c (FirstFree-get t i at) in
      let emptied = set-set t i (some c) none ∙ set_same t i none (FirstFree-get t i at) in
      inr (i, at, ground (arith, result, filled), ground (arith, result, emptied))
]

-- A start that returns -1 after it took its slot leaves the slot taken, with a context that has the
-- port and no groups, and one slot fewer is free than before.
pub start_failed_leaks :
    (plat : Platform) (port : ℕ) (s : Startup) (t t' : Table) (i : ℕ)
    → start_instance plat port s t ≡ (t', start_failed i)
    → (c : Ctx) × FirstFree t i
      × (t' ≡ set t i (some c))
      × (c.listen_port ≡ port)
      × (c.groups ≡ [])
      × (free_slots t' + 1 ≡ free_slots t)
unfolding start_instance
start_failed_leaks plat port s t t' i e = elim (Bool-cases s.memory) [
  | inr no_memory ↦ absurd (ground arith)
  | inl memory ↦ elim (take_slot_lem (new_ctx plat port) t) [
    | inl (none_free, full) ↦ absurd (ground arith)
    | inr (j, taken, at) ↦
        let (c, same_port, no_groups, result) = start-taken plat port s t j memory taken in
        let filled = free_slots-fill t j c (FirstFree-get t j at) in
        (
          c,
          subst (FirstFree t) (ground (arith, result)) at,
          ground (arith, result),
          same_port,
          no_groups,
          ground (arith, result, filled),
        )
  ]
]
