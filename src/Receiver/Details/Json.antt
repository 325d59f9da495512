-- ===== src/Receiver/Details/Json.antt =====
-- What `srtla_get_connection_details` (src/srtla/srtla_rec.c) writes into a buffer that is large
-- enough.
use pyle_irl.Base.{
  ℕ, suc, ◌+◌, ◌-◌, ◌<◌, ◌≡◌, sym, ap, subst, ◌∙◌, inl, inr, Bool, true, false, some, List, [], ◌∷◌,
  ◌++◌, map, append_assoc, arith, length, length-append, take_all, if◌then◌else◌, lt→ltb,
}
use pyle_irl.Receiver.Details.{
  AddrView, listening_ports, groups_with_port, has_room, while_room, addr_text, print_conns,
  print_group, print_groups, print_table, srtla_get_connection_details,
}
use pyle_irl.Receiver.Instances.{Table}
use pyle_irl.Receiver.State.{Conn, Group}
use pyle_irl.Text.{ascii, decimal, Write, print, ◌⨾◌}
use pyle_irl.Text.Groups.{Figures, group_head, open_details}
use pyle_irl.Text.Writing.{
  buffered, Writes, then-some, print-Writes, skip-Writes, listed, EachWrites, comma-Writes,
  print_items-Writes, nothing-buffered,
}
use pyle_irl.Wire.{Bytes}

-- The part writes these bytes where they leave room for a NUL.
pub record Fits (max_len : ℕ) (w : Write) (t : Bytes) : Type 0 where
  pub runs :
      (before : Bytes)
      → length (before ++ t) < max_len
      → w (buffered max_len before) ≡ some (buffered max_len (before ++ t))

Writes-Fits : {max_len : ℕ} {w : Write} {t : Bytes} → Writes max_len w t → Fits max_len w t
Writes-Fits h = record {
  runs = λ before room. elim (h.runs before) [
    | inl e ↦ e
    | inr (e, over) ↦ absurd (omega (arith, room, over))
  ];
}

then-Fits :
    {max_len : ℕ} {f g : Write} {s t : Bytes}
    → Fits max_len f s
    → Fits max_len g t
    → Fits max_len (f ⨾ g) (s ++ t)
then-Fits {max_len} {f} {g} {s} {t} hf hg = record {
  runs = λ before room.
      let room' : length (before ++ s ++ t) < max_len =
        subst (λ r. length r < max_len) (sym (append_assoc before s t)) room in
      then-some f g (buffered max_len before) (buffered max_len (before ++ s))
        (hf.runs before (omega (arith, length-append (before ++ s) t, room')))
      ∙ hg.runs (before ++ s) room'
      ∙ ap (λ r. some (buffered max_len r)) (append_assoc before s t);
}

-- The test of a loop holds where at least one byte more is to come.
while-Fits :
    {max_len : ℕ} {w : Write} {t : Bytes}
    → 0 < length t
    → Fits max_len w t
    → Fits max_len (while_room max_len w) t
while-Fits {max_len} {w} {t} some_byte h = record {
  runs = λ before room.
      let goes : has_room max_len (buffered max_len before) ≡ true =
        lt→ltb (length before + 1) max_len
          (omega (arith, length-append before t, some_byte, room)) in
      rw goes (h.runs before room);
}

-- The objects of the connections.
abbrev pub conns_text : AddrView → List Conn → Bytes
conns_text v [] = []
conns_text v (c ∷ []) = addr_text v c
conns_text v (c ∷ c' ∷ cs) = addr_text v c ++ (ascii "," ++ conns_text v (c' ∷ cs))

abbrev pub group_text : AddrView → Figures → ℕ × Group → Bytes
group_text v x (port, g) =
    group_head g.logical_group_id g.bytes_received port x ++ (conns_text v g.conns ++ ascii "]}")

-- The objects of the groups, each with the figures of its own call.
abbrev pub group_texts : AddrView → (ℕ → Figures) → ℕ → List (ℕ × Group) → List Bytes
group_texts v x k [] = []
group_texts v x k (pg ∷ pgs) = group_text v (x k) pg ∷ group_texts v x (suc k) pgs

-- The text without the closing brackets.
abbrev pub table_text : AddrView → (ℕ → Figures) → List ℕ → List (ℕ × Group) → Bytes
table_text v x ports pgs = open_details (map decimal ports) (group_texts v x 0 pgs)

addr_text-starts : (v : AddrView) (c : Conn) → 0 < length (addr_text v c)
unfolding ascii
addr_text-starts v c = omega arith

group_head-starts :
    (v : AddrView) (x : Figures) (port : ℕ) (g : Group) → 0 < length (group_text v x (port, g))
unfolding ascii
group_head-starts v x port g = omega arith

print_conns-Fits :
    (max_len : ℕ) (v : AddrView) (cs : List Conn)
    → Fits max_len (print_conns max_len v cs) (conns_text v cs)
unfolding print_conns
print_conns-Fits max_len v [] = Writes-Fits (skip-Writes max_len)
print_conns-Fits max_len v (c ∷ []) =
    while-Fits (addr_text-starts v c) (Writes-Fits (print-Writes max_len (addr_text v c)))
print_conns-Fits max_len v (c ∷ c' ∷ cs) =
    while-Fits
      (omega (
        arith,
        addr_text-starts v c,
        length-append (addr_text v c) (ascii "," ++ conns_text v (c' ∷ cs)),
      ))
      (then-Fits (Writes-Fits (print-Writes max_len (addr_text v c))) (
        then-Fits (Writes-Fits (print-Writes max_len (ascii ",")))
          (print_conns-Fits max_len v (c' ∷ cs))))

print_group-Fits :
    (max_len : ℕ) (v : AddrView) (x : Figures) (port : ℕ) (g : Group)
    → Fits max_len (print_group max_len v x (port, g)) (group_text v x (port, g))
unfolding print_group
print_group-Fits max_len v x port g =
    then-Fits
      (Writes-Fits (print-Writes max_len (group_head g.logical_group_id g.bytes_received port x)))
      (then-Fits (print_conns-Fits max_len v g.conns)
        (Writes-Fits (print-Writes max_len (ascii "]}"))))

print_groups-Fits :
    (max_len : ℕ) (v : AddrView) (x : ℕ → Figures) (k : ℕ) (first : Bool) (pgs : List (ℕ × Group))
    → Fits max_len (print_groups max_len v x k first pgs) (listed first (group_texts v x k pgs))
unfolding print_groups
print_groups-Fits max_len v x k first [] = Writes-Fits (skip-Writes max_len)
print_groups-Fits max_len v x k first ((port, g) ∷ pgs) =
    let comma = if first then [] else ascii "," in
    let rest = listed false (group_texts v x (suc k) pgs) in
    while-Fits
      (omega (
        arith,
        group_head-starts v (x k) port g,
        length-append comma (group_text v (x k) (port, g) ++ rest),
        length-append (group_text v (x k) (port, g)) rest,
      ))
      (then-Fits (Writes-Fits (comma-Writes max_len first)) (
        then-Fits (print_group-Fits max_len v (x k) port g)
          (print_groups-Fits max_len v x (suc k) false pgs)))

pub ports-EachWrites :
    (max_len : ℕ) (ports : List ℕ)
    → EachWrites max_len (map (λ port. print max_len (decimal port)) ports) (map decimal ports)
ports-EachWrites max_len [] = tt
ports-EachWrites max_len (port ∷ ports) =
    (print-Writes max_len (decimal port), ports-EachWrites max_len ports)

print_table-Fits :
    (max_len : ℕ) (v : AddrView) (x : ℕ → Figures) (ports : List ℕ) (pgs : List (ℕ × Group))
    → Fits max_len (print_table max_len v x ports pgs) (table_text v x ports pgs)
unfolding print_table
print_table-Fits max_len v x ports pgs =
    then-Fits (Writes-Fits (print-Writes max_len (ascii "{"))) (
      then-Fits (Writes-Fits (print-Writes max_len (ascii "\"ports\":["))) (
        then-Fits
          (Writes-Fits (
            print_items-Writes max_len true (map (λ port. print max_len (decimal port)) ports)
              (map decimal ports) (ports-EachWrites max_len ports)))
          (then-Fits (Writes-Fits (print-Writes max_len (ascii "],"))) (
            then-Fits (Writes-Fits (print-Writes max_len (ascii "\"groups\":[")))
              (print_groups-Fits max_len v x 0 true pgs)))))

-- In a buffer that has more bytes than the text, the text is whole: the ports of the contexts that
-- listen, and each group of each context with all its connections, and with the figures that its own
-- call of `srtla_get_external_stats` gave.
pub srtla_get_connection_details-table :
    (max_len : ℕ) (v : AddrView) (x : ℕ → Figures) (t : Table)
    → let text = table_text v x (listening_ports t) (groups_with_port t) ++ ascii "]}" in
      length text < max_len
      → (srtla_get_connection_details true max_len v x t).buffer
        ≡ some (record { text = text; offset = length text })
unfolding srtla_get_connection_details
srtla_get_connection_details-table max_len v x t room =
    let ports = listening_ports t in
    let pgs = groups_with_port t in
    let body = table_text v x ports pgs in
    let whole = print_table max_len v x ports pgs ⨾ print max_len (ascii "]}") in
    rw (lt→ltb 0 max_len (omega (arith, room))) (
      ap whole (nothing-buffered max_len)
      ∙ (then-Fits (print_table-Fits max_len v x ports pgs)
            (Writes-Fits (print-Writes max_len (ascii "]}")))).runs
          [] room
      ∙ ap (λ r. some (record { text = r; offset = length (body ++ ascii "]}") }))
          (take_all (max_len - 1) (body ++ ascii "]}") (omega (arith, room))))
