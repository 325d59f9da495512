-- ===== src/Receiver/Details/Overflow.antt =====
-- What `srtla_get_connection_details` (src/srtla/srtla_rec.c) does when the buffer is too small for a
-- group: its two loops end when the buffer is full, but the closing brackets are still written.
use pyle_irl.Base.{
  ℕ, ◌+◌, ◌-◌, ◌≤◌, ◌<◌, ◌≡◌, refl, sym, ap, subst, ◌∙◌, ◌⊎◌, inl, inr, true, Option, none, some,
  List, [], ◌∷◌, ◌++◌, map, append_assoc, arith, length, take, length-append, ltb, lt→ltb,
  Bool-cases,
}
use pyle_irl.Receiver.Details.{
  AddrView, listening_ports, groups_with_port, has_room, while_room, addr_text, print_conns,
  print_group, print_groups, print_table, srtla_get_connection_details,
}
use pyle_irl.Receiver.Details.Json.{conns_text, group_text, ports-EachWrites}
use pyle_irl.Receiver.Instances.{Table}
use pyle_irl.Receiver.State.{Conn, Group}
use pyle_irl.Text.{ascii, decimal, Written, Write, print, ◌⨾◌, nothing_written}
use pyle_irl.Text.Groups.{Figures, group_head}
use pyle_irl.Text.Writing.{
  buffered, Writes, print-over, then-some, then-none, print-Writes, skip-Writes, listed,
  print_items-Writes, nothing-buffered,
}
use pyle_irl.Wire.{Bytes}

-- From here on the code writes behind the end of the buffer, or leaves an offset behind it.
abbrev Overruns : ℕ → Option Written → Type 0
Overruns max_len o = (o ≡ none) ⊎ ((w : Written) × (o ≡ some w) × (max_len < w.offset))

-- The part fails, or writes all of its bytes, or leaves room for no more than the NUL.
record Reaches (max_len : ℕ) (w : Write) (t : Bytes) : Type 0 where
  runs :
      (before : Bytes)
      → (w (buffered max_len before) ≡ none)
        ⊎ (w (buffered max_len before) ≡ some (buffered max_len (before ++ t)))
        ⊎ ((w' : Written) × (w (buffered max_len before) ≡ some w') × (max_len ≤ w'.offset + 1))

Writes-Reaches : {max_len : ℕ} {w : Write} {t : Bytes} → Writes max_len w t → Reaches max_len w t
Writes-Reaches h = record {
  runs = λ before. elim (h.runs before) [ inl e ↦ inr (inl e) | inr (e, over) ↦ inl e ];
}

while-Reaches :
    {max_len : ℕ} {w : Write} {t : Bytes}
    → Reaches max_len w t
    → Reaches max_len (while_room max_len w) t
while-Reaches {max_len} {w} {t} h = record {
  runs = λ before. elim (Bool-cases (has_room max_len (buffered max_len before))) [
    | inl goes ↦ rw goes (h.runs before)
    | inr stops ↦ rw stops (inr (inr (buffered max_len before, refl, ground (arith, stops))))
  ];
}

then-Reaches :
    {max_len : ℕ} {f g : Write} {s t : Bytes}
    → Writes max_len f s
    → Reaches max_len g t
    → Reaches max_len (f ⨾ g) (s ++ t)
then-Reaches {max_len} {f} {g} {s} {t} hf hg = record {
  runs = λ before. elim (hf.runs before) [
    | inl e ↦
        let e1 = then-some f g (buffered max_len before) (buffered max_len (before ++ s)) e in
        elim (hg.runs (before ++ s)) [
          | inl e' ↦ inl (e1 ∙ e')
          | inr (inl e') ↦
              inr (inl (e1 ∙ e' ∙ ap (λ r. some (buffered max_len r)) (append_assoc before s t)))
          | inr (inr (w', e', few)) ↦ inr (inr (w', e1 ∙ e', few))
        ]
    | inr (e, over) ↦ inl (then-none f g (buffered max_len before) e)
  ];
}

print_conns-Reaches :
    (max_len : ℕ) (v : AddrView) (cs : List Conn)
    → Reaches max_len (print_conns max_len v cs) (conns_text v cs)
unfolding print_conns
print_conns-Reaches max_len v [] = Writes-Reaches (skip-Writes max_len)
print_conns-Reaches max_len v (c ∷ []) =
    while-Reaches (Writes-Reaches (print-Writes max_len (addr_text v c)))
print_conns-Reaches max_len v (c ∷ c' ∷ cs) = while-Reaches (
    then-Reaches (print-Writes max_len (addr_text v c))
      (then-Reaches (print-Writes max_len (ascii ",")) (print_conns-Reaches max_len v (c' ∷ cs))))

print-offset :
    (max_len : ℕ) (piece : Bytes) (w : Written)
    → (print max_len piece w ≡ none)
      ⊎ ((w' : Written) × (print max_len piece w ≡ some w') × (w'.offset ≡ w.offset + length piece))
unfolding print
print-offset max_len piece w = elim (Bool-cases (ltb max_len w.offset)) [
  | inl over ↦ inl (rw (over, print) refl)
  | inr fits ↦ inr (
    record {
      text = w.text ++ take (max_len - 1 - w.offset) piece;
      offset = w.offset + length piece;
    },
    rw (fits, print) refl,
    refl,
  )
]

-- With room after the first `m` bytes, and `m + n` bytes that exceed the buffer, the part overruns.
record Exceeds (max_len : ℕ) (w : Write) (m n : ℕ) : Type 0 where
  runs :
      (before : Bytes)
      → length before + m + 1 < max_len
      → max_len < length before + m + n
      → Overruns max_len (w (buffered max_len before))

then-Exceeds :
    {max_len m n : ℕ} {f g : Write} {s : Bytes}
    → Writes max_len f s
    → Exceeds max_len g m n
    → Exceeds max_len (f ⨾ g) (length s + m) n
then-Exceeds {max_len} {m} {n} {f} {g} {s} hf hg = record {
  runs = λ before room over. elim (hf.runs before) [
    | inl e ↦
        subst (Overruns max_len)
          (sym (then-some f g (buffered max_len before) (buffered max_len (before ++ s)) e))
          (hg.runs (before ++ s) (omega (arith, length-append before s, room))
            (omega (arith, length-append before s, over)))
    | inr (e, much) ↦ inl (then-none f g (buffered max_len before) e)
  ];
}

brackets-Overruns :
    (max_len : ℕ) (w : Write) (t before : Bytes)
    → Reaches max_len w t
    → max_len < length (before ++ (t ++ ascii "]}"))
    → Overruns max_len ((w ⨾ print max_len (ascii "]}")) (buffered max_len before))
unfolding ascii
brackets-Overruns max_len w t before h over =
    let last = print max_len (ascii "]}") in
    elim (h.runs before) [
      | inl e ↦ inl (then-none w last (buffered max_len before) e)
      | inr (inl e) ↦
          let e1 = then-some w last (buffered max_len before) (buffered max_len (before ++ t)) e in
          elim (print-offset max_len (ascii "]}") (buffered max_len (before ++ t))) [
            | inl e' ↦ inl (e1 ∙ e')
            | inr (w', e', n) ↦ inr (
              w',
              e1 ∙ e',
              omega (
                arith,
                n,
                over,
                length-append before t,
                length-append before (t ++ ascii "]}"),
                length-append t (ascii "]}"),
              ),
            )
          ]
      | inr (inr (v, e, few)) ↦
          let e1 = then-some w last (buffered max_len before) v e in
          elim (print-offset max_len (ascii "]}") v) [
            | inl e' ↦ inl (e1 ∙ e')
            | inr (w', e', n) ↦ inr (w', e1 ∙ e', omega (arith, n, few))
          ]
    ]

print_group-Overruns :
    (max_len : ℕ) (v : AddrView) (x : Figures) (port : ℕ) (g : Group) (before : Bytes)
    → max_len < length (before ++ group_text v x (port, g))
    → Overruns max_len (print_group max_len v x (port, g) (buffered max_len before))
unfolding print_group
print_group-Overruns max_len v x port g before over =
    let head = group_head g.logical_group_id g.bytes_received port x in
    let rest = print_conns max_len v g.conns ⨾ print max_len (ascii "]}") in
    elim ((print-Writes max_len head).runs before) [
      | inl e ↦
          subst (Overruns max_len)
            (sym (
              then-some (print max_len head) rest (buffered max_len before)
                (buffered max_len (before ++ head)) e))
            (brackets-Overruns max_len (print_conns max_len v g.conns) (conns_text v g.conns)
              (before ++ head) (print_conns-Reaches max_len v g.conns)
              (subst (λ r. max_len < length r)
                (sym (append_assoc before head (conns_text v g.conns ++ ascii "]}"))) over))
      | inr (e, much) ↦ inl (then-none (print max_len head) rest (buffered max_len before) e)
    ]

then-skip : (f : Write) (w : Written) → (f ⨾ some) w ≡ f w
then-skip f w =
    elim (f w) as (λ o. (elim o as (λ x. Option Written) [ none ↦ none | some w' ↦ some w' ]) ≡ o) [
      | none ↦ refl
      | some w' ↦ refl
    ]

print_groups-Exceeds :
    (max_len : ℕ) (v : AddrView) (x : ℕ → Figures) (port : ℕ) (g : Group)
    → Exceeds max_len
        (print_groups max_len v x 0 true ((port, g) ∷ []))
        0
        (length (group_text v (x 0) (port, g)))
unfolding print_groups
print_groups-Exceeds max_len v x port g = record {
  runs = λ before room over.
      let goes : has_room max_len (buffered max_len before) ≡ true =
        lt→ltb (length before + 1) max_len (omega (arith, room)) in
      rw goes (
        subst (Overruns max_len)
          (sym (then-skip (print_group max_len v (x 0) (port, g)) (buffered max_len before)))
          (print_group-Overruns max_len v (x 0) port g before
            (omega (arith, length-append before (group_text v (x 0) (port, g)), over))));
}

-- The bytes before the groups.
abbrev pub before_groups : List ℕ → ℕ
before_groups ports =
    length (ascii "{")
    + (length (ascii "\"ports\":[")
        + (length (listed true (map decimal ports))
            + (length (ascii "],") + (length (ascii "\"groups\":[") + 0))))

print_table-Exceeds :
    (max_len : ℕ) (v : AddrView) (x : ℕ → Figures) (ports : List ℕ) (port : ℕ) (g : Group)
    → Exceeds max_len
        (print_table max_len v x ports ((port, g) ∷ []))
        (before_groups ports)
        (length (group_text v (x 0) (port, g)))
unfolding print_table
print_table-Exceeds max_len v x ports port g = then-Exceeds (print-Writes max_len (ascii "{")) (
    then-Exceeds (print-Writes max_len (ascii "\"ports\":[")) (
      then-Exceeds
        (print_items-Writes max_len true (map (λ port. print max_len (decimal port)) ports)
          (map decimal ports) (ports-EachWrites max_len ports))
        (then-Exceeds (print-Writes max_len (ascii "],")) (
          then-Exceeds (print-Writes max_len (ascii "\"groups\":["))
            (print_groups-Exceeds max_len v x port g)))))

-- With one group, whose object begins in the buffer but does not end in it, the code writes behind the
-- end of the buffer.
pub srtla_get_connection_details-overflow :
    (max_len : ℕ) (v : AddrView) (x : ℕ → Figures) (t : Table) (port : ℕ) (g : Group)
    → groups_with_port t ≡ (port, g) ∷ []
    → before_groups (listening_ports t) + 1 < max_len
    → max_len < before_groups (listening_ports t) + length (group_text v (x 0) (port, g))
    → (srtla_get_connection_details true max_len v x t).buffer ≡ none
unfolding srtla_get_connection_details
srtla_get_connection_details-overflow max_len v x t port g one room over =
    let ports = listening_ports t in
    let w = print_table max_len v x ports ((port, g) ∷ []) in
    let last = print max_len (ascii "]}") in
    rw (lt→ltb 0 max_len (omega (arith, room))) (
      ap (λ pgs. (print_table max_len v x ports pgs ⨾ last) nothing_written) one
      ∙ ap (w ⨾ last) (nothing-buffered max_len)
      ∙ elim ((print_table-Exceeds max_len v x ports port g).runs [] (omega (arith, room))
          (omega (arith, over))) [
            | inl e ↦ then-none w last (buffered max_len []) e
            | inr (w', e, behind) ↦
                then-some w last (buffered max_len []) w' e
                ∙ print-over max_len (ascii "]}") w' behind
          ])
