-- ===== src/Text/Writing.antt =====
-- What the sequences of `snprintf` leave in a buffer.
use pyle_irl.Base.{
  ℕ, zero, suc, ◌-◌, ◌≤◌, ◌<◌, ◌≡◌, refl, sym, ap, ap₂, subst, ◌∙◌, ◌⊎◌, inl, inr, Bool, true,
  false, Option, none, some, List, [], ◌∷◌, ◌++◌, map, append-nil, append_assoc, arith, length,
  take, length-append, ltb, if◌then◌else◌, ltb→lt, lt→ltb, Bool-cases,
}
use pyle_irl.Text.{
  ascii, Written, Write, print, ◌⨾◌, print_items, nothing_written, has_buffer, into_buffer,
}
use pyle_irl.Wire.{Bytes}

-- The buffer when these bytes were written to it.
abbrev pub buffered : ℕ → Bytes → Written
buffered max_len t = record { text = take (max_len - 1) t; offset = length t }

-- The part writes these bytes, or it writes behind the end of the buffer, which the bytes exceed.
pub record Writes (max_len : ℕ) (w : Write) (t : Bytes) : Type 0 where
  pub runs :
      (before : Bytes)
      → (w (buffered max_len before) ≡ some (buffered max_len (before ++ t)))
        ⊎ ((w (buffered max_len before) ≡ none) × (max_len < length (before ++ t)))

take-pieces : (n : ℕ) (xs ys : Bytes) → take n xs ++ take (n - length xs) ys ≡ take n (xs ++ ys)
take-pieces zero xs ys = let e : zero - length xs ≡ zero = omega arith in ap (λ k. take k ys) e
take-pieces (suc n) [] ys = let e : suc n - 0 ≡ suc n = omega arith in ap (λ k. take k ys) e
take-pieces (suc n) (x ∷ xs) ys =
    let e : suc n - suc (length xs) ≡ n - length xs = omega arith in
    ap (λ k. x ∷ (take n xs ++ take k ys)) e ∙ ap (λ r. x ∷ r) (take-pieces n xs ys)

-- A piece goes behind what stands there already.
pub print-buffered :
    (max_len : ℕ) (piece before : Bytes)
    → length before ≤ max_len
    → print max_len piece (buffered max_len before) ≡ some (buffered max_len (before ++ piece))
unfolding print
print-buffered max_len piece before h =
    let fits : ltb max_len (length before) ≡ false = ground arith in
    rw (fits, print)
      (ap₂ (λ t n. some (record { text = t; offset = n })) (take-pieces (max_len - 1) before piece)
        (sym (length-append before piece)))

pub print-over :
    (max_len : ℕ) (piece : Bytes) (w : Written) → max_len < w.offset → print max_len piece w ≡ none
unfolding print
print-over max_len piece w h = rw (lt→ltb max_len w.offset h, print) refl

pub then-some : (f g : Write) (w w' : Written) → f w ≡ some w' → (f ⨾ g) w ≡ g w'
then-some f g w w' e = ap (λ o. elim o as (λ x. Option Written) [ none ↦ none | some v ↦ g v ]) e

pub then-none : (f g : Write) (w : Written) → f w ≡ none → (f ⨾ g) w ≡ none
then-none f g w e = ap (λ o. elim o as (λ x. Option Written) [ none ↦ none | some v ↦ g v ]) e

pub print-Writes : (max_len : ℕ) (piece : Bytes) → Writes max_len (print max_len piece) piece
print-Writes max_len piece = record {
  runs = λ before. elim (Bool-cases (ltb max_len (length before))) [
    | inl over ↦
        let h = ltb→lt max_len (length before) over in
        inr (
          print-over max_len piece (buffered max_len before) h,
          omega (arith, length-append before piece, h),
        )
    | inr fits ↦ inl (print-buffered max_len piece before (ground arith))
  ];
}

pub skip-Writes : (max_len : ℕ) → Writes max_len some []
skip-Writes max_len = record {
  runs = λ before. inl (ap (λ t. some (buffered max_len t)) (sym (append-nil before)));
}

pub then-Writes :
    {max_len : ℕ} {f g : Write} {s t : Bytes}
    → Writes max_len f s
    → Writes max_len g t
    → Writes max_len (f ⨾ g) (s ++ t)
then-Writes {max_len} {f} {g} {s} {t} hf hg = record {
  runs = λ before. elim (hf.runs before) [
    | inl e ↦
        let e1 = then-some f g (buffered max_len before) (buffered max_len (before ++ s)) e in
        elim (hg.runs (before ++ s)) [
          | inl e' ↦ inl (e1 ∙ e' ∙ ap (λ r. some (buffered max_len r)) (append_assoc before s t))
          | inr (e', over) ↦
              inr (e1 ∙ e', subst (λ r. max_len < length r) (append_assoc before s t) over)
        ]
    | inr (e, over) ↦ inr (
      then-none f g (buffered max_len before) e,
      omega (arith, length-append before s, length-append before (s ++ t), length-append s t, over),
    )
  ];
}

-- The entries' bytes, with commas between.
abbrev pub listed : Bool → List Bytes → Bytes
listed first [] = []
listed first (t ∷ ts) = (if first then [] else ascii ",") ++ (t ++ listed false ts)

-- Each entry writes its bytes.
abbrev pub EachWrites : ℕ → List Write → List Bytes → Type 0
EachWrites max_len [] [] = Unit
EachWrites max_len (w ∷ ws) (t ∷ ts) = Writes max_len w t × EachWrites max_len ws ts
EachWrites max_len _ _ = ⊥

pub comma-Writes :
    (max_len : ℕ) (first : Bool)
    → Writes max_len
        (if first then some else print max_len (ascii ","))
        (if first then [] else ascii ",")
comma-Writes max_len true = skip-Writes max_len
comma-Writes max_len false = print-Writes max_len (ascii ",")

pub print_items-Writes :
    (max_len : ℕ) (first : Bool) (ws : List Write) (ts : List Bytes)
    → EachWrites max_len ws ts
    → Writes max_len (print_items max_len first ws) (listed first ts)
unfolding print_items
print_items-Writes max_len first [] [] h = skip-Writes max_len
print_items-Writes max_len first (w ∷ ws) (t ∷ ts) (h, hs) =
    then-Writes (comma-Writes max_len first)
      (then-Writes h (print_items-Writes max_len false ws ts hs))
print_items-Writes max_len first [] (t ∷ ts) h = absurd h
print_items-Writes max_len first (w ∷ ws) [] h = absurd h

texts-EachWrites :
    (max_len : ℕ) (texts : List Bytes) → EachWrites max_len (map (print max_len) texts) texts
texts-EachWrites max_len [] = tt
texts-EachWrites max_len (t ∷ texts) = (print-Writes max_len t, texts-EachWrites max_len texts)

-- The loop over texts that are written as they are.
pub print_texts-Writes :
    (max_len : ℕ) (texts : List Bytes)
    → Writes max_len (print_items max_len true (map (print max_len) texts)) (listed true texts)
print_texts-Writes max_len texts =
    print_items-Writes max_len true (map (print max_len) texts) texts
      (texts-EachWrites max_len texts)

take-nil : (n : ℕ) → take {A = ℕ} n [] ≡ []
take-nil zero = refl
take-nil (suc n) = refl

pub nothing-buffered : (max_len : ℕ) → nothing_written ≡ buffered max_len []
nothing-buffered max_len = ap (λ t. record { text = t; offset = 0 }) (sym (take-nil (max_len - 1)))

-- A part and a last piece: the bytes that fit, unless those before the piece exceed the buffer.
pub close-Writes :
    (max_len : ℕ) (w : Write) (t last : Bytes)
    → Writes max_len w t
    → (w ⨾ print max_len last) nothing_written
      ≡ (if ltb max_len (length t) then none else some (buffered max_len (t ++ last)))
close-Writes max_len w t last h =
    ap (w ⨾ print max_len last) (nothing-buffered max_len) ∙ elim (h.runs []) [
      | inl e ↦
          then-some w (print max_len last) (buffered max_len []) (buffered max_len t) e
          ∙ elim (Bool-cases (ltb max_len (length t))) [
            | inl over ↦
                rw over
                  (print-over max_len last (buffered max_len t) (ltb→lt max_len (length t) over))
            | inr fits ↦ rw fits (print-buffered max_len last t (ground arith))
          ]
      | inr (e, over) ↦
          rw (lt→ltb max_len (length t) over)
            (then-none w (print max_len last) (buffered max_len []) e)
    ]

-- What a function with the guard leaves in the buffer.
abbrev pub guarded : Bool → ℕ → Bytes → Bytes → Option Written
guarded out_buffer max_len body last =
    if has_buffer out_buffer max_len
    then (if ltb max_len (length body) then none else some (buffered max_len (body ++ last)))
    else some nothing_written

pub into_buffer-Writes :
    (out_buffer : Bool) (max_len : ℕ) (w : Write) (t last : Bytes)
    → Writes max_len w t
    → into_buffer out_buffer max_len (w ⨾ print max_len last) ≡ guarded out_buffer max_len t last
into_buffer-Writes out_buffer max_len w t last h =
    ap (λ o. if has_buffer out_buffer max_len then o else some nothing_written)
      (close-Writes max_len w t last h)
