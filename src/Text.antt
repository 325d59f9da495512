-- ===== src/Text.antt =====
-- The texts that src/srtla-source.c, src/rist-source.c, src/srtla/srtla_rec.c and src/rist_rec.c
-- write with `offset += snprintf(out_buffer + offset, max_len - offset, ...)`.
pub mod Writing
pub mod Decimal
pub mod Groups
use Prim.Native.Char.{code}
use Prim.Native.String.{String}
use pyle_irl.Base.{
  ℕ, zero, suc, ◌+◌, ◌-◌, ◌/◌, ◌%◌, Bool, true, false, ◌&&◌, Option, none, some, List, [], ◌∷◌,
  ◌++◌, length, take, ltb, ◌==◌, if◌then◌else◌,
}
use pyle_irl.Wire.{Bytes}

-- The bytes of a literal.
unfoldable pub ascii : String → Bytes
ascii String.[] = []
ascii (String.◌∷◌ c s) = code c ∷ ascii s

-- `%d`, `%u` and `%llu` of a number that is not negative: its digits before those of `rest`. The first
-- argument is fuel.
unfoldable pub digits : ℕ → ℕ → Bytes → Bytes
digits zero n rest = rest
digits (suc fuel) n rest =
    let shown = (48 + n % 10) ∷ rest in
    let more = digits fuel (n / 10) shown in if n / 10 == 0 then shown else more

-- 20 digits are enough for a `uint64_t`.
abbrev pub decimal : ℕ → Bytes
decimal n = digits 20 n []

abbrev pub truth : Bool → Bytes
truth true = ascii "true"
truth false = ascii "false"

-- The buffer up to its NUL, and `offset`.
pub record Written : Type 0 where
  pub text : Bytes
  pub offset : ℕ

-- A part of the code that writes; `none` is a write behind the end of the buffer.
abbrev pub Write : Type 0
Write = Written → Option Written

-- `offset += snprintf(out_buffer + offset, max_len - offset, ...)`: what does not fit is cut off, but
-- counted. With an offset behind the end `max_len - offset` is negative, which as a `size_t` allows
-- any length.
unfoldable pub print : ℕ → Bytes → Write
print max_len piece w =
    if ltb max_len w.offset
    then none
    else some (record {
      text = w.text ++ take (max_len - 1 - w.offset) piece;
      offset = w.offset + length piece;
    })

infixr 30 ◌⨾◌
abbrev pub ◌⨾◌ : Write → Write → Write
(f ⨾ g) w = elim (f w) [ none ↦ none | some w' ↦ g w' ]

-- A loop with a flag `first`: a comma before each entry but the first.
unfoldable pub print_items : ℕ → Bool → List Write → Write
print_items max_len first [] = some
print_items max_len first (item ∷ items) =
    (if first then some else print max_len (ascii ",")) ⨾ item ⨾ print_items max_len false items

-- An empty buffer.
abbrev pub nothing_written : Written
nothing_written = record { text = []; offset = 0 }

-- `if (out_buffer && max_len > 0)`: elsewhere nothing is written. A `max_len` of 0 stands for the
-- negative ones too.
abbrev pub has_buffer : Bool → ℕ → Bool
has_buffer out_buffer max_len = out_buffer && ltb 0 max_len

abbrev pub into_buffer : Bool → ℕ → Write → Option Written
into_buffer out_buffer max_len w =
    if has_buffer out_buffer max_len then w nothing_written else some nothing_written
