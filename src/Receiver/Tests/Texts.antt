-- ===== src/Receiver/Tests/Texts.antt =====
-- Runs of `srtla_get_connection_details` of src/srtla/srtla_rec.c, and of what prints its numbers.
use pyle_irl.Base.{ℕ, ◌≡◌, refl, true, none, some, [], ◌∷◌, ◌++◌, arith, length}
use pyle_irl.Base.Int.{pos}
use pyle_irl.Receiver.Details.{
  AddrView, print_addr, port_no, listening_ports, groups_with_port, srtla_get_connection_details,
}
use pyle_irl.Receiver.Details.Json.{group_text, table_text, srtla_get_connection_details-table}
use pyle_irl.Receiver.Details.Overflow.{before_groups, srtla_get_connection_details-overflow}
use pyle_irl.Receiver.Instances.{Table, new_ctx}
use pyle_irl.Receiver.State.{linux, zeroed_conn, active, Group}
use pyle_irl.Text.{ascii, digits, decimal}
use pyle_irl.Text.Groups.{Figures}
use pyle_irl.Wire.{Bytes}

abbrev plain_view : AddrView
plain_view = record {
  sa_family = λ addr. 2;
  af_inet = 2;
  af_inet6 = 10;
  inet_ntop = λ addr. ascii "10.0.0.1";
}

abbrev no_figures : Figures
no_figures = record { quality = ascii "100.0"; lost = 0; retries = 0; missing_queue = 0; rtt = 20 }

-- The answers of `srtla_get_external_stats`, one call after the other.
abbrev stats_answers : ℕ → Figures
stats_answers k = record no_figures { lost = k }

abbrev shown_group : Group
shown_group = record {
  node = 16;
  conns = record zeroed_conn { addr = 2 ∷ 0 ∷ 19 ∷ 136 ∷ []; bytes_received = 900 } ∷ [];
  created_at = 0;
  srt_sock = none;
  last_addr = [];
  id = [];
  logical_group_id = 1;
  state = active;
  next_srt_retry_ms = 0;
  srt_retry_attempts = 0;
  bytes_received = 900;
}

abbrev shown_table : Table
shown_table =
    none
    ∷ some (record (new_ctx linux 5000) {
      groups = shown_group ∷ [];
      group_count = pos 1;
      is_listening = true;
    })
    ∷ []

-- The text has 183 bytes.
abbrev shown_text : Bytes
shown_text =
    table_text plain_view stats_answers (listening_ports shown_table) (groups_with_port shown_table)
    ++ ascii "]}"

shown_text-length : length shown_text ≡ 183
unfolding ascii digits listening_ports groups_with_port port_no print_addr
shown_text-length = refl

srtla_get_connection_details-table_example :
    (srtla_get_connection_details true 256 plain_view stats_answers shown_table).buffer
    ≡ some (record { text = shown_text; offset = length shown_text })
srtla_get_connection_details-table_example =
    srtla_get_connection_details-table 256 plain_view stats_answers shown_table
      (omega (arith, shown_text-length))

one_group : groups_with_port shown_table ≡ (5000, shown_group) ∷ []
unfolding groups_with_port
one_group = refl

before-length : before_groups (listening_ports shown_table) ≡ 26
unfolding ascii digits listening_ports
before-length = refl

group-length : length (group_text plain_view no_figures (5000, shown_group)) ≡ 155
unfolding ascii digits port_no print_addr
group-length = refl

srtla_get_connection_details-overflow_example :
    (srtla_get_connection_details true 100 plain_view stats_answers shown_table).buffer ≡ none
srtla_get_connection_details-overflow_example =
    srtla_get_connection_details-overflow 100 plain_view stats_answers shown_table 5000 shown_group
      one_group (omega (arith, before-length)) (omega (arith, before-length, group-length))

-- The digits of 305.
digits_of_305 : decimal 305 ≡ ascii "305"
unfolding digits ascii
digits_of_305 = refl
