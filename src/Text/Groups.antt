-- ===== src/Text/Groups.antt =====
-- The formats for groups and connections that src/srtla/srtla_rec.c and src/rist_rec.c share.
use pyle_irl.Base.{ℕ, true, List, ◌++◌}
use pyle_irl.Text.{ascii, decimal}
use pyle_irl.Text.Writing.{listed}
use pyle_irl.Wire.{Bytes}

-- The figures of a group: the quality as `%.1f` prints it.
pub record Figures : Type 0 where
  pub quality : Bytes
  pub lost : ℕ
  pub retries : ℕ
  pub missing_queue : ℕ
  pub rtt : ℕ

abbrev pub group_head : ℕ → ℕ → ℕ → Figures → Bytes
group_head id bytes port x =
    ascii "{\"id\":"
    ++ decimal id
    ++ ascii ",\"bytes\":"
    ++ decimal bytes
    ++ ascii ",\"listen_port\":"
    ++ decimal port
    ++ ascii ",\"quality\":"
    ++ x.quality
    ++ ascii ",\"lost\":"
    ++ decimal x.lost
    ++ ascii ",\"retries\":"
    ++ decimal x.retries
    ++ ascii ",\"missing_queue\":"
    ++ decimal x.missing_queue
    ++ ascii ",\"rtt\":"
    ++ decimal x.rtt
    ++ ascii ",\"conns\":["

abbrev pub conn_text : Bytes → ℕ → ℕ → Bytes
conn_text ip port bytes =
    ascii "{\"ip\":\""
    ++ ip
    ++ ascii "\",\"port\":"
    ++ decimal port
    ++ ascii ",\"bytes\":"
    ++ decimal bytes
    ++ ascii "}"

-- The ports and the groups, without the closing brackets.
abbrev pub open_details : List Bytes → List Bytes → Bytes
open_details ports groups =
    ascii "{"
    ++ (ascii "\"ports\":["
        ++ (listed true ports ++ (ascii "]," ++ (ascii "\"groups\":[" ++ listed true groups))))
