-- ===== src/Rist/Main/Release.antt =====
-- What `rist_rec_main` (src/rist_rec.c) leaves behind.
use pyle_irl.Base.{◌≡◌, ◌⊎◌, Bool, true, false, ◌&&◌, not}
use pyle_irl.Rist.Main.{LibristAnswers}

-- The answers that let the loop begin.
abbrev pub AllWell : LibristAnswers → Type 0
AllWell a =
    ((a.on_windows ≡ false) ⊎ (a.winsock_started ≡ true))
    × (a.udp_socket_opened ≡ true)
    × (a.logging_set ≡ true)
    × (a.receiver_created ≡ true)
    × (a.address_parsed ≡ true)
    × (a.peer_created ≡ true)
    × (a.receiver_started ≡ true)

-- Winsock was started, and then there was no socket.
abbrev pub leaves_winsock : LibristAnswers → Bool
leaves_winsock a = a.on_windows && a.winsock_started && not a.udp_socket_opened
