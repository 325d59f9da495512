-- ===== src/Sender/Sockets.antt =====
-- The sockets of the links (src/srtla/srtla_send.c).
use pyle_irl.Base.{ℕ, suc, Bool, true, false, none, some, List, [], ◌∷◌, ◌==◌, if◌then◌else◌}
use pyle_irl.Sender.State.{Link, Action, close_fd}

-- How an attempt to open a socket goes: none is made; one is made, but it cannot be set up or bound
-- and is closed; or it is ready.
pub data Opening : Type 0 where
  not_made : Opening
  refused : ℕ → Opening
  opened : ℕ → Opening

unfoldable pub remove_active_fd : ℕ → List ℕ → List ℕ
remove_active_fd fd [] = []
remove_active_fd fd (x ∷ xs) =
    let rest = remove_active_fd fd xs in if x == fd then rest else x ∷ rest

-- A link with the set of active descriptors and what was done, latest first.
pub record Opened : Type 0 where
  pub link : Link
  pub fds : List ℕ
  pub actions : List Action

-- The descriptor that the link has is closed first.
unfoldable pub close_link : List ℕ → Link → Opened
unfolding remove_active_fd
close_link fds c = elim c.fd [
  | none ↦ record { link = c; fds = fds; actions = [] }
  | some fd ↦ record {
    link = record c { fd = none };
    fds = remove_active_fd fd fds;
    actions = close_fd fd ∷ [];
  }
]

unfoldable pub open_socket : Opening → List ℕ → Link → Opened
unfolding close_link
open_socket not_made fds c = close_link fds c
open_socket (refused fd) fds c =
    let r = close_link fds c in record r { actions = close_fd fd ∷ r.actions }
open_socket (opened fd) fds c =
    let r = close_link fds c in record r { link = record r.link { fd = some fd }; fds = fd ∷ r.fds }

abbrev pub is_opened : Opening → Bool
is_opened (opened fd) = true
is_opened _ = false

-- The loop of `open_conns`, with the number of links opened so far.
unfoldable pub open_links : (ℕ → Opening) → ℕ → List Link → List ℕ → List Link × List ℕ × ℕ
unfolding open_socket
open_links opens i [] fds = ([], fds, 0)
open_links opens i (c ∷ cs) fds =
    let r = open_socket (opens i) fds c in
    let (rest, fds', n) = open_links opens (suc i) cs r.fds in
    (r.link ∷ rest, fds', if is_opened (opens i) then suc n else n)
