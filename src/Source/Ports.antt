-- ===== src/Source/Ports.antt =====
-- The choice of a port in `srtla_source_update` (src/srtla-source.c).
pub mod Search
use pyle_irl.Base.{
  ℕ, zero, suc, Bool, false, ◌||◌, Option, none, some, List, [], ◌∷◌, length, ◌==◌, if◌then◌else◌,
}
use pyle_irl.Source.{Source}

-- The loop over the list, for the sources other than the one that is updated.
unfoldable pub has_port : ℕ → List Source → Bool
has_port port [] = false
has_port port (s ∷ ss) = let rest = has_port port ss in s.listen_port == port || rest

-- `while (true)`, on fuel: `none` is a search that has not ended.
unfoldable pub search_port : ℕ → ℕ → List Source → Option ℕ
search_port zero port others = none
search_port (suc n) port others =
    let rest = search_port n (suc port) others in if has_port port others then rest else some port

-- The port that the source is to have, where the settings ask for `asked`.
unfoldable pub choose_port : ℕ → Source → List Source → Option ℕ
choose_port asked s others =
    if s.listen_port == 0
    then search_port (suc (length others)) (if asked == 0 then 5000 else asked) others
    else if has_port asked others
    then some s.listen_port
    else some asked
