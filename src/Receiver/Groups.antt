-- ===== src/Receiver/Groups.antt =====
-- The group functions of src/srtla/srtla_rec.c. A pointer into the lists is an index here.
pub mod Destroy
pub mod Lookup
use pyle_irl.Base.{
  ℕ, suc, ◌/◌, Option, none, some, List, [], ◌∷◌, ◌++◌, length, get_elem?, take, remove_at,
  if◌then◌else◌,
}
use pyle_irl.Base.Int.{pos, ◌-ℤ◌}
use pyle_irl.Receiver.Compare.{same}
use pyle_irl.Receiver.State.{
  addr_len, Platform, windows, Conn, active, Group, Ctx, release_sock, add64,
}
use pyle_irl.Wire.{Bytes, srtla_id_len}

unfoldable pub group_find_by_id : Bytes → List Group → Option ℕ
group_find_by_id id [] = none
group_find_by_id id (g ∷ gs) =
    if same g.id id srtla_id_len
    then some 0
    else elim (group_find_by_id id gs) [ some i ↦ some (suc i) | none ↦ none ]

-- What `group_find_by_addr` finds: 1 with a group and a connection, 0 with a group, or -1.
pub data Found : Type 0 where
  member : ℕ → ℕ → Found
  peer : ℕ → Found
  nobody : Found

-- The loop over `g->conns`.
unfoldable pub conn_find : Bytes → List Conn → Option ℕ
conn_find addr [] = none
conn_find addr (c ∷ cs) =
    if same c.addr addr addr_len
    then some 0
    else elim (conn_find addr cs) [ some i ↦ some (suc i) | none ↦ none ]

abbrev pub next_group : Found → Found
next_group (member gi ci) = member (suc gi) ci
next_group (peer gi) = peer (suc gi)
next_group nobody = nobody

unfoldable pub group_find_by_addr : Bytes → List Group → Found
group_find_by_addr addr [] = nobody
group_find_by_addr addr (g ∷ gs) = elim (conn_find addr g.conns) [
  | some ci ↦ member 0 ci
  | none ↦
      if same g.last_addr addr addr_len then peer 0 else next_group (group_find_by_addr addr gs)
]

-- The `do … while` that draws the second half of the id: each draw is a block of random bytes, and
-- a read that fails is the end of the draws.
unfoldable pub draw_id : Bytes → List Bytes → List Group → Option Bytes
draw_id half [] gs = none
draw_id half (r ∷ rs) gs =
    let id = half ++ r in
    elim (group_find_by_id id gs) [ none ↦ some id | some _ ↦ draw_id half rs gs ]

-- What both `group_create` functions write into the memory that `malloc` returned, whose other
-- fields (`last_addr`, `bytes_received`) stay as they were.
abbrev pub fresh_group : Group → Bytes → ℕ → ℕ → Group
fresh_group raw id ts seq = record raw {
  id = id;
  conns = [];
  srt_sock = none;
  logical_group_id = seq;
  state = active;
  next_srt_retry_ms = 0;
  srt_retry_attempts = 0;
  created_at = ts;
}

-- The group goes to the head of the list, and `global_group_seq++` gives its number.
abbrev pub init_group : Group → Bytes → ℕ → Ctx → Ctx
init_group raw id ts c = record c {
  groups = fresh_group raw id ts c.group_seq ∷ c.groups;
  group_seq = add64 c.group_seq 1;
}

-- `none` is the NULL that the function returns, with the context as it was.
unfoldable pub group_create : Option Group → List Bytes → Bytes → ℕ → Ctx → Option Ctx
unfolding draw_id
group_create memory draws sender_id ts c =
    elim (draw_id (take (srtla_id_len / 2) sender_id) draws c.groups) [
      | none ↦ none
      | some id ↦ elim memory [ none ↦ none | some raw ↦ some (init_group raw id ts c) ]
    ]

unfoldable pub group_create_full : Option Group → Bytes → ℕ → Ctx → Option Ctx
group_create_full memory id ts c = elim (group_find_by_id id c.groups) [
  | some _ ↦ none
  | none ↦ elim memory [ none ↦ none | some raw ↦ some (init_group raw id ts c) ]
]

-- `InterlockedDecrement` and `InterlockedIncrement` are Windows code.
abbrev pub counted : Platform → ℕ → ℕ
counted windows n = n
counted _ n = 0

-- Both ways to unlink the group, by `prev_link` or by a search, take it out of the list.
unfoldable pub group_destroy : ℕ → Ctx → Ctx
group_destroy i c = elim (get_elem? c.groups i) [
  | none ↦ c
  | some g ↦ record c {
    groups = remove_at i c.groups;
    group_count = c.group_count -ℤ pos 1;
    active_connections = c.active_connections -ℤ pos (counted c.platform (length g.conns));
    calls = release_sock c.platform g.srt_sock ++ c.calls;
  }
]
