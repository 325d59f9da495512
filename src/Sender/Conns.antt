-- ===== src/Sender/Conns.antt =====
-- The list of links, as the file of source addresses has it (src/srtla/srtla_send.c).
use pyle_irl.Base.{
  ℕ, suc, ◌+◌, true, false, Option, none, some, List, [], ◌∷◌, ◌++◌, map, modify, if◌then◌else◌,
}
use pyle_irl.Sender.Sockets.{close_link}
use pyle_irl.Sender.State.{Link, new_link, Action, Sender, is_pending}
use pyle_irl.Wire.{Bytes, same_text}

-- A line of the file: the memory for a link, and the address that `parse_ip` finds, if it does.
pub record Line : Type 0 where
  pub node : ℕ
  pub address : Option Bytes

unfoldable pub conn_find_by_src : Bytes → List Link → Option ℕ
conn_find_by_src src [] = none
conn_find_by_src src (c ∷ cs) =
    let rest = conn_find_by_src src cs in
    if same_text src c.src then some 0 else elim rest [ none ↦ none | some i ↦ some (suc i) ]

unfoldable pub setup_line : Line → List Link → List Link × ℕ
unfolding conn_find_by_src
setup_line l cs = elim l.address [
  | none ↦ (cs, 0)
  | some src ↦ elim (conn_find_by_src src cs) [
    | none ↦ (new_link l.node src ∷ cs, 1)
    | some i ↦ (modify i (λ c. record c { removed = false }) cs, 0)
  ]
]

-- The links, and how many were added.
unfoldable pub setup_conns : List Line → List Link → List Link × ℕ
unfolding setup_line
setup_conns [] cs = (cs, 0)
setup_conns (l ∷ ls) cs =
    let (cs', n) = setup_line l cs in let (cs'', m) = setup_conns ls cs' in (cs'', n + m)

abbrev pub mark_removed : List Link → List Link
mark_removed = map (λ (c : Link). record c { removed = true })

-- What the loop over the links leaves.
pub record Pruned : Type 0 where
  pub links : List Link
  pub pending_conn : Option ℕ
  pub fds : List ℕ
  pub actions : List Action

unfoldable pub prune : List Link → Option ℕ → List ℕ → List Action → Pruned
unfolding close_link
prune [] wait fds actions = record { links = []; pending_conn = wait; fds = fds; actions = actions }
prune (c ∷ cs) wait fds actions =
    let r = close_link fds c in
    let wait' = if is_pending wait c then none else wait in
    let gone = prune cs wait' r.fds (r.actions ++ actions) in
    let rest = prune cs wait fds actions in
    if c.removed then gone else record rest { links = c ∷ rest.links }

unfoldable pub update_conns : List Line → Sender → Sender
unfolding setup_conns prune
update_conns ls s =
    let r =
      prune (setup_conns ls (mark_removed s.links)).0 s.pending_reg2_conn s.active_fds s.actions in
    record s {
      links = r.links;
      pending_reg2_conn = r.pending_conn;
      active_fds = r.fds;
      actions = r.actions;
    }
