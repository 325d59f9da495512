-- ===== src/Receiver/Out.antt =====
-- How the handlers of src/srtla/srtla_rec.c work on one group: on its struct, by a pointer that stays
-- good until the handler destroys the group.
use pyle_irl.Base.{ℕ, ◌+◌, Bool, true, false, List, ◌++◌, set, if◌then◌else◌}
use pyle_irl.Base.Int.{pos, ◌-ℤ◌}
use pyle_irl.Receiver.Groups.{counted, group_destroy}
use pyle_irl.Receiver.State.{Group, Call, Ctx}

-- The group as it is left, the calls made (latest first), how many connections were dropped as
-- dead, and whether the group stays or is destroyed.
pub record Out : Type 0 where
  pub group : Group
  pub calls : List Call
  pub dropped : ℕ
  pub stays : Bool

abbrev pub keep : Group → List Call → Out
keep g calls = record { group = g; calls = calls; dropped = 0; stays = true }

-- `if (flag_auto_reconnect) { … } else group_destroy(g, NULL)`, where the first branch leaves
-- `waiting`.
abbrev pub wait_or_destroy : Bool → Group → Group → List Call → Out
wait_or_destroy auto g waiting calls =
    if auto
    then keep waiting calls
    else record { group = g; calls = calls; dropped = 0; stays = false }

-- Puts the outcome for the group at `gi` into the context.
unfoldable pub commit : ℕ → Out → Ctx → Ctx
commit gi out c =
    let c' = record c {
      groups = set c.groups gi out.group;
      active_connections = c.active_connections -ℤ pos (counted c.platform out.dropped);
      failed_connections = c.failed_connections + counted c.platform out.dropped;
      calls = out.calls ++ c.calls;
    } in
    if out.stays then c' else group_destroy gi c'
