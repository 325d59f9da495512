-- ===== src/Receiver/Tests/Backoffs.antt =====
-- Delays and retries of src/srtla/srtla_rec.c at fixed values.
use mathlib.Core.List.{cons-ne-nil}
use pyle_irl.Base.{◌≡◌, refl, some, map, arith}
use pyle_irl.Receiver.Cleanup.{Handshake, cleanup_run}
use pyle_irl.Receiver.Cleanup.Retry.{identity, IsDue}
use pyle_irl.Receiver.Cleanup.Run.{cleanup_run_lem}
use pyle_irl.Receiver.Cleanup.Sweep.{surviving}
use pyle_irl.Receiver.Tests.{busy_ctx, unserved, waiting_group}

waiting_group-IsDue : (h : Handshake) → h.clock ≡ some 9000 → IsDue h waiting_group
waiting_group-IsDue h e = (refl, cons-ne-nil _ _, ground (arith, e))

cleanup_run_lem_example :
    map identity (cleanup_run (λ i. unserved) 200 busy_ctx).groups
    ≡ map identity (surviving 200 busy_ctx.groups)
cleanup_run_lem_example = cleanup_run_lem (λ i. unserved) 200 busy_ctx
