-- ===== src/Coordinator/Invariant.antt =====
-- Ticks of the coordinator, of financial_dashboard/services/paisa/coordinator.py, keep the table
-- well formed.
use bank_email_fetcher.Prelude.{String, [], ◌∷◌}
use bank_email_fetcher.SyncState.Table.{Instant, SyncTable}
use bank_email_fetcher.SyncState.Run.{Op, run_op, run}
use bank_email_fetcher.SyncState.Rows.{AllRows}
use bank_email_fetcher.SyncState.Invariant.{IsSound, run-IsSound}
use bank_email_fetcher.Coordinator.World.{World}
use bank_email_fetcher.Coordinator.Tick.{Config, tick}
use bank_email_fetcher.Coordinator.TickKeeps.{tick-keeps}

run_op-IsSound :
    (eid : String) (now : Instant) (op : Op) (t : SyncTable)
    → AllRows IsSound t
    → AllRows IsSound (run_op eid now op t)
run_op-IsSound eid now op t h = unfold run in run-IsSound ((eid, now, op) ∷ []) t h

-- A tick leaves every row of a sound table sound, whatever the preflight, the generator and the
-- remote answer, where they raise or time out, and whatever other sessions commit meanwhile.
pub tick-IsSound :
    (config : Config) (owner minted : String) (w : World) (now at_release : Instant) (t : SyncTable)
    → AllRows IsSound t
    → AllRows IsSound (tick config owner minted w now at_release t).1
tick-IsSound config owner minted w now at_release t h =
    tick-keeps (AllRows IsSound) run_op-IsSound config owner minted w now at_release t h
