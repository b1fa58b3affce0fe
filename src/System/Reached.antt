-- ===== src/System/Reached.antt =====
-- Every state that the service reaches from a sound one is sound.
use mathlib.Core.Path.{subst}
use kafka_lab.Payment.Identity.{Uuids}
use kafka_lab.UseCases.Relay.{Wiring}
use kafka_lab.System.{
  Reach, Step, System, authorizes, changes, counts, here, prunes, sweeps, then_step,
}
use kafka_lab.System.Sound.{IsSound}
use kafka_lab.System.Calls.{apply_change-Preserves, execute_authorize-Preserves}
use kafka_lab.System.Counting.{record_event-Preserves}
use kafka_lab.System.Sweeping.{sweep-IsSound}
use kafka_lab.System.Pruning.{Leaves, prune-Leaves}

Step-IsSound :
    (u : Uuids) (r : Wiring) {s t : System}
    → IsSound r s.db s.log
    → Step u r s t
    → IsSound r t.db t.log
Step-IsSound u r {s} h (authorizes session cmd at id) =
    execute_authorize-Preserves r s.log u r.json session cmd at id s.db h
Step-IsSound u r {s} h (changes session move cmd at) =
    apply_change-Preserves r s.log u r.json session move cmd at s.db h
Step-IsSound u r {s} h (counts session event at) =
    record_event-Preserves r s.log session event at s.db h
Step-IsSound u r {s} h (sweeps w) = sweep-IsSound r w s.db s.log h
Step-IsSound u r {s} h (prunes fuel horizons batch w p db e) =
    subst (Leaves r s.log) e (prune-Leaves r s.log fuel horizons batch w s.db h)

-- From a sound state, any number of calls of the API, the relay, the consumer and housekeeping, in any
-- order and with any failures, lead to a sound state: the outbox is in the order of its ids, the next
-- id is above them, each row marked published has its message on the topic, and no merchant has two
-- payments under one idempotency key.
pub Reach-IsSound :
    (u : Uuids) (r : Wiring) {s t : System}
    → IsSound r s.db s.log
    → Reach u r s t
    → IsSound r t.db t.log
Reach-IsSound u r h here = h
Reach-IsSound u r h (then_step reached step) = Step-IsSound u r (Reach-IsSound u r h reached) step
