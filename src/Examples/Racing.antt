-- ===== src/Examples/Racing.antt =====
-- Agents of one task beside each other (internal/controller/diagnosistask_controller.go). The task
-- ends, is cleaned up and made anew before the first goroutine has ended, whose deferred deletion
-- then takes off the entry of the second agent, so that a third starts beside it.
use kubeminds.Prelude.{◌≡◌, refl, [], ◌∷◌}
use kubeminds.Prelude.Bytes.{Str, lit, str_eq}
use kubeminds.Crd.{DiagnosisPhase, pending, completed}
use kubeminds.Controller.Reconcile.{is_active, reconcile}
use kubeminds.Controller.InFlight.{
  System, calls, changes, Reach, start, later, after_reconcile, after_end, count, IsBalanced,
  Reach-in_flight,
}
use kubeminds.Examples.Reconciling.{api, idle}

abbrev key : Str
key = lit "default/t"

abbrev first : System DiagnosisPhase
first = record { reconciler = idle; in_flight = []; cancelled = []; world = pending }

abbrev call : System DiagnosisPhase → System DiagnosisPhase
call s = after_reconcile key (reconcile api key s.reconciler s.world) s

abbrev change : DiagnosisPhase → System DiagnosisPhase → System DiagnosisPhase
change p s = record s { world = p }

-- The first agent is cancelled, and the second one started.
abbrev restarted : System DiagnosisPhase
restarted = call (change pending (call (change completed (call first))))

abbrev reached : Reach api restarted
reached =
    later
      (later
        (later (later (later (start (refl, refl, refl)) (calls key)) (changes completed))
          (calls key))
        (changes pending))
      (calls key)

Reach-in_flight_example :
    IsBalanced
      (count key restarted.in_flight)
      (is_active key restarted.reconciler)
      (count key restarted.cancelled)
Reach-in_flight_example = Reach-in_flight api restarted reached key

-- After the end of the first goroutine, the next call starts an agent beside the second one.
two_agents : (call (after_end key restarted)).in_flight ≡ key ∷ key ∷ []
unfolding after_reconcile after_end reconcile str_eq
two_agents = refl
