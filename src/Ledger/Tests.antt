-- ===== src/Ledger/Tests.antt =====
-- Runs of the admission ledger on concrete inputs. (service/agent/admission.ts)
use dreamux.Base.{
  String-discrete, ◌==◌, false, ◌<◌, ◌≡◌, ◌↔◌, refl, String, none, some, [], ◌∷◌, arith,
}
use dreamux.Base.Dict.{lookup, insert, remove}
use dreamux.Ledger.Admission.{
  AgentEntityLedgerKey, Components, tuple_key, Ledger, Answer, empty, admit, admit_key, release,
  release_uncommitted, commit, evict, submitted, failed, started, joined, repeated, bypassed,
  admission_source_window,
}
use dreamux.Ledger.Results.{
  to_submission_result, as_completion_delivery_result, failed_admission_reason,
}
use dreamux.Ledger.Invariant.{IsSound, admits}
use dreamux.Ledger.Reach.{Run, start, next, run-IsSound}
use dreamux.Ledger.Window.{repeat_window, retry_after_release}

-- A stand-in for JSON.stringify: the last component.
abbrev last_text : Components → String
last_text [] = ""
last_text (none ∷ rest) = last_text rest
last_text (some text ∷ []) = text
last_text (some text ∷ component ∷ rest) = last_text (component ∷ rest)

abbrev lead : AgentEntityLedgerKey
lead = record { dispatcher_id = "d1"; team_id = some "t1"; name = "lead" }

program : Unit {0}
unfolding String-discrete admit admit_key tuple_key release release_uncommitted commit evict lookup
    insert remove empty to_submission_result as_completion_delivery_result failed_admission_reason
program = tt

abbrev arrived : Ledger × Answer
arrived = admit last_text empty lead (some "m1")

first_admission : arrived.1 ≡ started 0
unfolding program
first_admission = refl

concurrent_repeat : (admit last_text arrived.0 lead (some "m1")).1 ≡ joined 0
unfolding program
concurrent_repeat = refl

later_repeat : (admit last_text (release arrived.0 "m1" 0 submitted) lead (some "m1")).1 ≡ repeated
unfolding program
later_repeat = refl

no_source : (admit last_text arrived.0 lead (some "")).1 ≡ bypassed
unfolding program
no_source = refl

one_arrival : Run empty 0 (admit_key empty "m1").0
one_arrival = next start (admits "m1")

in_flight : lookup (tuple_key last_text lead "m1") (admit_key empty "m1").0.pending ≡ some 0
unfolding program
in_flight = refl

m1_named : ("m1" == "") ≡ false
unfolding program
m1_named = refl

run-IsSound_example : IsSound (admit_key empty "m1").0
run-IsSound_example = run-IsSound 0 (admit_key empty "m1").0 one_arrival

repeat_window_example :
    ((admit last_text
        (release (admit_key empty "m1").0 (tuple_key last_text lead "m1") 0 submitted)
        lead
        (some "m1")).1
      ≡ repeated)
    ↔ (0 < admission_source_window)
repeat_window_example =
    repeat_window last_text lead "m1" m1_named 0 (admit_key empty "m1").0 one_arrival 0 submitted
      in_flight refl 0
      (release (admit_key empty "m1").0 (tuple_key last_text lead "m1") 0 submitted) start
      (omega arith)

retry_after_release_example :
    ((admit last_text
        (release (admit_key empty "m1").0 (tuple_key last_text lead "m1") 0 failed)
        lead
        (some "m1")).1
      ≡ started (admit_key empty "m1").0.next_task)
    × ((admit last_text
          (release_uncommitted (admit_key empty "m1").0 (tuple_key last_text lead "m1") 0)
          lead
          (some "m1")).1
        ≡ started (admit_key empty "m1").0.next_task)
retry_after_release_example =
    retry_after_release last_text lead "m1" m1_named 0 (admit_key empty "m1").0 one_arrival 0 failed
      in_flight refl
