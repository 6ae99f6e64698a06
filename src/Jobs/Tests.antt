-- ===== src/Jobs/Tests.antt =====
-- A client of the long poll that asks twice while a job runs.
use sbc_mcu_dut_controller.Prelude.{ℕ, String, none, some, List, [], ◌∷◌, ◌≡◌, refl, select, drop}
use sbc_mcu_dut_controller.Store.{at, Job}
use sbc_mcu_dut_controller.Journal.{Event}
use sbc_mcu_dut_controller.Journal.Sequence.{mine}
use sbc_mcu_dut_controller.Jobs.{Reading, follow}
use sbc_mcu_dut_controller.Jobs.Cursor.{up_to, Extends}
use sbc_mcu_dut_controller.Jobs.Polled.{IsLog, log_at_end, follow-up_to}
use sbc_mcu_dut_controller.Jobs.Reached.{last_request, follow-Extends}

abbrev entry : String → ℕ → Event
entry job_id seq = record { job_id = job_id; seq = seq; at = at 1; kind = "state"; payload = "{}" }

abbrev pub running : Job
running = record {
  id = "j";
  state = "running";
  assigned_host = some "h";
  assigned_device = some "d";
  result = none;
  started_at = some (at 2);
  finished_at = none;
  summary = none;
}

abbrev reading : List Event → Reading
reading events = record { row = some running; events = events }

abbrev queued : List Event
queued = entry "j" 0 ∷ []

abbrev assigned : List Event
assigned = entry "j" 0 ∷ entry "k" 0 ∷ entry "j" 1 ∷ []

abbrev done : List Event
done = entry "j" 0 ∷ entry "k" 0 ∷ entry "j" 1 ∷ entry "j" 2 ∷ entry "j" 3 ∷ []

-- The first request waits for an event; the second finds two.
abbrev requests : List (Reading × Reading)
requests = (reading queued, reading assigned) ∷ (reading done, reading done) ∷ []

followed : follow "j" 0 requests ≡ (entry "j" 1 ∷ entry "j" 2 ∷ entry "j" 3 ∷ [], 3)
unfolding follow
followed = refl

requests-IsLog : IsLog "j" [] requests
requests-IsLog = (
  (queued, refl),
  (entry "j" 1 ∷ [], refl),
  (refl, tt),
  (refl, (refl, tt)),
  (
    (entry "j" 2 ∷ entry "j" 3 ∷ [], refl),
    ([], refl),
    (refl, (refl, (refl, (refl, tt)))),
    (refl, (refl, (refl, (refl, tt)))),
    tt,
  ),
)

cursor_example :
    (follow "j" 0 requests).0 ≡ up_to (follow "j" 0 requests).1 (log_at_end "j" [] requests)
cursor_example = follow-up_to "j" requests requests-IsLog

caught_up_example :
    Extends
      (drop 1 (
        select
          (mine "j")
          (last_request (reading queued) ((reading done, reading done) ∷ [])).events))
      (follow "j" 0 requests).0
caught_up_example =
    follow-Extends "j" (reading queued) (reading assigned) ((reading done, reading done) ∷ [])
      requests-IsLog ((refl, refl), ((refl, refl), tt))
