-- ===== src/Tests/Operation.antt =====
-- Witnesses on the configuration, the log, the background tasks and the set-up of the schema.
use messenger_backend.Base.{◌≡◌, refl, true, none, some, [], ◌∷◌}
use messenger_backend.Api.Middleware.{Exchange, Application, Worker, response, serve}
use messenger_backend.Api.Middleware.Correlation.{Correlates, request-Correlates}
use messenger_backend.Config.Logging.{LogRecord, text}
use messenger_backend.Database.Records.{ModelClass, user_class}
use messenger_backend.Database.Schema.{Schema, Index, lists_table, lists_index, set_up}
use messenger_backend.Database.Schema.SetUp.{set_up_completes}
use messenger_backend.Utils.Tasks.{
  Tasks, no_tasks, failed, spawn_task, handle_completion, Steps, here, next, spawned, ended,
  completed, becomes, finished,
}
use messenger_backend.Utils.Tasks.Held.{AreHeld, tasks-AreHeld}

abbrev line : LogRecord
line = record {
  levelname = "INFO";
  name = "src.services.auth";
  process = 1;
  message = text "User session logged out successfully.";
  exc_info = none;
  req_tag = none;
  request_id = none;
}

abbrev logs_out : Application
logs_out context = (response (record { status_code = 204; headers = [] }), line ∷ [])

abbrev exchange : Exchange
exchange = record {
  method = "POST";
  path = "/auth/logout";
  header = some "r7";
  fresh = "0a1b2c3d";
  process_time = 3;
}

abbrev idle : Worker
idle = record { process = 1; request_id = none; console = [] }

request-Correlates_example :
    ((serve exchange logs_out idle).1.request_id ≡ none)
    × Correlates "r7" []
        (serve exchange logs_out idle).1.console
        (logs_out (some "r7")).0
        (serve exchange logs_out idle).0
request-Correlates_example = request-Correlates exchange logs_out idle refl refl

set_up_completes_example :
    (s' : Schema) × (set_up (record { tables = user_class ∷ []; indexes = [] }) ≡ some s')
    × ((t : ModelClass) → lists_table t s'.tables ≡ true)
    × ((i : Index) → lists_index i s'.indexes ≡ true)
    × (set_up s' ≡ some s')
set_up_completes_example = set_up_completes (record { tables = user_class ∷ []; indexes = [] })

abbrev spawned_one : Tasks
spawned_one = spawn_task 4 no_tasks

-- One task fails, and its callback runs.
failing : Steps no_tasks (
    handle_completion 4
      (failed "lost")
      (record spawned_one { status = becomes 4 (finished (failed "lost")) spawned_one.status }))
unfolding spawn_task handle_completion
failing =
    next (next (next here (spawned 4 refl)) (ended 4 (failed "lost") refl))
      (completed 4 (failed "lost") refl refl)

tasks-AreHeld_example : AreHeld (
    handle_completion 4
      (failed "lost")
      (record spawned_one { status = becomes 4 (finished (failed "lost")) spawned_one.status }))
tasks-AreHeld_example = tasks-AreHeld failing
