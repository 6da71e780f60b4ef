-- ===== src/Schedule/Tests.antt =====
-- Tests of the schedule.
use version_guard.Base.{◌≡◌, refl, true, false, some, none, [], ◌∷◌}
use version_guard.Schedule.{
  Config, Server, updated_to, created, already_running, schedule_options, ensure_schedule,
}
use version_guard.Schedule.Settled.{
  IsWritten, by_creation, IsWanted, described, ensure_schedule-described,
}

abbrev daily : Config
daily = record {
  schedule_id = "daily";
  cron_expression = "0 8 * * *";
  task_queue = "queue";
  emitter_webhook_url = "";
  resource_types = "lambda" ∷ [];
  jitter = 0;
  enabled = true;
  paused = false;
}

abbrev empty_server : Server
empty_server = record { create = created; describe = none; update_succeeds = true }

abbrev full_server : Server
full_server = record {
  create = already_running;
  describe = some (described (schedule_options daily));
  update_succeeds = true;
}

is_created : IsWritten (ensure_schedule empty_server daily) (schedule_options daily)
unfolding ensure_schedule
is_created = by_creation refl

ensure_schedule-described_example :
    IsWanted daily (schedule_options daily)
    × (ensure_schedule full_server daily ≡ updated_to (schedule_options daily))
ensure_schedule-described_example =
    ensure_schedule-described empty_server full_server daily (schedule_options daily) is_created
      refl refl refl
