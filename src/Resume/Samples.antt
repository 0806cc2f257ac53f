-- ===== src/Resume/Samples.antt =====
-- A parked job to resume: two of its three runs succeeded.
use draw_things_control.Prelude.{ℕ, true, false, none, some, [], ◌∷◌}
use draw_things_control.Errors.{ok}
use draw_things_control.Executions.{ExecutionRow, RunRow}
use draw_things_control.Queue.Events.{QueueState}
use draw_things_control.Queue.Rows
use draw_things_control.Queue.Rows.{QueueRow, Table}
use draw_things_control.Queue.Status.{RunStatus}
use draw_things_control.Queue.Worker.Thread.{JobStatus}
use draw_things_control.Resume.Walk.{gave}
use draw_things_control.Resume.Handoff.{JobDefinition, no_data}
use draw_things_control.Resume.Entry.{Env, Store}
use draw_things_control.Resume.Accepted.{new_resume}
use draw_things_control.Samples.{codec, new_entry}

abbrev run : ℕ → RunRow
run n = record {
  number = n;
  status = RunStatus.succeeded;
  output = some "out.mov";
  last_frame = some "/frames/last.png";
  anchor = none;
}

abbrev pub execution : ExecutionRow
execution = record {
  execution_number = 1;
  status = JobStatus.parked;
  seed = some 7;
  total_runs = some 3;
  finished_epoch = some 9;
  manifest_path = none;
  log_path = some "a.log";
  settings_output_directory = some "out";
  runs = run 1 ∷ run 2 ∷ [];
  first_image = none;
}

abbrev pub parked_table : Table
parked_table =
    Rows.finish codec 1 QueueState.parked "later" none false
      (Rows.link_execution 1 1 (Rows.submit codec (new_entry "tui") Rows.empty).1)

abbrev pub job : JobDefinition
job = record {
  run_count = 3;
  backend = "draw-things";
  mode = "i2v";
  run_timeout_seconds = some 60;
  backend_data = no_data;
  target_size = none;
  effective_runs = [];
}

abbrev pub env : Env
env = record {
  codec = codec;
  paths = record { path = λ s. s; is_absolute = λ s. true; parent = λ s. s; join = λ a b. b };
  images = record { is_file = λ s. true; read_size = λ s. gave (640, 480); decode = λ s. gave tt };
  parse = λ r decode allow first. ok job;
}

abbrev pub parked_store : Store
parked_store = record { queue = parked_table; executions = execution ∷ [] }

abbrev pub parked_row : QueueRow
parked_row = record (Rows.submit codec (new_entry "tui") Rows.empty).0 {
  state = QueueState.parked;
  execution_number = some 1;
  finished_at = some "later";
  finished_epoch = some (codec.timestamp "later");
}

abbrev pub resumed_row : QueueRow
resumed_row =
    (new_resume env (some "tui") "now" parked_table parked_row (
      record {
        first_run = 3;
        input = "/frames/last.png";
        seed = 7;
        first_image = none;
        anchor = none;
        execution_number = 1;
      },
      job,
    )).0
