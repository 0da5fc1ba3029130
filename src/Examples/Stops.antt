-- ===== src/Examples/Stops.antt =====
-- A run that is stopped with its group.
use ad_coder.Prelude.{◌==◌, refl, true, some, [], ◌∷◌}
use ad_coder.Stop.{RunProcessIdentity, System, group, decide_stop}
use ad_coder.Stop.Trusted.{IsTrusted, Reached, stop_reaches_run}

abbrev host : System
host = record {
  is_alive = λ p. p == 42;
  stat = λ p. some (record { state = some "S"; start_time = some "9001"; group_id = some 42 });
  procfs_ctime_ns = λ p. some "17";
  argv = λ p. some ("bun" ∷ "run" ∷ "/work/app" ∷ "--run-id" ∷ "r1" ∷ []);
}

abbrev recorded : RunProcessIdentity
recorded = record {
  pid = 42;
  start_time = some "9001";
  procfs_ctime_ns = some "17";
  group_id = some 42;
}

stop_reaches_run_example :
    IsTrusted host recorded "/work/app" (some ("--run-id", "r1")) × Reached recorded (group 42)
unfolding decide_stop
stop_reaches_run_example =
    stop_reaches_run host recorded "/work/app" (some ("--run-id", "r1")) true (group 42) refl
