-- ===== src/Examples/Stages.antt =====
-- A stage of two model turns and three tools, one of which is kept for the final response.
use ad_coder.Prelude.{ℕ, ◌≡◌, refl, none, some, List, [], ◌∷◌, if◌then◌else◌}
use ad_coder.Stage.{
  StageLimits, Initial, Controller, CloseoutFact, in_tool_turns, stage_closeout, construct,
  assert_active, detect_closeout,
}
use ad_coder.Stage.Run.{
  Event, call, ended, tool, resolved, Stage, run, start, admit_tool_turn, is_submission,
}
use ad_coder.Stage.Closeout.{recorded, closeout_refuses_first}

abbrev limits : StageLimits
limits = record {
  max_duration_ms = 0;
  max_model_turns = 2;
  max_tool_turns = 3;
  max_input_tokens = 1000;
  max_cost_usd = 50;
  reserve_model_turns = 0;
  reserve_duration_ms = 0;
  reserve_tool_turns = 1;
  reserve_input_tokens = 0;
}

abbrev fresh : Initial
fresh = record {
  elapsed_ms = 0;
  model_turns = 0;
  tool_turns = 0;
  input_tokens = 0;
  last_input_tokens = 0;
  cost_usd = 0;
}

abbrev history : List (ℕ × Event)
history =
    (5, call)
    ∷ (9, ended (resolved (record { input_tokens = some 40; cost_usd = some 7 })))
    ∷ (10, tool (some "read_file"))
    ∷ (11, tool (some "read_file"))
    ∷ (12, tool (some "read_file"))
    ∷ (13, call)
    ∷ []

abbrev after_history : Stage
after_history = run history (start limits 5 fresh)

abbrev nearly : Controller
nearly = construct limits 5 (record fresh { tool_turns = 2 })

abbrev fact : CloseoutFact
fact = record { reason = in_tool_turns; used = 2; limit = 3; reserve = 1 }

closeout_refuses_first_example :
    let r = admit_tool_turn 6 (some "submit_verdict") nearly in
    (r ≡ (recorded fact nearly, some (stage_closeout fact)))
    × ((admit_tool_turn 6 (some "submit_verdict") r.0).1
        ≡ (if is_submission (some "submit_verdict") then none else some (stage_closeout fact)))
unfolding construct assert_active detect_closeout
closeout_refuses_first_example =
    closeout_refuses_first 6 (some "submit_verdict") nearly fact refl refl refl
