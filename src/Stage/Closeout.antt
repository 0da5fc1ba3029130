-- ===== src/Stage/Closeout.antt =====
-- The reserve of a stage's final response.
use ad_coder.Prelude.{ℕ, ◌≡◌, refl, ap, ◌∙◌, Option, none, some, String, if◌then◌else◌, arith}
use ad_coder.Stage.{
  Controller, CloseoutFact, stage_closeout, assert_active, detect_closeout, check_limits,
  is_backwards, snapshot, elapsed_ms,
}
use ad_coder.Stage.Run.{is_submission, close_out, admit_tool_turn}

closing :
    (now : ℕ) (name : Option String) (c : Controller) (f : CloseoutFact)
    → assert_active now c ≡ none
    → detect_closeout now 0 c ≡ some f
    → admit_tool_turn now name c ≡ close_out now name f c
unfolding admit_tool_turn
closing now name c f a d = rw (a, d, admit_tool_turn) refl

-- The controller with the closeout recorded.
abbrev pub recorded : CloseoutFact → Controller → Controller
recorded f c = record c { closeout = some f }

refused_once :
    (now : ℕ) (name : Option String) (c : Controller) (f : CloseoutFact)
    → c.closeout ≡ none
    → close_out now name f c ≡ (recorded f c, some (stage_closeout f))
unfolding close_out
refused_once now name c f e = rw e refl

refused_again :
    (now : ℕ) (name : Option String) (c : Controller) (f : CloseoutFact)
    → (close_out now name f (recorded f c)).1
      ≡ (if is_submission name then none else some (stage_closeout f))
unfolding close_out
refused_again now name c f = ground arith

active_recorded :
    (now : ℕ) (c : Controller) (f : CloseoutFact)
    → assert_active now (recorded f c) ≡ assert_active now c
unfolding assert_active check_limits snapshot is_backwards elapsed_ms
active_recorded now c f = refl

detect_recorded :
    (now : ℕ) (c : Controller) (f : CloseoutFact)
    → detect_closeout now 0 (recorded f c) ≡ detect_closeout now 0 c
unfolding detect_closeout elapsed_ms
detect_recorded now c f = refl

-- The first tool that enters a reserve is refused, a submission tool too, and the closeout is recorded;
-- asked for again at the same reading of the clock, a submission tool is admitted and any other tool
-- is refused.
pub closeout_refuses_first :
    (now : ℕ) (name : Option String) (c : Controller) (f : CloseoutFact)
    → assert_active now c ≡ none
    → detect_closeout now 0 c ≡ some f
    → c.closeout ≡ none
    → let r = admit_tool_turn now name c in
      (r ≡ (recorded f c, some (stage_closeout f)))
      × ((admit_tool_turn now name r.0).1
          ≡ (if is_submission name then none else some (stage_closeout f)))
closeout_refuses_first now name c f a d e =
    let first = closing now name c f a d ∙ refused_once now name c f e in
    let again =
      ap (λ r. r.1)
        (closing now name (recorded f c) f (active_recorded now c f ∙ a)
          (detect_recorded now c f ∙ d)) in
    (first, ap (λ r. (admit_tool_turn now name r.0).1) first ∙ again ∙ refused_again now name c f)
