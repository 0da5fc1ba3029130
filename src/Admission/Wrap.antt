-- ===== src/Admission/Wrap.antt =====
-- src/provider-admission.ts, `wrap` and `deferredStream`: the six generation methods at the
-- admission boundary, and histories of the controller. A wrapped call is an event where it begins
-- and one where it ends; between two events anything else may happen.
use ad_coder.Prelude.{ℕ, String, Bool, true, false, ◌||◌, Option, List, [], ◌∷◌, if◌then◌else◌}
use ad_coder.Admission.{Priority, interactive, background, ProviderLimit, Controller}
use ad_coder.Admission.Reserve.{reserve}
use ad_coder.Admission.Release.{
  cancel, release, resume_rejected, settle_token, resolve_uncertain, react_rejection,
}

pub data Method : Type 0 where
  complete complete_simple fetch_deferred stream stream_simple stream_deferred : Method

abbrev pub is_stream : Method → Bool
is_stream stream = true
is_stream stream_simple = true
is_stream stream_deferred = true
is_stream _ = false

abbrev is_complete_simple : Method → Bool
is_complete_simple complete_simple = true
is_complete_simple _ = false

unfoldable pub priority_of : Method → Priority
priority_of m = if is_stream m || is_complete_simple m then background else interactive

-- How a call of the wrapped provider ends: it throws before it returns a promise or a stream, it
-- succeeds, or it is rejected with what `providerLimitFrom` makes of the error.
pub data Outcome : Type 0 where
  threw : Outcome
  succeeded : Outcome
  rejected : Option ProviderLimit → Outcome

-- The cooldown opens before the permit is given back.
unfoldable pub finish : Outcome → String → ℕ → ℕ → Controller → Controller
unfolding settle_token react_rejection
finish threw key i now c = settle_token now i c
finish succeeded key i now c = settle_token now i c
finish (rejected l) key i now c = settle_token now i (react_rejection key l now c)

pub data Event : Type 0 where
  begins : (key label : String) → Method → Event
  admits : (key label : String) → Priority → Event
  finishes : Outcome → (key : String) → ℕ → Event
  cancels : ℕ → Event
  resumes : (key : String) → ℕ → Event
  releases : ℕ → Event
  resolves : ℕ → Event

unfoldable pub step : ℕ → Event → Controller → Controller
unfolding reserve finish priority_of cancel resume_rejected release resolve_uncertain
step now (begins key label m) c = (reserve key label (priority_of m) now c).0
step now (admits key label p) c = (reserve key label p now c).0
step now (finishes o key i) c = finish o key i now c
step now (cancels i) c = cancel i c
step now (resumes key i) c = resume_rejected key i c
step now (releases i) c = release now i c
step now (resolves i) c = resolve_uncertain now i c

unfoldable pub run : List (ℕ × Event) → Controller → Controller
unfolding step
run [] c = c
run ((now, e) ∷ es) c = run es (step now e c)
