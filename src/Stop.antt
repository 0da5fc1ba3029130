-- ===== src/Stop.antt =====
-- src/orchestration/run-stop.ts, `verifyStopTarget`, and src/orchestration/stop-run.ts: whom a stop
-- signals. What the system answers about a process is a parameter.
pub mod Trusted
use ad_coder.Prelude.{
  ℕ, ◌==◌, String, Bool, true, false, not, ◌&&◌, ◌||◌, Option, none, some, List, [], ◌∷◌, any,
  if◌then◌else◌, str_eq,
}

pub record RunProcessIdentity : Type 0 where
  pub pid : ℕ
  pub start_time : Option String
  pub procfs_ctime_ns : Option String
  pub group_id : Option ℕ

pub record Stat : Type 0 where
  pub state : Option String
  pub start_time : Option String
  pub group_id : Option ℕ

-- `processIsAlive`, `readProcessStat`, `readProcessProcfsCtimeNs` and `readProcessArgv`.
pub record System : Type 0 where
  pub is_alive : ℕ → Bool
  pub stat : ℕ → Option Stat
  pub procfs_ctime_ns : ℕ → Option String
  pub argv : ℕ → Option (List String)

pub data Reason : Type 0 where
  not_alive exited pid_reused birth_unreadable birth_differs argv_unreadable no_target no_witness :
      Reason

pub data Verification : Type 0 where
  refused : Reason → Verification
  verified : (group_id : Option ℕ) → Verification

abbrev pub is_text : String → Option String → Bool
is_text s none = false
is_text s (some t) = str_eq t s

abbrev pub state_of : Option Stat → Option String
state_of none = none
state_of (some s) = s.state

abbrev pub start_of : Option Stat → Option String
start_of none = none
start_of (some s) = s.start_time

abbrev pub group_of : Option Stat → Option ℕ
group_of none = none
group_of (some s) = s.group_id

-- Both are known, and differ.
abbrev pub differs : Option String → Option String → Bool
differs none live = false
differs (some recorded) none = false
differs (some recorded) (some live) = not (str_eq live recorded)

-- Whether a token is followed by another.
unfoldable pub follows : String → String → List String → Bool
follows a b [] = false
follows a b (x ∷ []) = false
follows a b (x ∷ y ∷ xs) = (str_eq x a && str_eq y b) || follows a b (y ∷ xs)

abbrev pub has_witness : Option (String × String) → List String → Bool
unfolding follows
has_witness none argv = false
has_witness (some (a, b)) argv = follows a b argv

unfoldable pub check_argv :
    String → Option (String × String) → Option ℕ → Option (List String) → Verification
unfolding has_witness
check_argv dir witness group none = refused argv_unreadable
check_argv dir witness group (some argv) =
    if not (any (λ x. str_eq x dir) argv)
    then refused no_target
    else if has_witness witness argv
    then verified group
    else refused no_witness

-- The birth of the process, where one was recorded.
unfoldable pub check_birth : Option String → Option String → Verification → Verification
check_birth none live next = next
check_birth (some recorded) none next = refused birth_unreadable
check_birth (some recorded) (some live) next =
    if str_eq live recorded then next else refused birth_differs

unfoldable pub verify_stop_target :
    System → RunProcessIdentity → String → Option (String × String) → Verification
unfolding check_argv check_birth
verify_stop_target s i dir witness =
    let stat = s.stat i.pid in
    if not (s.is_alive i.pid)
    then refused not_alive
    else if is_text "Z" (state_of stat)
    then refused exited
    else if differs i.start_time (start_of stat)
    then refused pid_reused
    else check_birth i.procfs_ctime_ns (s.procfs_ctime_ns i.pid)
        (check_argv dir witness (group_of stat) (s.argv i.pid))

pub data Target : Type 0 where
  process group : ℕ → Target

pub data Decision : Type 0 where
  already_gone : Decision
  stop_refused : Decision
  deliver : Target → Decision

abbrev pub is_gone : Reason → Bool
is_gone not_alive = true
is_gone exited = true
is_gone _ = false

-- A group is signalled only where the run leads it.
abbrev pub leads : ℕ → Option ℕ → Option ℕ → Bool
leads pid (some recorded) (some live) = recorded == pid && live == recorded
leads pid _ _ = false

abbrev pub decide_on : RunProcessIdentity → Bool → Verification → Decision
decide_on i by_group (refused r) = if is_gone r then already_gone else stop_refused
decide_on i by_group (verified live) =
    if by_group
    then if leads i.pid i.group_id live then deliver (group i.pid) else stop_refused
    else deliver (process i.pid)

-- `stopRun` up to its SIGTERM, for a record with an identity.
unfoldable pub decide_stop :
    System → RunProcessIdentity → String → Option (String × String) → Bool → Decision
unfolding verify_stop_target
decide_stop s i dir witness by_group = decide_on i by_group (verify_stop_target s i dir witness)
