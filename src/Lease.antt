-- ===== src/Lease.antt =====
-- src/session-manager/lease.ts, with `validateProjectKey` of src/session-manager/project-keys.ts:
-- the lease file of each project, and the operations on it. The file system is a map from project
-- keys to what the file holds. The clock, the liveness of processes, the random token and the
-- identity of the own process are parameters.
pub mod Slug
pub mod Exclusive
use Prim.Native.Char.{code}
use Prim.Native.String
use ad_coder.Prelude.{
  codes, within, ℕ, zero, suc, ◌+◌, ◌==◌, ltb, leb, String, Bool, true, false, not, ◌&&◌, ◌||◌,
  Option, none, some, List, [], ◌∷◌, ◌++◌, if◌then◌else◌, all, length, lookup, insert, str_eq,
}

pub record LeaseRecord : Type 0 where
  pub session_id : String
  pub pid : ℕ
  pub host : String
  pub owner_token : String
  pub created_at : ℕ
  pub released_at : Option ℕ

-- What a lease file holds: text that is no JSON, JSON that is no object, or a record. A file that
-- does not exist is not in the map.
pub data LeaseFile : Type 0 where
  unparsable malformed : LeaseFile
  lease : LeaseRecord → LeaseFile

pub data ErrorCode : Type 0 where
  invalid_project_key invalid_key project_unsafe : ErrorCode
  session_lease_held invalid_binding handoff_not_recorded : ErrorCode

pub data Outcome {ℓ} (A : Type ℓ) : Type ℓ where
  ok : A → Outcome A
  failed : ErrorCode → Outcome A

infixl 5 ◌>>=◌
abbrev pub ◌>>=◌ {ℓ κ} : {A : Type ℓ} {B : Type κ} → Outcome A → (A → Outcome B) → Outcome B
ok a >>= f = f a
failed e >>= f = failed e

unfoldable pub slug_char : ℕ → Bool
slug_char c = within b'a' b'z' c || within b'0' b'9' c || c == b'-'

-- `PROJECT_KEY_PATTERN`
unfoldable pub is_slug : List ℕ → Bool
unfolding slug_char
is_slug [] = false
is_slug (c ∷ s) = slug_char c && not (c == b'-') && all slug_char s && leb (length s) 62

abbrev pub contains : ℕ → List ℕ → Bool
contains c [] = false
contains c (d ∷ s) = d == c || contains c s

abbrev pub starts_dot : List ℕ → Bool
starts_dot [] = false
starts_dot (d ∷ s) = d == b'.'

abbrev pub contains_dots : List ℕ → Bool
contains_dots [] = false
contains_dots (d ∷ s) = (d == b'.' && starts_dot s) || contains_dots s

unfoldable pub is_traversal : List ℕ → Bool
is_traversal s = contains b'/' s || contains b'\\' s || contains_dots s

abbrev pub git : List ℕ
git = b'g' ∷ b'i' ∷ b't' ∷ []

abbrev pub ad_coder_key : List ℕ
ad_coder_key = b'a' ∷ b'd' ∷ b'-' ∷ b'c' ∷ b'o' ∷ b'd' ∷ b'e' ∷ b'r' ∷ []

unfoldable pub same_text : List ℕ → List ℕ → Bool
same_text [] [] = true
same_text (c ∷ s) (d ∷ t) = c == d && same_text s t
same_text _ _ = false

unfoldable pub validate_codes : List ℕ → Outcome (Unit {0})
unfolding is_slug is_traversal same_text
validate_codes s =
    if length s == 0 || ltb 63 (length s)
    then failed invalid_project_key
    else if same_text s git || same_text s ad_coder_key
    then failed invalid_key
    else if is_slug s
    then ok tt
    else if is_traversal s
    then failed project_unsafe
    else failed invalid_project_key

unfoldable pub validate_project_key : String → Outcome (Unit {0})
unfolding validate_codes
validate_project_key s = validate_codes (codes s)

-- `LeaseIdentity`, and what `acquireManagerLease` asks of its process.
pub record Identity : Type 0 where
  pub now : ℕ
  pub host_is_local : String → Bool
  pub pid_alive : ℕ → Bool
  pub own_pid : ℕ
  pub own_host : String
  pub uuid : String

abbrev pub Leases : Type 0
Leases = List (String × LeaseFile)

pub data State : Type 0 where
  absent : State
  stale : LeaseRecord → State
  live : LeaseRecord → State
  released : LeaseRecord → State

abbrev pub file_record : Option LeaseFile → Outcome (Option LeaseRecord)
file_record none = ok none
file_record (some unparsable) = failed invalid_binding
file_record (some malformed) = failed session_lease_held
file_record (some (lease r)) = ok (some r)

unfoldable pub read_lease : String → Leases → Outcome (Option LeaseRecord)
unfolding lookup
read_lease key m = file_record (lookup key m)

unfoldable pub write_lease : String → LeaseRecord → Leases → Leases
unfolding insert
write_lease key r m = insert key (lease r) m

unfoldable pub classify : Identity → Option LeaseRecord → State
classify i none = absent
classify i (some r) = elim r.released_at [
  | some t ↦ released r
  | none ↦ if i.host_is_local r.host && not (i.pid_alive r.pid) then stale r else live r
]

unfoldable pub probe_lease : Identity → String → Leases → Outcome State
unfolding validate_project_key read_lease classify
probe_lease i key m = do u ← validate_project_key key; r ← read_lease key m; ok (classify i r)

abbrev pub release_of : Identity → LeaseRecord → LeaseRecord
release_of i r = record r { released_at = some i.now }

abbrev pub manager_token : Identity → String
manager_token i = String.◌++◌ "sm:" i.uuid

abbrev pub own_record : Identity → String → LeaseRecord
own_record i session = record {
  session_id = session;
  pid = i.own_pid;
  host = i.own_host;
  owner_token = manager_token i;
  created_at = i.now;
  released_at = none;
}

-- What `acquireManagerLease` does once the probe is there.
unfoldable pub take_lease : Identity → String → String → State → Leases → Outcome (Leases × String)
unfolding write_lease
take_lease i key session (live r) m = failed session_lease_held
take_lease i key session (stale r) m =
    ok
      (write_lease key (own_record i session) (write_lease key (release_of i r) m), manager_token i)
take_lease i key session (released r) m =
    ok (write_lease key (own_record i session) m, manager_token i)
take_lease i key session absent m = ok (write_lease key (own_record i session) m, manager_token i)

unfoldable pub acquire_manager_lease :
    Identity → String → String → Leases → Outcome (Leases × String)
unfolding probe_lease take_lease
acquire_manager_lease i key session m = do s ← probe_lease i key m; take_lease i key session s m

abbrev pub record_of : State → Option LeaseRecord
record_of absent = none
record_of (stale r) = some r
record_of (live r) = some r
record_of (released r) = some r

-- The record, when it is the session's.
abbrev pub named : String → Option LeaseRecord → Outcome LeaseRecord
named session none = failed handoff_not_recorded
named session (some r) = if str_eq r.session_id session then ok r else failed handoff_not_recorded

unfoldable pub record_standalone_release_in_lease :
    Identity → String → String → Leases → Outcome Leases
unfolding probe_lease write_lease
record_standalone_release_in_lease i key session m = do
  s ← probe_lease i key m
  r ← named session (record_of s)
  ok (write_lease key (release_of i r) m)

-- The write of `releaseLease`: none when there is no record, or a released one.
unfoldable pub released_in : Identity → String → State → Leases → Leases
unfolding write_lease
released_in i key absent m = m
released_in i key (released r) m = m
released_in i key (stale r) m = write_lease key (release_of i r) m
released_in i key (live r) m = write_lease key (release_of i r) m

unfoldable pub release_lease : Identity → String → Leases → Outcome Leases
unfolding probe_lease
release_lease i key m = do s ← probe_lease i key m; ok (released_in i key s m)

abbrev pub agrees : String → Option String → Outcome (Unit {0})
agrees session none = ok tt
agrees session (some other) = if str_eq other session then ok tt else failed handoff_not_recorded

abbrev pub session_of : Option LeaseRecord → Option String
session_of none = none
session_of (some r) = some r.session_id

-- `ensureLeaseMatchesSession`
unfoldable pub ensure_lease_matches_session : State → String → Option String → Outcome (Unit {0})
ensure_lease_matches_session s session accepted = do
  u ← agrees session (session_of (record_of s))
  agrees session accepted
