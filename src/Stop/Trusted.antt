-- ===== src/Stop/Trusted.antt =====
-- Whom a stop can reach.
use ad_coder.Prelude.{
  ℕ, ◌≡◌, ◌⊎◌, ap, inl, inr, refl, sym, subst, String, Bool, true, false, not, ◌&&◌, Option, none,
  some, List, [], ◌∷◌, ◌++◌, any, if◌then◌else◌, str_eq, arith, if_rule, Bool-cases,
}
use text.Mathlib.TextEquality.{eq_iff}
use ad_coder.Stop.{
  RunProcessIdentity, System, Verification, refused, verified, is_text, state_of, start_of,
  group_of, differs, follows, has_witness, check_argv, check_birth, verify_stop_target, Target,
  process, group, already_gone, stop_refused, deliver, leads, is_gone, decide_on, decide_stop,
}

-- The text stands among the items.
abbrev pub Among : String → List String → Type 0
Among a [] = ⊥
Among a (x ∷ xs) = (x ≡ a) ⊎ Among a xs

-- The arguments name the directory, and the tokens of the run one after the other.
abbrev pub Named : Option (List String) → String → Option (String × String) → Type 0
Named argv dir witness =
    (a b : String) × (before after : List String) × (witness ≡ some (a, b))
    × (argv ≡ some (before ++ (a ∷ b ∷ after)))
    × Among dir (before ++ (a ∷ b ∷ after))

-- What identifies the process of a run.
pub record IsTrusted (s : System) (i : RunProcessIdentity) (dir : String)
    (witness : Option (String × String)) : Type 0 where
  pub alive : s.is_alive i.pid ≡ true
  pub start :
      (i.start_time ≡ none)
      ⊎ ((start_of (s.stat i.pid) ≡ none) ⊎ (i.start_time ≡ start_of (s.stat i.pid)))
  pub birth : (i.procfs_ctime_ns ≡ none) ⊎ (i.procfs_ctime_ns ≡ s.procfs_ctime_ns i.pid)
  pub named : Named (s.argv i.pid) dir witness

abbrev WhenVerified : Type 0 → Verification → Type 0
WhenVerified P (refused r) = Unit
WhenVerified P (verified g) = P

any-Among : (dir : String) (xs : List String) → any (λ x. str_eq x dir) xs ≡ true → Among dir xs
any-Among dir [] h = cc
any-Among dir (x ∷ xs) h = elim (Bool-cases (str_eq x dir)) [
  | inl b ↦ inl ((eq_iff x dir).0 b)
  | inr b ↦ inr (any-Among dir xs (rw b at h))
]

abbrev Split : String → String → List String → Type 0
Split a b xs = (before after : List String) × (xs ≡ before ++ (a ∷ b ∷ after))

follows-Split : (a b : String) (xs : List String) → follows a b xs ≡ true → Split a b xs
unfolding follows
follows-Split a b [] h = cc
follows-Split a b (x ∷ []) h = cc
follows-Split a b (x ∷ y ∷ xs) h = elim (Bool-cases (str_eq x a && str_eq y b)) [
  | inl e ↦
      let f : x ≡ a = (eq_iff x a).0 (ground (arith, e)) in
      let g : y ≡ b = (eq_iff y b).0 (ground (arith, e)) in ([], xs, cc)
  | inr e ↦
      let (before, after, f) = follows-Split a b (y ∷ xs) (rw e at h) in
      (x ∷ before, after, ap (λ zs. x ∷ zs) f)
]

differs-start : (r l : Option String) → differs r l ≡ false → (r ≡ none) ⊎ ((l ≡ none) ⊎ (r ≡ l))
differs-start none l h = inl refl
differs-start (some r) none h = inr (inl refl)
differs-start (some r) (some l) h = inr (inr (ap some (sym ((eq_iff l r).0 (ground arith)))))

witness-Named :
    (dir : String) (witness : Option (String × String)) (argv : List String)
    → any (λ x. str_eq x dir) argv ≡ true
    → has_witness witness argv ≡ true
    → Named (some argv) dir witness
unfolding has_witness
witness-Named dir none argv h g = cc
witness-Named dir (some (a, b)) argv h g =
    let (before, after, e) = follows-Split a b argv g in
    (a, b, before, after, refl, ap some e, subst (Among dir) e (any-Among dir argv h))

check_argv-Named :
    (dir : String) (witness : Option (String × String)) (g : Option ℕ) (o : Option (List String))
    → WhenVerified (Named o dir witness) (check_argv dir witness g o)
unfolding check_argv
check_argv-Named dir witness g none = tt
check_argv-Named dir witness g (some argv) =
    let P : Verification → Type 0 = WhenVerified (Named (some argv) dir witness) in
    if_rule P (not (any (λ x. str_eq x dir) argv)) _ _ (λ h. tt)
      (λ h.
        if_rule P (has_witness witness argv) _ _
          (λ k. witness-Named dir witness argv (ground (arith, h)) k) (λ k. tt))

born :
    (P : Type 0) (r l : String) (next : Verification)
    → some r ≡ some l
    → WhenVerified P next
    → WhenVerified (((some r ≡ none) ⊎ (some r ≡ some l)) × P) next
born P r l (refused x) e h = tt
born P r l (verified g) e h = (inr e, h)

check_birth-Verified :
    (P : Type 0) (r l : Option String) (next : Verification)
    → WhenVerified P next
    → WhenVerified (((r ≡ none) ⊎ (r ≡ l)) × P) (check_birth r l next)
unfolding check_birth
check_birth-Verified P none l (refused r) h = tt
check_birth-Verified P none l (verified g) h = (inl refl, h)
check_birth-Verified P (some r) none next h = tt
check_birth-Verified P (some r) (some l) next h =
    if_rule (WhenVerified (((some r ≡ none) ⊎ (some r ≡ some l)) × P)) (str_eq l r) _ _
      (λ e. born P r l next (ap some (sym ((eq_iff l r).0 e))) h) (λ e. tt)

trusted :
    (s : System) (i : RunProcessIdentity) (dir : String) (witness : Option (String × String))
    (v : Verification)
    → s.is_alive i.pid ≡ true
    → (i.start_time ≡ none)
      ⊎ ((start_of (s.stat i.pid) ≡ none) ⊎ (i.start_time ≡ start_of (s.stat i.pid)))
    → WhenVerified
        (((i.procfs_ctime_ns ≡ none) ⊎ (i.procfs_ctime_ns ≡ s.procfs_ctime_ns i.pid))
          × Named (s.argv i.pid) dir witness)
        v
    → WhenVerified (IsTrusted s i dir witness) v
trusted s i dir witness (refused r) h k m = tt
trusted s i dir witness (verified g) h k (birth, named) = record {
  alive = h;
  start = k;
  birth = birth;
  named = named;
}

verify_stop_target-IsTrusted :
    (s : System) (i : RunProcessIdentity) (dir : String) (witness : Option (String × String))
    → WhenVerified (IsTrusted s i dir witness) (verify_stop_target s i dir witness)
unfolding verify_stop_target
verify_stop_target-IsTrusted s i dir witness =
    let P : Verification → Type 0 = WhenVerified (IsTrusted s i dir witness) in
    let stat = s.stat i.pid in
    if_rule P (not (s.is_alive i.pid)) _ _ (λ h. tt)
      (λ h.
        if_rule P (is_text "Z" (state_of stat)) _ _ (λ k. tt)
          (λ k.
            if_rule P (differs i.start_time (start_of stat)) _ _ (λ m. tt)
              (λ m.
                trusted s i dir witness _ (ground (arith, h))
                  (differs-start i.start_time (start_of stat) m)
                  (check_birth-Verified (Named (s.argv i.pid) dir witness) i.procfs_ctime_ns
                    (s.procfs_ctime_ns i.pid) _
                    (check_argv-Named dir witness (group_of stat) (s.argv i.pid))))))

refused_delivers :
    (b : Bool) (t : Target) → (if b then already_gone else stop_refused) ≡ deliver t → ⊥
refused_delivers true t h = cc
refused_delivers false t h = cc

leads_lem : (pid : ℕ) (r l : Option ℕ) → leads pid r l ≡ true → r ≡ some pid
leads_lem pid none none h = cc
leads_lem pid none (some l) h = cc
leads_lem pid (some r) none h = cc
leads_lem pid (some r) (some l) h = ap some (ground (arith, h))

-- The process of the record, or the group that it is recorded to lead.
abbrev pub Reached : RunProcessIdentity → Target → Type 0
Reached i t = (process i.pid ≡ t) ⊎ ((group i.pid ≡ t) × (i.group_id ≡ some i.pid))

deliver_injective : (t u : Target) → deliver t ≡ deliver u → t ≡ u
deliver_injective t u h = cc

grouped :
    (i : RunProcessIdentity) (live : Option ℕ) (t : Target)
    → (if leads i.pid i.group_id live then deliver (group i.pid) else stop_refused) ≡ deliver t
    → Reached i t
grouped i live t h = elim (Bool-cases (leads i.pid i.group_id live)) [
  | inl b ↦ inr (deliver_injective _ t (rw b at h), leads_lem i.pid i.group_id live b)
  | inr b ↦ absurd (refused_delivers false t (rw b at h))
]

decided :
    (P : Type 0) (i : RunProcessIdentity) (by_group : Bool) (v : Verification) (t : Target)
    → WhenVerified P v
    → decide_on i by_group v ≡ deliver t
    → P × Reached i t
decided P i by_group (refused r) t w h = absurd (refused_delivers (is_gone r) t h)
decided P i true (verified live) t w h = (w, grouped i live t h)
decided P i false (verified live) t w h = (w, inl (deliver_injective _ t h))

-- The signal of `stopRun` that asks a run to end, its SIGTERM, goes to nothing but the recorded run:
-- where it is delivered, the process is alive, started when it
-- was recorded to where both are known, has the recorded birth where one was recorded, and its
-- arguments name the directory and, one after the other, the tokens of the run; and a group is
-- signalled only if the run is recorded to lead it. The SIGKILL that may follow is not covered.
pub stop_reaches_run :
    (s : System) (i : RunProcessIdentity) (dir : String) (witness : Option (String × String))
    (by_group : Bool) (t : Target)
    → decide_stop s i dir witness by_group ≡ deliver t
    → IsTrusted s i dir witness × Reached i t
unfolding decide_stop
stop_reaches_run s i dir witness by_group t h =
    decided (IsTrusted s i dir witness) i by_group (verify_stop_target s i dir witness) t
      (verify_stop_target-IsTrusted s i dir witness) h
