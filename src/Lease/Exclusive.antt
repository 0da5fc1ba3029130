-- ===== src/Lease/Exclusive.antt =====
-- Who holds the lease of a project.
use ad_coder.Prelude.{
  ℕ, ◌≡◌, refl, sym, ap, subst, ◌∙◌, Bool-cases, ◌⊎◌, inl, inr, Bool, true, false, not, ◌&&◌,
  Option, none, some, String, arith, lookup, lookup-insert, Option-cases,
}
use text.Mathlib.TextPositions.{eq_refl}
use ad_coder.Lease.{
  LeaseRecord, lease, ErrorCode, session_lease_held, Outcome, ok, failed, Identity, Leases, State,
  absent, stale, live, released, read_lease, write_lease, classify, probe_lease, take_lease,
  file_record, acquire_manager_lease, own_record, release_of, release_lease, released_in,
  manager_token, validate_project_key,
}

-- Another process, as far as it can see, must take the process of `i` for a living one.
abbrev pub Respects : Identity → Identity → Type 0
Respects j i = (j.host_is_local i.own_host && not (j.pid_alive i.own_pid)) ≡ false

lookup_written :
    (key : String) (r : LeaseRecord) (m : Leases)
    → lookup key (write_lease key r m) ≡ some (lease r)
unfolding write_lease
lookup_written key r m = simp (lookup-insert, eq_refl)

taken :
    (i : Identity) (key session token : String) (s : State) (m m' : Leases)
    → take_lease i key session s m ≡ ok (m', token)
    → lookup key m' ≡ some (lease (own_record i session))
unfolding take_lease
taken i key session token absent m m' h =
    ground (arith, lookup_written key (own_record i session) m)
taken i key session token (live r) m m' h = cc
taken i key session token (released r) m m' h =
    ground (arith, lookup_written key (own_record i session) m)
taken i key session token (stale r) m m' h =
    ground (arith, lookup_written key (own_record i session) (write_lease key (release_of i r) m))

Outcome-cases {ℓ} :
    {A : Type ℓ} (o : Outcome A) → ((e : ErrorCode) × (o ≡ failed e)) ⊎ ((a : A) × (o ≡ ok a))
Outcome-cases (ok a) = inr (a, refl)
Outcome-cases (failed e) = inl (e, refl)

ok-injective {ℓ} : {A : Type ℓ} {a b : A} → ok a ≡ ok b → a ≡ b
ok-injective e = cc

acquired :
    (i : Identity) (key session token : String) (m m' : Leases)
    → acquire_manager_lease i key session m ≡ ok (m', token)
    → (s : State) × (probe_lease i key m ≡ ok s) × (take_lease i key session s m ≡ ok (m', token))
unfolding acquire_manager_lease
acquired i key session token m m' h = elim (Outcome-cases (probe_lease i key m)) [
  | inl (e, p) ↦ cc
  | inr (s, p) ↦ (s, p, rw p at h)
]

probed_key :
    (i : Identity) (key : String) (m : Leases) (s : State)
    → probe_lease i key m ≡ ok s
    → validate_project_key key ≡ ok tt
unfolding probe_lease
probed_key i key m s h = elim (Outcome-cases (validate_project_key key)) [
  | inl (e, p) ↦ cc
  | inr (u, p) ↦ p
]

probe_of :
    (i : Identity) (key : String) (m : Leases) (r : LeaseRecord)
    → validate_project_key key ≡ ok tt
    → lookup key m ≡ some (lease r)
    → probe_lease i key m ≡ ok (classify i (some r))
unfolding probe_lease read_lease
probe_of i key m r v h = rw (v, h, probe_lease) refl

-- Once a manager has acquired a lease, the file names its session and no release, and every manager
-- to which the process is alive or remote is refused, whatever session it asks for.
pub acquire_excludes :
    (i j : Identity) (key session other token : String) (m m' : Leases)
    → acquire_manager_lease i key session m ≡ ok (m', token)
    → Respects j i
    → (lookup key m' ≡ some (lease (own_record i session)))
      × (acquire_manager_lease j key other m' ≡ failed session_lease_held)
unfolding acquire_manager_lease take_lease classify
acquire_excludes i j key session other token m m' h r =
    let (s, p, q) = acquired i key session token m m' h in
    let written = taken i key session token s m m' q in
    (
      written,
      rw (probe_of j key m' (own_record i session) (probed_key i key m s p) written, r) refl,
    )

abbrev pub is_live : State → Bool
is_live (live r) = true
is_live _ = false

-- A lease that is not live is there for the taking.
takes :
    (i : Identity) (key session : String) (s : State) (m : Leases)
    → is_live s ≡ false
    → (m' : Leases) × (take_lease i key session s m ≡ ok (m', manager_token i))
unfolding take_lease
takes i key session (live r) m h = cc
takes i key session absent m h = (_, refl)
takes i key session (released r) m h = (_, refl)
takes i key session (stale r) m h = (_, refl)

failed_probe :
    (i : Identity) (key : String) (m : Leases) (s : State) (e : ErrorCode) {u : Unit {0}}
    → validate_project_key key ≡ ok u
    → file_record (lookup key m) ≡ failed e
    → probe_lease i key m ≡ ok s
    → ⊥
unfolding probe_lease read_lease
failed_probe i key m s e v f p = let k : failed e ≡ ok s = rw (v, f, probe_lease) at p in cc

probed_file :
    (i : Identity) (key : String) (m : Leases) (s : State)
    → probe_lease i key m ≡ ok s
    → (o : Option LeaseRecord) × (file_record (lookup key m) ≡ ok o) × (classify i o ≡ s)
unfolding probe_lease read_lease
probed_file i key m s p = elim (Outcome-cases (validate_project_key key)) [
  | inl (e, v) ↦ cc
  | inr (u, v) ↦ elim (Outcome-cases (file_record (lookup key m))) [
    | inl (e, f) ↦ absurd (failed_probe i key m s e v f p)
    | inr (o, f) ↦ (o, f, ok-injective (rw (v, f, probe_lease) at p))
  ]
]

file_probe :
    (i : Identity) (key : String) (m : Leases) (o : Option LeaseRecord)
    → validate_project_key key ≡ ok tt
    → file_record (lookup key m) ≡ ok o
    → probe_lease i key m ≡ ok (classify i o)
unfolding probe_lease read_lease
file_probe i key m o v h = rw (v, h, probe_lease) refl

classify_released :
    (i : Identity) (r : LeaseRecord) (t : ℕ)
    → r.released_at ≡ some t
    → classify i (some r) ≡ released r
unfolding classify
classify_released i r t e = ground arith

-- What a release leaves is no live lease, whoever looks.
freed :
    (i j : Identity) (key : String) (o : Option LeaseRecord) (m : Leases)
    → file_record (lookup key m) ≡ ok o
    → (p : Option LeaseRecord) × (file_record (lookup key (released_in i key (classify i o) m))
        ≡ ok p)
      × (is_live (classify j p) ≡ false)
unfolding classify released_in
freed i j key none m h = (none, h, refl)
freed i j key (some r) m h = elim (Option-cases r.released_at) [
  | inr (t, e) ↦ (
    some r,
    subst (λ s. file_record (lookup key (released_in i key s m)) ≡ ok (some r))
        (sym (classify_released i r t e)) h,
    subst (λ s. is_live s ≡ false) (sym (classify_released j r t e)) refl,
  )
  | inl e ↦ elim (Bool-cases (i.host_is_local r.host && not (i.pid_alive r.pid))) [
    | inl d ↦ (some (release_of i r), rw (e, d, lookup_written key (release_of i r) m) refl, refl)
    | inr d ↦ (some (release_of i r), rw (e, d, lookup_written key (release_of i r) m) refl, refl)
  ]
]

release_probed :
    (i : Identity) (key : String) (m m' : Leases)
    → release_lease i key m ≡ ok m'
    → (s : State) × (probe_lease i key m ≡ ok s) × (released_in i key s m ≡ m')
unfolding release_lease
release_probed i key m m' h = elim (Outcome-cases (probe_lease i key m)) [
  | inl (e, p) ↦ cc
  | inr (s, p) ↦ (s, p, ok-injective (rw p at h))
]

-- After a release by anyone that can read the lease, any manager can acquire it.
pub release_admits :
    (i j : Identity) (key session : String) (m m' : Leases)
    → release_lease i key m ≡ ok m'
    → (m'' : Leases) × (acquire_manager_lease j key session m' ≡ ok (m'', manager_token j))
unfolding release_lease acquire_manager_lease
release_admits i j key session m m' h =
    let (s, p, e) = release_probed i key m m' h in
    let (o, f, c) = probed_file i key m s p in
    let (q, g, d) = freed i j key o m f in
    let here : released_in i key (classify i o) m ≡ m' = ap (λ x. released_in i key x m) c ∙ e in
    let v = probed_key i key m s p in
    let k : probe_lease j key m' ≡ ok (classify j q) =
      subst (λ x. probe_lease j key x ≡ ok (classify j q)) here (file_probe j key _ q v g) in
    let (m'', t) = takes j key session (classify j q) m' d in (m'', rw (k, acquire_manager_lease) t)

-- Two managers that both probe before either writes both acquire the lease, and the file keeps the
-- record of the one that writes last.
pub probe_race :
    (i j : Identity) (key a b : String) (s q : State) (m : Leases)
    → probe_lease i key m ≡ ok s
    → probe_lease j key m ≡ ok q
    → is_live s ≡ false
    → is_live q ≡ false
    → (m' : Leases) × (m'' : Leases) × (take_lease i key a s m ≡ ok (m', manager_token i))
      × (take_lease j key b q m' ≡ ok (m'', manager_token j))
      × (lookup key m'' ≡ some (lease (own_record j b)))
probe_race i j key a b s q m h k e f =
    let (m', p) = takes i key a s m e in
    let (m'', r) = takes j key b q m' f in
    (m', m'', p, r, taken j key b (manager_token j) q m' m'' r)
