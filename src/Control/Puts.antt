-- ===== src/Control/Puts.antt =====
-- src/orchestration/control-plane.ts: the writes of a call, one after another, keep the invariant of the
-- stored records and of the calls; and what was read is held.
use ad_coder.Prelude.{
  ℕ, ◌+◌, ◌≤◌, ◌<◌, String, true, false, Option, none, some, List, [], ◌∷◌, lookup, ◌≡◌, refl, sym,
  subst, inl, inr, arith, Option-cases, ap, ◌∙◌,
}
use ad_coder.Versioned.{
  Stored, ok, store_failed, failed, put_state, lookup-put_state, version_of, write_versioned_json,
  write_versioned_json-ok,
}
use ad_coder.Control.{DurableRunRecord, PlaneError, missing}
use ad_coder.Control.Records.{Tried, done, raised}
use ad_coder.Control.Plane.{Held, Runs, World, read, plane_error, after_write, put_all, put}
use ad_coder.Control.Sound.{Evolves, Follows, Chain, holds, IsStored, IsHeld, IsSound, IsLogged}
use ad_coder.Control.Writes.{
  Carries, Admits, Shift, Shift-same, put-Carries, put-IsSound, put_held, current_state,
  str_eq_refl,
}
use ad_coder.Control.Replies.{last_record}

-- What is known after the writes of a call, of the record it wrote last.
abbrev pub Wrote :
    World → Option String → Option String → Runs → DurableRunRecord → World × Tried ℕ → Type 0
Wrote w0 load after s r (w, done n) =
    IsSound w0 after w × Carries s w.runs × IsHeld w.runs (record { version = n; value = r })
Wrote w0 load after s r (w, raised e) = IsSound w0 load w × Carries s w.runs

module _ (w0 : World) (bytes_of : Held → ℕ) where
  module _ (load after : Option String) (id : String) (v : Held) (r : DurableRunRecord)
      (w : World) where
    pub write-Wrote :
        v.value.id ≡ id
        → IsSound w0 load w
        → IsHeld w.runs v
        → Evolves v.value r
        → Shift load after id v.value r
        → (s : Runs)
        → write_versioned_json {E = PlaneError} bytes_of id r (some v.version) w.runs ≡ ok s
        → Wrote w0 load after w.runs r (record w { runs = s }, done (v.version + 1))
    write-Wrote same i h (i1, i2, i3) f s e =
        let (n, p) = write_versioned_json-ok bytes_of id r v.version w.runs s e in
        let c = current_state w.runs v id same h n in
        let old : IsStored id (some v) = rw c at (i.stored id) in
        let later : version_of (lookup id w.runs.states) < v.version + 1 = omega (arith, n) in
        let a : Admits load after id (lookup id w.runs.states)
            (record { version = v.version + 1; value = r }) =
          record {
            is_stored = (i1 ∙ same, omega arith, i3 old.2);
            cancel = rw c i2;
            own = rw c f.own;
            others = f.others;
            later = later;
          } in
        subst (λ x. Wrote w0 load after w.runs r (record w { runs = x }, done (v.version + 1))) p
          (
            put-IsSound w0 load after id _ w i a,
            put-Carries id _ w.runs later,
            put_held id (record { version = v.version + 1; value = r }) w.runs (i1 ∙ same),
          )

  Wrote-carried :
      (load after : Option String) (s s2 : Runs) (r : DurableRunRecord)
      → Carries s s2
      → (m : World × Tried ℕ) → Wrote w0 load after s2 r m
      → Wrote w0 load after s r m
  Wrote-carried load after s s2 r c (w, done n) (i, d, h) = (i, λ x. λ y. d x (c x y), h)
  Wrote-carried load after s s2 r c (w, raised e) (i, d) = (i, λ x. λ y. d x (c x y))

  -- What follows a write, by how it ends.
  write_rule :
      (P : World × Tried ℕ → Type 0) (w : World) (m : Stored PlaneError Runs)
      (f : Runs → Runs × Tried ℕ)
      → ((e : PlaneError) → P (w, raised e))
      → ((s : Runs) → m ≡ ok s → P (let (s2, e) = f s in (record w { runs = s2 }, e)))
      → P (let (s2, e) = after_write w.runs f m in (record w { runs = s2 }, e))
  write_rule P w (ok s) f i k = k s refl
  write_rule P w (store_failed e) f i k = i (plane_error e)
  write_rule P w (failed e) f i k = i e

  -- One write.
  pub put-Wrote :
      (load after : Option String) (v : Held) (r : DurableRunRecord) (w : World)
      → IsSound w0 load w
      → IsHeld w.runs v
      → Evolves v.value r
      → Shift load after v.value.id v.value r
      → Wrote w0 load after w.runs r (put bytes_of v.value.id v.version (r ∷ []) w)
  unfolding put put_all
  put-Wrote load after v r w i h e f =
      write_rule (λ (m : World × Tried ℕ). Wrote w0 load after w.runs r m) w
        (write_versioned_json bytes_of v.value.id r (some v.version) w.runs)
        (λ s. (s, done (v.version + 1))) (λ x. (i, λ y. λ z. z))
        (λ s. λ p. write-Wrote load after v.value.id v r w refl i h e f s p)

  -- After one write, the stored state is the written one.
  abbrev pub IsWritten : DurableRunRecord → World × Tried ℕ → Type 0
  IsWritten r (w, done n) = lookup r.id w.runs.states ≡ some (record { version = n; value = r })
  IsWritten r (w, raised e) = Unit

  pub put-IsWritten :
      (id : String) (n : ℕ) (r : DurableRunRecord) (w : World)
      → r.id ≡ id
      → IsWritten r (put bytes_of id n (r ∷ []) w)
  unfolding put put_all
  put-IsWritten id n r w same =
      write_rule (IsWritten r) w (write_versioned_json bytes_of id r (some n) w.runs)
        (λ s. (s, done (n + 1))) (λ x. tt)
        (λ s. λ e.
          let (v, p) = write_versioned_json-ok bytes_of id r n w.runs s e in
          let new : Held = record { version = n + 1; value = r } in
          let q : lookup id (put_state id new w.runs).states ≡ some new =
            lookup-put_state id id new w.runs ∙ rw (str_eq_refl id) refl in
          subst (λ k. lookup k s.states ≡ some new) (sym same)
            (subst (λ x. lookup id x.states ≡ some new) p q))

  -- The version of a state after one write under a version.
  abbrev pub IsNext : String → ℕ → World × Tried ℕ → Type 0
  IsNext id n (w, done m) = version_of (lookup id w.runs.states) ≡ n + 1
  IsNext id n (w, raised e) = Unit

  pub put-IsNext :
      (id : String) (n : ℕ) (r : DurableRunRecord) (w : World)
      → IsNext id n (put bytes_of id n (r ∷ []) w)
  unfolding put put_all
  put-IsNext id n r w =
      write_rule (IsNext id n) w (write_versioned_json bytes_of id r (some n) w.runs)
        (λ s. (s, done (n + 1))) (λ x. tt)
        (λ s. λ e.
          let (v, p) = write_versioned_json-ok bytes_of id r n w.runs s e in
          let new : Held = record { version = n + 1; value = r } in
          let q : lookup id (put_state id new w.runs).states ≡ some new =
            lookup-put_state id id new w.runs ∙ rw (str_eq_refl id) refl in
          ap version_of (subst (λ x. lookup id x.states ≡ some new) p q))

  Follows-Evolves : (r s : DurableRunRecord) → Follows r s → Evolves r s
  Follows-Evolves r s (a, b, c, d) = (a, λ h. b ∙ h, d)

  put_all-Wrote :
      (load : Option String) (id : String) (rs : List DurableRunRecord) (v : Held) (w : World)
      → v.value.id ≡ id
      → IsSound w0 load w
      → IsHeld w.runs v
      → Chain v.value rs
      → Wrote w0 load load w.runs
          (last_record v.value rs)
          (let (s, e) = put_all bytes_of id v.version rs w.runs in (record w { runs = s }, e))
  unfolding put_all
  put_all-Wrote load id [] v w same i h c = (i, λ x. λ y. y, h)
  put_all-Wrote load id (r ∷ rs) v w same i h (f, c) =
      write_rule (λ (m : World × Tried ℕ). Wrote w0 load load w.runs (last_record r rs) m) w
        (write_versioned_json bytes_of id r (some v.version) w.runs)
        (λ s. put_all bytes_of id (v.version + 1) rs s) (λ x. (i, λ y. λ z. z))
        (λ s. λ p.
          let (i2, d, h2) =
            write-Wrote load load id v r w same i h (Follows-Evolves v.value r f)
              (Shift-same load id v.value r f.2) s p in
          Wrote-carried load load w.runs s (last_record r rs) d _ (
            put_all-Wrote load id rs (record { version = v.version + 1; value = r })
              (record w { runs = s }) (f.0 ∙ same) i2 h2 c))

  -- Successive writes that leave the execution alone.
  pub put-Wrote-Chain :
      (load : Option String) (rs : List DurableRunRecord) (v : Held) (w : World)
      → IsSound w0 load w
      → IsHeld w.runs v
      → Chain v.value rs
      → Wrote w0 load load w.runs (last_record v.value rs) (put bytes_of v.value.id v.version rs w)
  unfolding put
  put-Wrote-Chain load rs v w i h c = put_all-Wrote load v.value.id rs v w refl i h c

  -- The write of a new run: its id is free.
  pub create-IsSound :
      (load : Option String) (id : String) (r : DurableRunRecord) (w : World)
      → r.id ≡ id
      → IsLogged r
      → IsSound w0 load w
      → (s : Runs) → write_versioned_json {E = PlaneError} bytes_of id r (some 0) w.runs ≡ ok s
      → IsSound w0 load (record w { runs = s }) × Carries w.runs s
  create-IsSound load id r w same l i s e =
      let (n, p) = write_versioned_json-ok bytes_of id r 0 w.runs s e in
      let c = free id w (i.stored id) n in
      let later : version_of (lookup id w.runs.states) < 1 = omega (arith, n) in
      let a : Admits load load id (lookup id w.runs.states) (record { version = 1; value = r }) =
        record {
          is_stored = (same, omega arith, l);
          cancel = λ h. absurd (true≢false' (rw c at h));
          own = λ n. λ h. let h2 : n + holds load id ≤ 0 = rw c at h in omega (arith, h2);
          others = λ k. λ o. omega arith;
          later = later;
        } in
      subst (λ x. IsSound w0 load (record w { runs = x }) × Carries w.runs x) p
        (put-IsSound w0 load load id _ w i a, put-Carries id _ w.runs later)
    where
      free :
          (id : String) (w : World)
          → IsStored id (lookup id w.runs.states)
          → version_of (lookup id w.runs.states) ≡ 0
          → lookup id w.runs.states ≡ none
      free id w h n = elim (Option-cases (lookup id w.runs.states)) [
        | inl e ↦ e
        | inr (v, e) ↦
            let h2 : IsStored id (some v) = rw e at h in
            let n2 : v.version ≡ 0 = rw e at n in absurd (omega (arith, n2, h2.1))
      ]

      true≢false' : false ≡ true → ⊥
      true≢false' h = cc

pub not_done : {e : PlaneError} {v : Held} → ◌≡◌ {A = Tried Held} (raised e) (done v) → ⊥
not_done h = cc

pub done_injective : {c v : Held} → ◌≡◌ {A = Tried Held} (done c) (done v) → c ≡ v
done_injective h = cc

-- What was read is held.
pub read-IsHeld :
    (w0 : World) (load : Option String) (id : String) (w : World)
    → IsSound w0 load w
    → (v : Held) → read id w.runs ≡ done v
    → (v.value.id ≡ id) × IsHeld w.runs v
unfolding read
read-IsHeld w0 load id w i v e = elim (Option-cases (lookup id w.runs.states)) [
  | inl n ↦
      let e2 : ◌≡◌ {A = Tried Held} (raised missing) (done v) = rw (n, read) at e in
      absurd (not_done e2)
  | inr (c, n) ↦
      let e2 : ◌≡◌ {A = Tried Held} (done c) (done v) = rw (n, read) at e in
      let e3 : c ≡ v = done_injective e2 in
      let n2 : lookup id w.runs.states ≡ some v = n ∙ ap some e3 in
      let st : IsStored id (some v) = rw n2 at (i.stored id) in
      (st.0, (v, subst (λ k. lookup k w.runs.states ≡ some v) (sym st.0) n2, inr refl))
]
