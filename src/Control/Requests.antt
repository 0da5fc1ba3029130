-- ===== src/Control/Requests.antt =====
-- src/orchestration/control-plane.ts, `start`: a request key names one run.
use ad_coder.Prelude.{
  ℕ, ◌+◌, String, Bool, Option, none, some, lookup, lookup-insert, ◌≡◌, refl, sym, subst, inl, inr,
  ap, ◌∙◌, Option-cases,
}
use ad_coder.Versioned.{
  VersionedState, Files, Stored, ok, store_failed, failed, write_next, write_next-ok,
  write_versioned_json, write_versioned_json-ok, version_of, lookup-put_state, put_state,
}
use ad_coder.Control.{DurableRunRecord, ControlPlaneConfig, PlaneError, Texts, missing}
use ad_coder.Control.Records.{Tried, done, raised, ◌>>=◌}
use ad_coder.Control.Plane.{ControlPlaneIndex, Held, Runs, World, read}
use ad_coder.Control.Children.{Answers}
use ad_coder.Control.Start.{
  StartRunInput, index_path, index_of, with_request, valid_input, has_room, read_roots, root_record,
  index_written, put_index, known_request, root_written, admit_root, admit_checked, start_in,
  start_checked, start,
}
use ad_coder.Control.Writes.{str_eq_refl}
use ad_coder.Control.Updates.{WhenDone}
use ad_coder.Control.Puts.{done_injective, not_done}

-- The index has a key, for a stored run with a record.
record IsRegistered (key : String) (r : DurableRunRecord) (w : World) : Type 0 where
  index : VersionedState ControlPlaneIndex
  id : String
  state : Held
  indexed : lookup index_path w.index.states ≡ some index
  named : lookup key index.value.requests ≡ some id
  found : lookup id w.runs.states ≡ some state
  same : state.value ≡ r

abbrev Registers : String → World × Tried DurableRunRecord → Type 0
Registers key (w, done r) = IsRegistered key r w
Registers key (w, raised e) = Unit

read-lookup : (id : String) (s : Runs) (v : Held) → read id s ≡ done v → lookup id s.states ≡ some v
unfolding read
read-lookup id s v e = elim (Option-cases (lookup id s.states)) [
  | inl n ↦
      let e2 : ◌≡◌ {A = Tried Held} (raised missing) (done v) = rw (n, read) at e in
      absurd (not_done e2)
  | inr (c, n) ↦
      let e2 : ◌≡◌ {A = Tried Held} (done c) (done v) = rw (n, read) at e in
      n ∙ ap some (done_injective e2)
]

read_found : (id : String) (s : Runs) (v : Held) → lookup id s.states ≡ some v → read id s ≡ done v
unfolding read
read_found id s v h = rw (h, read) refl

module _ (t : Texts) (c : ControlPlaneConfig) (bytes_of : Held → ℕ)
    (index_bytes : VersionedState ControlPlaneIndex → ℕ) where
  index_written-Registers :
      (key id : String) (i : ControlPlaneIndex) (h : Held) (w : World)
      (m : Stored PlaneError (Files ControlPlaneIndex))
      → write_next index_bytes index_path
          (record { version = version_of (lookup index_path w.index.states) + 1; value = i })
          w.index
        ≡ m
      → lookup key i.requests ≡ some id
      → lookup id w.runs.states ≡ some h
      → Registers key (index_written t c bytes_of index_bytes h.value w m)
  index_written-Registers key id i h w (ok s) e n f =
      let v : VersionedState ControlPlaneIndex = record {
        version = version_of (lookup index_path w.index.states) + 1;
        value = i;
      } in
      let p = write_next-ok {E = PlaneError} index_bytes index_path v w.index s e in
      let q : lookup index_path (put_state index_path v w.index).states ≡ some v =
        lookup-put_state index_path index_path v w.index in
      record {
        index = v;
        id = id;
        state = h;
        indexed = subst (λ x. lookup index_path x.states ≡ some v) p q;
        named = n;
        found = f;
        same = refl;
      }
  index_written-Registers key id i h w (store_failed x) e n f = tt
  index_written-Registers key id i h w (failed x) e n f = tt

  put_index-Registers :
      (key id : String) (i : ControlPlaneIndex) (h : Held) (w : World)
      → lookup key i.requests ≡ some id
      → lookup id w.runs.states ≡ some h
      → Registers key (put_index t c bytes_of index_bytes i h.value w)
  unfolding put_index
  put_index-Registers key id i h w n f =
      let v : VersionedState ControlPlaneIndex = record {
        version = version_of (lookup index_path w.index.states) + 1;
        value = i;
      } in
      index_written-Registers key id i h w (write_next index_bytes index_path v w.index) refl n f

  known_request-Registers :
      (key id : String) (i : ControlPlaneIndex) (w : World) (m : Tried Held)
      → read id w.runs ≡ m
      → lookup key i.requests ≡ some id
      → Registers key (known_request t c bytes_of index_bytes i w m)
  unfolding known_request
  known_request-Registers key id i w (done v) e n =
      put_index-Registers key id i v w n (read-lookup id w.runs v e)
  known_request-Registers key id i w (raised x) e n = tt

  root_written-Registers :
      (a : Answers) (x : StartRunInput) (i : ControlPlaneIndex) (w : World)
      (m : Stored PlaneError Runs)
      → write_versioned_json bytes_of a.new_id (root_record t c a x) (some 0) w.runs ≡ m
      → Registers x.request_key (root_written t c bytes_of index_bytes a x i w m)
  unfolding root_written with_request
  root_written-Registers a x i w (ok s) e =
      let h : Held = record { version = 1; value = root_record t c a x } in
      let (n, p) =
        write_versioned_json-ok {E = PlaneError} bytes_of a.new_id (root_record t c a x) 0 w.runs s
          e in
      let q : lookup a.new_id (put_state a.new_id h w.runs).states ≡ some h =
        lookup-put_state a.new_id a.new_id h w.runs ∙ rw (str_eq_refl a.new_id) refl in
      put_index-Registers x.request_key a.new_id (with_request x.request_key a.new_id i) h
        (record w { runs = s })
        (lookup-insert x.request_key x.request_key a.new_id i.requests
          ∙ rw (str_eq_refl x.request_key) refl)
        (subst (λ y. lookup a.new_id y.states ≡ some h) p q)
  root_written-Registers a x i w (store_failed y) e = tt
  root_written-Registers a x i w (failed y) e = tt

  admit_checked-Registers :
      (m : Tried Bool) (a : Answers) (x : StartRunInput) (i : ControlPlaneIndex) (w : World)
      → Registers x.request_key (admit_checked t c bytes_of index_bytes m a x i w)
  unfolding admit_checked admit_root
  admit_checked-Registers (done b) a x i w =
      root_written-Registers a x i w
        (write_versioned_json bytes_of a.new_id (root_record t c a x) (some 0) w.runs) refl
  admit_checked-Registers (raised e) a x i w = tt

  start_in-Registers :
      (a : Answers) (x : StartRunInput) (i : ControlPlaneIndex) (w : World) (o : Option String)
      → lookup x.request_key i.requests ≡ o
      → Registers x.request_key (start_in t c bytes_of index_bytes a x i w o)
  unfolding start_in
  start_in-Registers a x i w (some id) e =
      known_request-Registers x.request_key id i w (read id w.runs) refl e
  start_in-Registers a x i w none e =
      admit_checked-Registers (read_roots i.root_ids w.runs >>= has_room t c) a x i w

  start_checked-Registers :
      (m : Tried Bool) (a : Answers) (x : StartRunInput) (i : ControlPlaneIndex) (w : World)
      → Registers x.request_key (start_checked t c bytes_of index_bytes m a x i w)
  unfolding start_checked
  start_checked-Registers (done b) a x i w =
      start_in-Registers a x i w (lookup x.request_key i.requests) refl
  start_checked-Registers (raised e) a x i w = tt

  start-Registers :
      (a : Answers) (x : StartRunInput) (w : World)
      → Registers x.request_key (start t c bytes_of index_bytes a x w)
  unfolding start
  start-Registers a x w =
      start_checked-Registers (valid_input t c x) a x (index_of (lookup index_path w.index.states))
        w

  -- A start that leaves the runs alone, and returns a record if it returns.
  abbrev Repeats : Runs → DurableRunRecord → World × Tried DurableRunRecord → Type 0
  Repeats s r m = (m.0.runs ≡ s) × WhenDone (λ x. x ≡ r) m.1

  index_written-Repeats :
      (r : DurableRunRecord) (w : World) (m : Stored PlaneError (Files ControlPlaneIndex))
      → Repeats w.runs r (index_written t c bytes_of index_bytes r w m)
  index_written-Repeats r w (ok s) = (refl, refl)
  index_written-Repeats r w (store_failed e) = (refl, tt)
  index_written-Repeats r w (failed e) = (refl, tt)

  known_request-Repeats :
      (i : ControlPlaneIndex) (r : DurableRunRecord) (w : World) (m : Tried Held)
      → WhenDone (λ v. v.value ≡ r) m
      → Repeats w.runs r (known_request t c bytes_of index_bytes i w m)
  unfolding known_request put_index
  known_request-Repeats i r w (done v) e =
      let x : VersionedState ControlPlaneIndex = record {
        version = version_of (lookup index_path w.index.states) + 1;
        value = i;
      } in
      subst
        (λ y. Repeats w.runs y (
          index_written t c bytes_of index_bytes v.value w
            (write_next index_bytes index_path x w.index)))
        e (index_written-Repeats v.value w (write_next index_bytes index_path x w.index))
  known_request-Repeats i r w (raised e) h = (refl, tt)

  start_checked-Repeats :
      (m : Tried Bool) (b : Answers) (y : StartRunInput) (r : DurableRunRecord) (w : World)
      → IsRegistered y.request_key r w
      → Repeats w.runs r (
          start_checked t c bytes_of index_bytes m b y
            (index_of (lookup index_path w.index.states))
            w)
  unfolding start_checked start_in read
  start_checked-Repeats (done d) b y r w g =
      rw (g.indexed, g.named)
        (known_request-Repeats g.index.value r w (read g.id w.runs) (
          subst (λ m. WhenDone (λ v. v.value ≡ r) m) (sym (read_found g.id w.runs g.state g.found))
            g.same))
  start_checked-Repeats (raised e) b y r w g = (refl, tt)

  -- After a start that returned a record, any start with the same request key, whatever its other
  -- input, writes no run, and returns that same record if it returns.
  pub start_again :
      (a b : Answers) (x y : StartRunInput) (w w2 : World) (r : DurableRunRecord)
      → start t c bytes_of index_bytes a x w ≡ (w2, done r)
      → y.request_key ≡ x.request_key
      → ((start t c bytes_of index_bytes b y w2).0.runs ≡ w2.runs)
        × WhenDone (λ s. s ≡ r) (start t c bytes_of index_bytes b y w2).1
  unfolding start
  start_again a b x y w w2 r e k =
      let g : IsRegistered x.request_key r w2 =
        subst (λ m. Registers x.request_key m) e (start-Registers a x w) in
      start_checked-Repeats (valid_input t c y) b y r w2
        (subst (λ j. IsRegistered j r w2) (sym k) g)
