-- ===== src/Store/Record.antt =====
-- internal/store/store.go: `RunRecord`, its constructors and `validateRecord`.
use vci.Base.{
  ℕ, ◌≡◌, refl, Bool, true, false, not, ◌&&◌, ◌||◌, Option, none, some, List, [], ◌∷◌, arith, ◌==◌,
  if◌then◌else◌, ==_iff, &&_parts, Result, ok, err, ◌>>=◌, Text, text_eq, text_eq_sound,
  text_eq_iff,
}
use vci.Model.Names.{valid_run_id}
use vci.Model.State.{RunState, TransitionError, queued, staging, state_eq, state_eq_sound, valid}

pub record RunRecord : Type 0 where
  pub schema_version : ℕ
  pub id : Text
  pub project : Text
  pub machine : Text
  pub state : RunState
  pub source_digest : Text
  pub source_path : Text
  pub config_digest : Text
  pub config_snapshot : Text
  pub command : List Text
  pub queued_at : ℕ
  pub updated_at : ℕ
  pub cancellation_requested_at : Option ℕ
  pub parent_run_id : Text
  pub children : List Text

abbrev texts_eq : List Text → List Text → Bool
texts_eq [] [] = true
texts_eq [] (y ∷ ys) = false
texts_eq (x ∷ xs) [] = false
texts_eq (x ∷ xs) (y ∷ ys) = text_eq x y && texts_eq xs ys

texts_eq_sound : (xs ys : List Text) → texts_eq xs ys ≡ true → xs ≡ ys
texts_eq_sound [] [] h = refl
texts_eq_sound [] (y ∷ ys) h = cc
texts_eq_sound (x ∷ xs) [] h = cc
texts_eq_sound (x ∷ xs) (y ∷ ys) h = ground (arith, text_eq_iff x y, texts_eq_sound xs ys)

abbrev time_eq : Option ℕ → Option ℕ → Bool
time_eq none none = true
time_eq none (some t) = false
time_eq (some s) none = false
time_eq (some s) (some t) = s == t

-- `reflect.DeepEqual` on records.
unfoldable pub same_record : RunRecord → RunRecord → Bool
same_record a b =
    a.schema_version == b.schema_version
    && text_eq a.id b.id
    && text_eq a.project b.project
    && text_eq a.machine b.machine
    && state_eq a.state b.state
    && text_eq a.source_digest b.source_digest
    && text_eq a.source_path b.source_path
    && text_eq a.config_digest b.config_digest
    && text_eq a.config_snapshot b.config_snapshot
    && texts_eq a.command b.command
    && a.queued_at == b.queued_at
    && a.updated_at == b.updated_at
    && time_eq a.cancellation_requested_at b.cancellation_requested_at
    && text_eq a.parent_run_id b.parent_run_id
    && texts_eq a.children b.children

same_times : (s t : Option ℕ) → time_eq s t ≡ true → s ≡ t
same_times none none h = refl
same_times none (some t) h = cc
same_times (some s) none h = cc
same_times (some s) (some t) h = ground arith

pub same_record_sound : (a b : RunRecord) → same_record a b ≡ true → a ≡ b
unfolding same_record
same_record_sound a b h =
    let (h14, e14) = &&_parts _ _ h in
    let (h13, e13) = &&_parts _ _ h14 in
    let (h12, e12) = &&_parts _ _ h13 in
    let (h11, e11) = &&_parts _ _ h12 in
    let (h10, e10) = &&_parts _ _ h11 in
    let (h9, e9) = &&_parts _ _ h10 in
    let (h8, e8) = &&_parts _ _ h9 in
    let (h7, e7) = &&_parts _ _ h8 in
    let (h6, e6) = &&_parts _ _ h7 in
    let (h5, e5) = &&_parts _ _ h6 in
    let (h4, e4) = &&_parts _ _ h5 in
    let (h3, e3) = &&_parts _ _ h4 in
    let (h2, e2) = &&_parts _ _ h3 in
    let (h1, e1) = &&_parts _ _ h2 in
    λ i. record {
      schema_version = ((==_iff a.schema_version b.schema_version).0 h1) i;
      id = (text_eq_sound a.id b.id e1) i;
      project = (text_eq_sound a.project b.project e2) i;
      machine = (text_eq_sound a.machine b.machine e3) i;
      state = (state_eq_sound a.state b.state e4) i;
      source_digest = (text_eq_sound a.source_digest b.source_digest e5) i;
      source_path = (text_eq_sound a.source_path b.source_path e6) i;
      config_digest = (text_eq_sound a.config_digest b.config_digest e7) i;
      config_snapshot = (text_eq_sound a.config_snapshot b.config_snapshot e8) i;
      command = (texts_eq_sound a.command b.command e9) i;
      queued_at = ((==_iff a.queued_at b.queued_at).0 e10) i;
      updated_at = ((==_iff a.updated_at b.updated_at).0 e11) i;
      cancellation_requested_at =
          (same_times a.cancellation_requested_at b.cancellation_requested_at e12) i;
      parent_run_id = (text_eq_sound a.parent_run_id b.parent_run_id e13) i;
      children = (texts_eq_sound a.children b.children e14) i;
    }

pub data StoreError : Type 0 where
  invalid_run_id not_exist undecodable invalid_record unsupported_schema : StoreError
  terminal_immutable cannot_cancel run_is_terminal has_result write_failed : StoreError
  bad_execution : StoreError
  bad_transition : TransitionError → StoreError
  leased_by not_owned_by : Text → StoreError

abbrev pub run_schema_version : ℕ
run_schema_version = 1

unfoldable pub validate_record : RunRecord → Result StoreError (Unit {0})
validate_record r =
    if not (r.schema_version == run_schema_version)
    then err unsupported_schema
    else if not (valid_run_id r.id) || not (valid r.state)
    then err invalid_record
    else ok tt

-- `digest` stands for the hexadecimal SHA-256 of the snapshot's JSON, which `snapshot` is.
module _ (digest : Text → Text) where
  unfoldable pub new_run :
      Text → Text → Text → List Text → Text → Text → RunState → ℕ → Result StoreError RunRecord
  new_run id project machine command source_digest snapshot state now =
      if not (valid_run_id id)
      then err invalid_run_id
      else ok (record {
        schema_version = run_schema_version;
        id = id;
        project = project;
        machine = machine;
        state = state;
        source_digest = source_digest;
        source_path = [];
        config_digest = digest snapshot;
        config_snapshot = snapshot;
        command = command;
        queued_at = now;
        updated_at = now;
        cancellation_requested_at = none;
        parent_run_id = [];
        children = [];
      })

  unfoldable pub new_run_from_id :
      Text → Text → Text → List Text → Text → Text → ℕ → Result StoreError RunRecord
  unfolding new_run
  new_run_from_id id project machine command source_digest snapshot now =
      new_run id project machine command source_digest snapshot queued now

  unfoldable pub new_staged_run_from_id :
      Text → Text → Text → List Text → Text → Text → ℕ → Result StoreError RunRecord
  unfolding new_run
  new_staged_run_from_id id project machine command source_digest snapshot now =
      new_run id project machine command source_digest snapshot staging now

  unfoldable pub new_parent_run :
      Text → Text → List Text → List Text → Text → ℕ → Result StoreError RunRecord
  unfolding new_run
  new_parent_run id project command children snapshot now = do
    r ← new_run id project [] command [] snapshot queued now
    ok (record r { children = children })
