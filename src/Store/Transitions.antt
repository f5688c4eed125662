-- ===== src/Store/Transitions.antt =====
-- internal/store/store.go, `Transition`: its result on every branch, and what it writes.
use vci.Base.{
  ℕ, ◌≡◌, refl, ap, ◌∙◌, ◌≢◌, inl, inr, Bool, true, false, arith, if◌then◌else◌, Bool-cases, Result,
  ok, err, File, holds, Text, text_eq, text_eq_sound, text_eq_refl, text_eq_iff,
}
use vci.Model.Graph.{terminal_move_differs}
use vci.Model.State.{RunState, TransitionError, is_terminal, transition}
use vci.Process.Execution.{Execution}
use vci.Store.Disk.{Disk, RunDir, find_dir-put_dir, put_dir, put_dir_same}
use vci.Store.Immutable.{
  Loaded, Loaded-load, load-Loaded, load_path_lem, mutate-locked, save_unlocked-found,
}
use vci.Store.Record.{
  RunRecord, StoreError, bad_transition, same_record, same_record_sound, terminal_immutable,
  validate_record,
}
use vci.Store.Runs.{Change, commit_change, load, move_to, mutate, mutate_dir, transition_run}

abbrev pub moved : RunRecord → RunState → ℕ → RunRecord
moved r to now = record r { state = to; updated_at = now }

-- The result of `Transition` on a record that loads, when files can be written.
abbrev pub outcome : RunRecord → RunState → ℕ → Result StoreError RunRecord
outcome r to now = elim (transition r.state to) [
  | err e ↦ err (bad_transition e)
  | ok _ ↦ if is_terminal r.state then err terminal_immutable else ok (moved r to now)
]

-- A move out of a terminal state that the diagram allows changes the state.
terminal_move :
    (r : RunRecord) (to : RunState) (now : ℕ)
    → is_terminal r.state ≡ true
    → transition r.state to ≡ ok tt
    → same_record r (moved r to now) ≡ false
terminal_move r to now t h = elim (Bool-cases (same_record r (moved r to now))) [
  | inl same ↦ absurd (
      terminal_move_differs r.state to t h
        (ap (λ (x : RunRecord). x.state) (same_record_sound r (moved r to now) same)))
  | inr differs ↦ differs
]

moved_valid :
    (r : RunRecord) (to : RunState) (now : ℕ)
    → validate_record r ≡ ok tt
    → transition r.state to ≡ ok tt
    → validate_record (moved r to now) ≡ ok tt
unfolding validate_record transition
moved_valid r to now v h = ground arith

module _ {d : Disk} {id : Text} {r : RunRecord} (l : Loaded d id r) where
  pub mutate-found :
      (change : Change) (x : File Execution) (res : Result StoreError RunRecord)
      → change l.dir.execution r ≡ (x, res)
      → mutate d id change
        ≡ commit_change
            (record d { runs = put_dir id (record l.dir { execution = x }) d.runs })
            r
            res
  unfolding mutate_dir
  mutate-found change x res e = mutate-locked l change ∙ rw (load_path_lem l, mutate_dir) (rw e)

  -- A callback that leaves the execution file alone.
  pub mutate-quiet :
      (change : Change) (res : Result StoreError RunRecord)
      → change l.dir.execution r ≡ (l.dir.execution, res)
      → mutate d id change ≡ commit_change d r res
  mutate-quiet change res e =
      mutate-found change l.dir.execution res e
      ∙ ap (λ ds. commit_change (record d { runs = ds }) r res)
          (put_dir_same id l.dir d.runs l.found)

  refused :
      (to : RunState) (now : ℕ) (e : TransitionError)
      → transition r.state to ≡ err e
      → transition_run d id to now ≡ (d, err (bad_transition e))
  unfolding transition_run commit_change
  refused to now e h = mutate-quiet (move_to to now) (err (bad_transition e)) (rw (h, move_to))

  immutable :
      (to : RunState) (now : ℕ)
      → transition r.state to ≡ ok tt
      → is_terminal r.state ≡ true
      → transition_run d id to now ≡ (d, err terminal_immutable)
  unfolding transition_run commit_change
  immutable to now h t =
      mutate-quiet (move_to to now) (ok (moved r to now)) (rw (h, move_to))
      ∙ rw (t, terminal_move r to now t h)

  accepted :
      (to : RunState) (now : ℕ)
      → transition r.state to ≡ ok tt
      → is_terminal r.state ≡ false
      → d.healthy ≡ true
      → transition_run d id to now ≡ (
        record d { runs = put_dir id (record l.dir { run = holds (moved r to now) }) d.runs },
        ok (moved r to now),
      )
  unfolding transition_run commit_change
  accepted to now h t up =
      let v = moved_valid r to now l.record_valid h in
      mutate-quiet (move_to to now) (ok (moved r to now)) (rw (h, move_to))
      ∙ rw (t, v)
          (rw (save_unlocked-found d id (moved r to now) l.dir v l.name_valid l.own_id l.found)
            (simp up))

pub load-put_other :
    (d : Disk) (id j : Text) (dir : RunDir)
    → j ≢ id
    → load (record d { runs = put_dir id dir d.runs }) j ≡ load d j
unfolding load
load-put_other d id j dir n = ground (arith, find_dir-put_dir id j dir d.runs, text_eq_iff id j)

-- The record of the run afterwards, and the records of the others.
pub record Effect (d d' : Disk) (id : Text) (s : RunRecord) : Type 0 where
  pub stored : load d' id ≡ ok s
  pub others : (j : Text) → j ≢ id → load d' j ≡ load d j

abbrev pub kept : RunRecord → Result StoreError RunRecord → RunRecord
kept r (ok s) = s
kept r (err e) = r

abbrev Outcome :
    Disk
    → Text
    → RunRecord
    → Result StoreError RunRecord
    → Disk × Result StoreError RunRecord
    → Type 0
Outcome d id r res p = (p.1 ≡ res) × Effect d p.0 id (kept r res)

module _ {d : Disk} {id : Text} {r : RunRecord} (l : Loaded d id r) (to : RunState) (now : ℕ) where
  unchanged : (e : StoreError) → Outcome d id r (err e) (d, err e)
  unchanged e = (refl, record { stored = Loaded-load l; others = λ j n. refl })

  moved_id : (moved r to now).id ≡ id
  moved_id = l.own_id

  moved_stored :
      transition r.state to ≡ ok tt
      → Loaded
          (record d { runs = put_dir id (record l.dir { run = holds (moved r to now) }) d.runs })
          id
          (moved r to now)
  moved_stored h = record {
    dir = record l.dir { run = holds (moved r to now) };
    name_valid = l.name_valid;
    found = ground (
      arith,
      find_dir-put_dir id id (record l.dir { run = holds (moved r to now) }) d.runs,
      text_eq_refl id,
    );
    stored = refl;
    own_id = l.own_id;
    record_valid = moved_valid r to now l.record_valid h;
  }

  legal :
      transition r.state to ≡ ok tt
      → d.healthy ≡ true
      → (b : Bool) → is_terminal r.state ≡ b
      → Outcome d id r
          (if b then err terminal_immutable else ok (moved r to now))
          (transition_run d id to now)
  legal h up true t = rw (immutable l to now h t) (unchanged terminal_immutable)
  legal h up false t = rw (accepted l to now h t up) (
    refl,
    record { stored = Loaded-load (moved_stored h); others = λ j n. load-put_other d id j _ n },
  )

  outcome_lem :
      d.healthy ≡ true
      → (res : Result TransitionError (Unit {0})) → transition r.state to ≡ res
      → Outcome d id r (outcome r to now) (transition_run d id to now)
  outcome_lem up (err e) h =
      rw (h, outcome) (rw (refused l to now e h) (unchanged (bad_transition e)))
  outcome_lem up (ok _) h = rw (h, outcome) (legal h up (is_terminal r.state) refl)

pub transition_run-Effect :
    (d : Disk) (id : Text) (to : RunState) (now : ℕ) (r : RunRecord)
    → load d id ≡ ok r
    → d.healthy ≡ true
    → ((transition_run d id to now).1 ≡ outcome r to now)
      × Effect d (transition_run d id to now).0 id (kept r (outcome r to now))
transition_run-Effect d id to now r h up = outcome_lem (load-Loaded d id r h) to now up _ refl

-- What a transition of a run whose record loads does, on every branch, where files can be written: the
-- answer is the one of `outcome`; afterwards the run loads as the new record if the answer is a record
-- and as the old one if it is an error, and every other run loads as before.
pub transition_run_lem :
    (d : Disk) (id : Text) (to : RunState) (now : ℕ) (r : RunRecord) (j : Text)
    → load d id ≡ ok r
    → d.healthy ≡ true
    → ((transition_run d id to now).1 ≡ outcome r to now)
      × (load (transition_run d id to now).0 j
          ≡ (if text_eq j id then ok (kept r (outcome r to now)) else load d j))
transition_run_lem d id to now r j h up =
    let (answer, e) = transition_run-Effect d id to now r h up in
    (
      answer,
      elim (Bool-cases (text_eq j id)) [
        | inl same ↦ rw (same, text_eq_sound j id same) e.stored
        | inr differs ↦ rw differs (e.others j (λ q. ground (arith, differs, text_eq_iff j id, q)))
      ],
    )
