-- ===== src/System/AbortLoop.antt =====
-- internal/app/lifecycle.go: the loop of `Abort` over the targets of a build request.
-- The steps of `Abort` read no configuration.
use vci.Base.{
  ℕ, ◌≡◌, refl, sym, ap, ◌∙◌, subst, ◌≢◌, inl, inr, true, false, List, [], ◌∷◌, arith,
  if◌then◌else◌, Bool-cases, if_either, In, Result, ok, Text, text_eq, text_eq_sound, text_eq_iff,
}
use vci.App.Abort.{abort_children}
use vci.Model.State.{is_terminal}
use vci.Store.Disk.{Disk}
use vci.Store.Record.{RunRecord, StoreError}
use vci.Store.Runs.{load}
use vci.System.AbortRound.{abort_target-frozen}
use vci.System.Aborting.{abort_target, abort_target-Quiet}

module _ (clock now : ℕ) where
  pub abort_children-healthy :
      (d : Disk) (cs : List RunRecord) → (abort_children clock now d cs).healthy ≡ d.healthy
  unfolding abort_children
  abort_children-healthy d [] = refl
  abort_children-healthy d (x ∷ cs) =
      if_either (λ (d' : Disk). d'.healthy ≡ d.healthy) (is_terminal x.state) _ _
        (abort_children-healthy d cs)
        (abort_children-healthy (abort_target clock now d x) cs
          ∙ (abort_target-Quiet clock now d x).up)

  -- What every round leaves at a run, the loop leaves.
  pub abort_children-stays :
      (d : Disk) (cs : List RunRecord) (j : Text) (res : Result StoreError RunRecord)
      → ((d' : Disk) (x : RunRecord)
          → In x cs
          → load d' j ≡ res
          → load (abort_target clock now d' x) j ≡ res)
      → load d j ≡ res
      → load (abort_children clock now d cs) j ≡ res
  unfolding abort_children
  abort_children-stays d [] j res h l = l
  abort_children-stays d (x ∷ cs) j res h l =
      if_either (λ (d' : Disk). load d' j ≡ res) (is_terminal x.state) _ _
        (abort_children-stays d cs j res (λ d' y m. h d' y (inr m)) l)
        (abort_children-stays (abort_target clock now d x) cs j res (λ d' y m. h d' y (inr m))
          (h d x (inl refl) l))

  -- A round for another run than `c` leaves what is stored for `c`.
  pub round_for :
      (d : Disk) (c x : RunRecord) (res : Result StoreError RunRecord)
      → (x.id ≡ c.id → x ≡ c)
      → (load d c.id ≡ res → load (abort_target clock now d c) c.id ≡ res)
      → load d c.id ≡ res
      → load (abort_target clock now d x) c.id ≡ res
  round_for d c x res u own l = elim (Bool-cases (text_eq x.id c.id)) [
    | inl same ↦
        subst (λ y. load (abort_target clock now d y) c.id ≡ res)
          (sym (u (text_eq_sound x.id c.id same))) (own l)
    | inr differs ↦
        (abort_target-Quiet clock now d x).others c.id
          (λ e. ground (arith, differs, text_eq_iff x.id c.id, e))
        ∙ l
  ]

  -- The first round for the target `c` stores `s`, and the rounds after it keep that.
  module _ (c s : RunRecord) (goes_on : is_terminal c.state ≡ false)
      (first : (d : Disk)
        → load d c.id ≡ ok c
        → d.healthy ≡ true
        → load (abort_target clock now d c) c.id ≡ ok s)
      (again : (d : Disk)
        → load d c.id ≡ ok s
        → load (abort_target clock now d c) c.id ≡ ok s) where
    pub abort_children-target :
        (d : Disk) (cs : List RunRecord)
        → In c cs
        → ((x : RunRecord) → In x cs → x.id ≡ c.id → x ≡ c)
        → load d c.id ≡ ok c
        → d.healthy ≡ true
        → load (abort_children clock now d cs) c.id ≡ ok s
    unfolding abort_children
    abort_children-target d [] m u l up = absurd m
    abort_children-target d (x ∷ cs) m u l up = elim (Bool-cases (text_eq x.id c.id)) [
      | inl same ↦
          let e = u x (inl refl) (text_eq_sound x.id c.id same) in
          subst (λ y. load (abort_children clock now d (y ∷ cs)) c.id ≡ ok s) (sym e)
            (subst
              (λ b.
                load
                  (if b
                    then abort_children clock now d cs
                    else abort_children clock now (abort_target clock now d c) cs)
                  c.id
                ≡ ok s)
              (sym goes_on)
              (abort_children-stays (abort_target clock now d c) cs c.id (ok s)
                (λ d' y k. round_for d' c y (ok s) (u y (inr k)) (again d')) (first d l up)))
      | inr differs ↦
          let n : c.id ≢ x.id = λ e. ground (arith, differs, text_eq_iff x.id c.id, e) in
          let m' : In c cs = elim m [
            | inl e ↦ absurd (n (sym (ap (λ (y : RunRecord). y.id) e)))
            | inr k ↦ k
          ] in
          let k = abort_target-Quiet clock now d x in
          if_either (λ (d' : Disk). load d' c.id ≡ ok s) (is_terminal x.state) _ _
            (abort_children-target d cs m' (λ y k. u y (inr k)) l up)
            (abort_children-target (abort_target clock now d x) cs m' (λ y k. u y (inr k))
              (k.others c.id n ∙ l) (k.up ∙ up))
    ]

  pub abort_children-frozen :
      (d : Disk) (cs : List RunRecord) (c : RunRecord)
      → ((x : RunRecord) → In x cs → x.id ≡ c.id → x ≡ c)
      → load d c.id ≡ ok c
      → is_terminal c.state ≡ true
      → load (abort_children clock now d cs) c.id ≡ ok c
  abort_children-frozen d cs c u l t =
      abort_children-stays d cs c.id (ok c)
        (λ d' y k. round_for d' c y (ok c) (u y k) (λ e. abort_target-frozen clock now d' c c e t))
        l
