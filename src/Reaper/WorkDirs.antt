-- ===== src/Reaper/WorkDirs.antt =====
-- internal/reaper/reaper.go, `reapWorkDirs`: which workspaces it leaves.
use vci.Base.{
  ℕ, ◌≡◌, refl, subst, inl, inr, Bool, true, false, not, ◌||◌, List, [], ◌∷◌, arith, Bool-cases, In,
  Text,
}
use vci.Reaper.Dirs.{WorkEntry, is_ended, is_run_dir, reap_work_dirs, without_subs}
use vci.Reaper.Remote.{is_live}
use vci.Store.Disk.{Disk}
use vci.Store.Lease.{read_lease}
use vci.Store.Runs.{load}
use vci.Store.Transitions.{kept}

module _ (removable : Text → Bool) (now : ℕ) (d : Disk) where
  -- What is left of a directory, and that it is untouched where a worker has a live lease.
  abbrev Left : WorkEntry → List WorkEntry → Type 0
  Left e xs =
      (e' : WorkEntry) × In e' xs
      × (e'.name ≡ e.name)
      × (is_live now (read_lease d e.name) ≡ true → e' ≡ e)

  later : (e x : WorkEntry) (xs : List WorkEntry) → Left e xs → Left e (x ∷ xs)
  later e x xs (e', i, n, s) = (e', inr i, n, s)

  abbrev is_used : WorkEntry → Bool
  is_used e = not (is_ended (load d e.name)) || is_live now (read_lease d e.name)

  first_left :
      (x : WorkEntry) (es : List WorkEntry)
      → is_used x ≡ true
      → Left x (reap_work_dirs removable now d (x ∷ es)).left
  unfolding reap_work_dirs without_subs
  first_left x es used =
      elim (Bool-cases (not (is_run_dir x) || is_live now (read_lease d x.name))) [
        | inl kept ↦ rw (reap_work_dirs, kept) (x, inl refl, refl, λ live. refl)
        | inr open_dir ↦
            let unheld : is_live now (read_lease d x.name) ≡ false = ground (arith, open_dir) in
            let going : is_ended (load d x.name) ≡ false = ground (arith, unheld, used) in
            rw (reap_work_dirs, open_dir, going)
              ((without_subs removable now x).0, inl refl, refl, λ live. absurd (cc (live, unheld)))
      ]

  rest_left :
      (x e : WorkEntry) (es : List WorkEntry)
      → In e es
      → Left e (reap_work_dirs removable now d es).left
      → Left e (reap_work_dirs removable now d (x ∷ es)).left
  unfolding reap_work_dirs without_subs
  rest_left x e es i h =
      elim (Bool-cases (not (is_run_dir x) || is_live now (read_lease d x.name))) [
        | inl kept ↦ rw (reap_work_dirs, kept) (later e x _ h)
        | inr open_dir ↦ elim (Bool-cases (is_ended (load d x.name))) [
          | inr going ↦
              rw (reap_work_dirs, open_dir, going) (later e (without_subs removable now x).0 _ h)
          | inl over ↦ elim (Bool-cases (removable x.name)) [
            | inl gone ↦ rw (reap_work_dirs, open_dir, over, gone) h
            | inr stuck ↦ rw (reap_work_dirs, open_dir, over, stuck) (e, inr i, refl, λ live. refl)
          ]
        ]
      ]

  -- The cleaning of work directories leaves the directory of a run as long as the run's record does not
  -- load in a terminal state, or there is a lease file of the run that can be read and whose expiry lies in
  -- the future or less than ten minutes back. With such a lease it leaves the directory as it is, with its
  -- .tmp and .home.
  pub reap_work_dirs-keeps :
      (es : List WorkEntry) (e : WorkEntry)
      → In e es
      → is_used e ≡ true
      → Left e (reap_work_dirs removable now d es).left
  reap_work_dirs-keeps [] e i used = absurd i
  reap_work_dirs-keeps (x ∷ es) e (inl eq) used =
      subst (λ e. is_used e ≡ true → Left e (reap_work_dirs removable now d (x ∷ es)).left) eq
        (first_left x es) used
  reap_work_dirs-keeps (x ∷ es) e (inr i) used =
      rest_left x e es i (reap_work_dirs-keeps es e i used)
