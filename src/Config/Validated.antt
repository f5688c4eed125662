-- ===== src/Config/Validated.antt =====
-- internal/config/config.go, `validateCoordinator`: what the scheduler and the runner read of a
-- configuration that was validated.
use vci.Base.{
  ◌≡◌, refl, ap, ◌∙◌, subst, inl, inr, Bool, true, false, some, List, [], ◌∷◌, arith, Bool-cases,
  Option-cases, All, Result, ok, err, ◌>>◌, Text, text_eq, text_eq_sound, lookup,
}
use vci.Config.Defaults.{override, resolve_command}
use vci.Config.Types.{Config, Project}
use vci.Config.Validate.{
  check_override, check_project, check_targets, is_nil, no_command_in, validate_coordinator,
}
use vci.Config.Validation.{Check, ConfigError, each, reject}
use vci.Model.Names.{valid_run_id}
use vci.Scheduler.Choose.{all_known, validate_run_and_candidates}

pub >>-ok :
    {E B : Type 0} (m : Result E (Unit {0})) (k : Result E B) (b : B)
    → (m >> k) ≡ ok b
    → (m ≡ ok tt) × (k ≡ ok b)
>>-ok (ok _) k b h = (refl, h)
>>-ok (err e) k b h = cc

pub each-ok :
    {A : Type 0} (check : A → Check) (xs : List A)
    → each check xs ≡ ok tt
    → All (λ x. check x ≡ ok tt) xs
each-ok check [] h = tt
each-ok check (x ∷ xs) h =
    let (now, later) = >>-ok (check x) (each check xs) tt h in (now, each-ok check xs later)

-- What holds of every entry holds of an entry that is found.
lookup-All :
    {A : Type 0} (P : Text × A → Type 0) (k : Text) (a : A) (ms : List (Text × A))
    → All P ms
    → lookup k ms ≡ some a
    → P (k, a)
unfolding lookup
lookup-All P k a [] h e = cc
lookup-All P k a ((j, x) ∷ ms) h e = elim (Bool-cases (text_eq j k)) [
  | inl same ↦
      subst P
        (ap (λ t. (t, x)) (text_eq_sound j k same) ∙ ap (λ y. (k, y)) (ground (arith, e, same))) h.0
  | inr differs ↦ lookup-All P k a ms h.1 (ground (arith, e, differs))
]

check_targets-known :
    (cfg : Config) (seen ms : List Text)
    → check_targets cfg seen ms ≡ ok tt
    → all_known cfg ms ≡ true
unfolding check_targets
check_targets-known cfg seen [] h = refl
check_targets-known cfg seen (m ∷ ms) h = ground (arith, h, check_targets-known cfg (m ∷ seen) ms)

-- What the check of a project has checked.
pub record ProjectOk (cfg : Config) (p : Project) : Type 0 where
  pub targets : check_targets cfg [] p.machines ≡ ok tt
  some_target : is_nil p.machines ≡ false
  command : no_command_in p.command ≡ false
  overrides : All (λ o. check_override p.machines o ≡ ok tt) p.commands

pub reject-ok : (b : Bool) (e : ConfigError) → reject b e ≡ ok tt → b ≡ false
reject-ok b e h = ground (arith, h)

pub check_project-ProjectOk :
    (cfg : Config) (name : Text) (p : Project)
    → check_project cfg (name, p) ≡ ok tt
    → ProjectOk cfg p
unfolding check_project
check_project-ProjectOk cfg name p h =
    let (h1, o) = >>-ok _ _ tt h in
    let (h2, t) = >>-ok _ _ tt h1 in
    let (h3, e) = >>-ok _ _ tt h2 in
    let (h4, a) = >>-ok _ _ tt h3 in
    let (h5, f) = >>-ok _ _ tt h4 in
    let (h6, v) = >>-ok _ _ tt h5 in
    let (h7, c) = >>-ok _ _ tt h6 in
    let (h8, m) = >>-ok _ _ tt h7 in
    record {
      targets = t;
      some_target = reject-ok _ _ m;
      command = reject-ok _ _ c;
      overrides = each-ok (check_override p.machines) p.commands o;
    }

validated_project :
    (cfg : Config) (name : Text) (p : Project)
    → validate_coordinator cfg ≡ ok tt
    → lookup name cfg.projects ≡ some p
    → ProjectOk cfg p
unfolding validate_coordinator
validated_project cfg name p h l =
    let (_, ps) = >>-ok _ _ tt h in
    check_project-ProjectOk cfg name p (
      lookup-All (λ x. check_project cfg x ≡ ok tt) name p cfg.projects
        (each-ok (check_project cfg) cfg.projects ps) l)

-- In a configuration that `validateCoordinator` accepts, the targets of any project pass the
-- scheduler's check of candidates, for every valid run id.
pub validated_targets_admitted :
    (cfg : Config) (name : Text) (p : Project) (run_id : Text)
    → validate_coordinator cfg ≡ ok tt
    → lookup name cfg.projects ≡ some p
    → valid_run_id run_id ≡ true
    → validate_run_and_candidates cfg run_id p.machines ≡ ok tt
unfolding validate_run_and_candidates
validated_targets_admitted cfg name p run_id h l v =
    let k = validated_project cfg name p h l in
    ground (arith, v, check_targets-known cfg [] p.machines k.targets, k.some_target)

override_ok :
    (targets : List Text) (o : Text × List Text)
    → check_override targets o ≡ ok tt
    → no_command_in o.1 ≡ false
unfolding check_override
override_ok targets o h = ground (arith, h)

override-no_command_in :
    (c command : List Text)
    → no_command_in c ≡ false
    → no_command_in command ≡ false
    → no_command_in (override (some c) command) ≡ false
override-no_command_in [] command h k = k
override-no_command_in (x ∷ xs) command h k = h

-- In a configuration that `validateCoordinator` accepts, `ResolveCommand` gives every machine a
-- command whose first word is not blank, whether the machine has an override or not.
pub validated_command :
    (cfg : Config) (name : Text) (p : Project) (machine : Text)
    → validate_coordinator cfg ≡ ok tt
    → lookup name cfg.projects ≡ some p
    → no_command_in (resolve_command p machine) ≡ false
unfolding resolve_command
validated_command cfg name p machine h l =
    let k = validated_project cfg name p h l in
    elim (Option-cases (lookup machine p.commands)) [
      | inl e ↦ rw e k.command
      | inr (c, e) ↦ rw e (
          override-no_command_in c p.command
            (override_ok p.machines (machine, c)
              (lookup-All (λ o. check_override p.machines o ≡ ok tt) machine c p.commands
                k.overrides e))
            k.command)
    ]
