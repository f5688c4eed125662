-- ===== src/App/Configured.antt =====
-- internal/app/configure.go: what every command keeps of a configuration, and that a client's is frozen.
use vci.Base.{
  ◌≡◌, refl, sym, ap, ◌∙◌, subst, Bool, true, false, not, List, [], ◌∷◌, if◌then◌else◌, if_either,
  is_negative, Result, ok, err, ◌>>=◌, holds, Text, codes, text_eq, lookup,
}
use vci.App.Configure.{
  ConfigFile, ConfigureError, Outcome, add_machine, add_project, after_check, attached_project,
  change_machine, change_project, clear_hosted_fallback, delete_machine, found, insert_machine,
  insert_project, invalid_config, invalid_entry_name, invalid_fallback, load_config, mutate_config,
  negative_slots, put_fallback, remove_machine, replace_content, save_checked, save_if_ok,
  save_locked, set_hosted_fallback, unattached, update_machine, update_project,
}
use vci.Config.Hosted.{validate_hosted}
use vci.Config.Types.{Config, HostedFallback, Machine, Project}
use vci.Config.Validate.{is_some, validate_config}
use vci.Config.Validation.{ConfigError, validate_machine_host}
use vci.Model.Names.{valid_name}

pub data ConfigChange : Type 0 where
  adds_machine : Text → Machine → ConfigChange
  updates_machine : Text → (Machine → Result ConfigureError Machine) → ConfigChange
  removes_machine : Text → ConfigChange
  adds_project : Text → Project → ConfigChange
  updates_project : Text → (Project → Result ConfigureError Project) → ConfigChange
  sets_fallback : Text → HostedFallback → ConfigChange
  clears_fallback : Text → ConfigChange

unfoldable pub apply : ConfigChange → ConfigFile → Outcome
apply (adds_machine name m) s = add_machine name m s
apply (updates_machine name f) s = update_machine name f s
apply (removes_machine name) s = remove_machine name s
apply (adds_project name p) s = add_project name p s
apply (updates_project name f) s = update_project name f s
apply (sets_fallback name h) s = set_hosted_fallback name h s
apply (clears_fallback name) s = clear_hosted_fallback name s

-- The commands one after the other, the failing ones among them.
unfoldable pub apply_all : List ConfigChange → ConfigFile → ConfigFile
apply_all [] s = s
apply_all (c ∷ cs) s = apply_all cs (apply c s).0

-- Only machines and projects differ.
abbrev pub Same : Config → Config → Type 0
Same cfg c = c ≡ record cfg { machines = c.machines; projects = c.projects }

abbrev SameResult : Config → Result ConfigureError Config → Type 0
SameResult cfg (err e) = Unit
SameResult cfg (ok c) = Same cfg c

-- The answer is a configuration that validates and differs in machines and projects only.
abbrev pub Keeps : Config → ConfigFile → Type 0
Keeps cfg s = (c : Config) × (load_config s.content ≡ ok c) × Same cfg c

abbrev pub LeftAlone : ConfigFile → Outcome → Type 0
LeftAlone s (s', ok _) = Unit
LeftAlone s (s', err e) = s' ≡ s

bind-SameResult :
    {A : Type 0} (cfg : Config) (x : Result ConfigureError A) (k : A → Result ConfigureError Config)
    → ((a : A) → SameResult cfg (k a))
    → SameResult cfg (x >>= k)
bind-SameResult cfg (ok a) k h = h a
bind-SameResult cfg (err e) k h = tt

pub load-validated :
    (c : Config) (u : Unit {0}) → validate_config c ≡ ok u → load_config (holds c) ≡ ok c
unfolding load_config
load-validated c u v = rw v refl

replace_content-Keeps :
    (cfg c : Config) (s : ConfigFile) (writable : Bool)
    → load_config s.content ≡ ok cfg
    → load_config (holds c) ≡ ok c
    → Same cfg c
    → Keeps cfg (replace_content s c writable).0 × LeftAlone s (replace_content s c writable)
replace_content-Keeps cfg c s true l v h = ((c, v, h), tt)
replace_content-Keeps cfg c s false l v h = ((cfg, l, refl), refl)

save_checked-Keeps :
    (cfg c : Config) (s : ConfigFile) (r : Result ConfigError (Unit {0}))
    → validate_config c ≡ r
    → load_config s.content ≡ ok cfg
    → Same cfg c
    → Keeps cfg (save_checked s c r).0 × LeftAlone s (save_checked s c r)
save_checked-Keeps cfg c s (err e) v l h = ((cfg, l, refl), refl)
save_checked-Keeps cfg c s (ok u) v l h =
    replace_content-Keeps cfg c s s.writable l (load-validated c u v) h

save_if_ok-Keeps :
    (cfg : Config) (s : ConfigFile) (r : Result ConfigureError Config)
    → load_config s.content ≡ ok cfg
    → SameResult cfg r
    → Keeps cfg (save_if_ok s r).0 × LeftAlone s (save_if_ok s r)
unfolding save_locked
save_if_ok-Keeps cfg s (err e) l h = ((cfg, l, refl), refl)
save_if_ok-Keeps cfg s (ok c) l h = save_checked-Keeps cfg c s (validate_config c) refl l h

mutate_config-Keeps :
    (cfg : Config) (s : ConfigFile) (f : Config → Result ConfigureError Config)
    → load_config s.content ≡ ok cfg
    → SameResult cfg (f cfg)
    → Keeps cfg (mutate_config f s).0 × LeftAlone s (mutate_config f s)
unfolding mutate_config
mutate_config-Keeps cfg s f l h =
    subst (λ r. Keeps cfg (save_if_ok s (r >>= f)).0 × LeftAlone s (save_if_ok s (r >>= f))) (sym l)
      (save_if_ok-Keeps cfg s (f cfg) l h)

-- A refusal before the file is read.
abbrev Fine : Config → ConfigFile → Outcome → Type 0
Fine cfg s o = Keeps cfg o.0 × LeftAlone s o

refused-Fine :
    (cfg : Config) (s : ConfigFile) (b : Bool) (e : ConfigureError) (o : Outcome)
    → load_config s.content ≡ ok cfg
    → Fine cfg s o
    → Fine cfg s (if b then (s, err e) else o)
refused-Fine cfg s b e o l h = if_either (Fine cfg s) b _ _ ((cfg, l, refl), refl) h

after_check-Fine :
    {E A : Type 0} (cfg : Config) (s : ConfigFile) (f : E → ConfigureError) (r : Result E A)
    (o : Outcome)
    → load_config s.content ≡ ok cfg
    → Fine cfg s o
    → Fine cfg s (after_check f r s o)
after_check-Fine cfg s f (ok a) o l h = h
after_check-Fine cfg s f (err e) o l h = ((cfg, l, refl), refl)

put_fallback-SameResult :
    (cfg : Config) (name : Text) (h : HostedFallback) → SameResult cfg (put_fallback name h cfg)
put_fallback-SameResult cfg name h =
    if_either (SameResult cfg) (not (text_eq cfg.orchestrator (codes "self"))) _ _ tt
      (bind-SameResult cfg (found (lookup name cfg.projects)) _ (λ p. refl))

-- A command that fails leaves the file as it is, and any command leaves a configuration that validates
-- and in which nothing but the machines and the projects differs, if the file held one.
apply-Keeps :
    (cfg : Config) (c : ConfigChange) (s : ConfigFile)
    → load_config s.content ≡ ok cfg
    → Fine cfg s (apply c s)
unfolding apply add_machine update_machine remove_machine add_project update_project
    set_hosted_fallback clear_hosted_fallback
apply-Keeps cfg (adds_machine name m) s l =
    refused-Fine cfg s (not (valid_name name)) invalid_entry_name _ l (
      refused-Fine cfg s (is_negative m.max_concurrent) negative_slots _ l (
        after_check-Fine cfg s invalid_config (validate_machine_host m.host) _ l (
          mutate_config-Keeps cfg s (insert_machine name m) l
            (if_either (SameResult cfg) (is_some (lookup name cfg.machines)) _ _ tt refl))))
apply-Keeps cfg (updates_machine name f) s l = refused-Fine cfg s _ _ _ l (
    mutate_config-Keeps cfg s (change_machine name f) l (
      bind-SameResult cfg (found (lookup name cfg.machines)) _
        (λ m. bind-SameResult cfg (f m) _ (λ m'. refl))))
apply-Keeps cfg (removes_machine name) s l = mutate_config-Keeps cfg s (delete_machine name) l (
    bind-SameResult cfg (found (lookup name cfg.machines)) _
      (λ m. bind-SameResult cfg (unattached (attached_project name cfg.projects)) _ (λ u. refl)))
apply-Keeps cfg (adds_project name p) s l = refused-Fine cfg s _ _ _ l (
    mutate_config-Keeps cfg s (insert_project name p) l
      (if_either (SameResult cfg) (is_some (lookup name cfg.projects)) _ _ tt refl))
apply-Keeps cfg (updates_project name f) s l = refused-Fine cfg s _ _ _ l (
    mutate_config-Keeps cfg s (change_project name f) l (
      bind-SameResult cfg (found (lookup name cfg.projects)) _
        (λ p. bind-SameResult cfg (f p) _ (λ p'. refl))))
apply-Keeps cfg (sets_fallback name h) s l = refused-Fine cfg s _ _ _ l (
    after_check-Fine cfg s invalid_fallback (validate_hosted h) _ l
      (mutate_config-Keeps cfg s (put_fallback name h) l (put_fallback-SameResult cfg name h)))
apply-Keeps cfg (clears_fallback name) s l = refused-Fine cfg s _ _ _ l (
    mutate_config-Keeps cfg s (put_fallback name (record { url = []; commit = [] })) l
      (put_fallback-SameResult cfg name (record { url = []; commit = [] })))

-- Whatever commands are given one after the other, the file holds a configuration that validates, if it
-- did at first, and its role, its schema version and its limits are those of the first one.
pub apply_all-Keeps :
    (cfg : Config) (cs : List ConfigChange) (s : ConfigFile)
    → load_config s.content ≡ ok cfg
    → Keeps cfg (apply_all cs s)
unfolding apply_all
apply_all-Keeps cfg [] s l = (cfg, l, refl)
apply_all-Keeps cfg (c ∷ cs) s l =
    let ((c1, l1, h1), _) = apply-Keeps cfg c s l in
    let (c2, l2, h2) = apply_all-Keeps c1 cs (apply c s).0 l1 in
    (
      c2,
      l2,
      h2
          ∙ ap {A = Config} {B = Config}
              (λ x. record x { machines = c2.machines; projects = c2.projects }) h1,
    )
