-- ===== src/App/Reverted.antt =====
-- internal/app/configure.go: the removal of a machine that was just added.
use vci.Base.{
  ◌≡◌, refl, sym, ap, ◌∙◌, inl, inr, Bool, true, false, not, none, arith, if◌then◌else◌,
  is_negative, Result, ok, err, ◌>>=◌, File, absent, damaged, holds, Result-cases, Text, lookup,
  set_key,
}
use vci.App.Configure.{
  ConfigFile, ConfigureError, Outcome, add_machine, after_check, attached_project, delete_machine,
  entry_exists, insert_machine, invalid_config, invalid_entry_name, load_config, mutate_config,
  negative_slots, remove_machine, replace_content, save_checked, save_if_ok, save_locked,
  with_machines,
}
use vci.App.Configured.{load-validated}
use vci.App.Unattached.{delete_key-set_key, lookup-set_key, valid_attached}
use vci.Config.Types.{Config, Machine}
use vci.Config.Validate.{is_some, validate_config}
use vci.Config.Validation.{ConfigError, validate_machine_host}
use vci.Model.Names.{valid_name}

ok_if-not :
    (b : Bool) (s : ConfigFile) (e : ConfigureError) (o : Outcome)
    → (if b then (s, err e) else o).1 ≡ ok tt
    → (if b then (s, err e) else o) ≡ o
ok_if-not true s e o h = absurd (cc h)
ok_if-not false s e o h = refl

ok-after_check :
    {E A : Type 0} (f : E → ConfigureError) (r : Result E A) (s : ConfigFile) (o : Outcome)
    → (after_check f r s o).1 ≡ ok tt
    → after_check f r s o ≡ o
ok-after_check f (ok a) s o h = refl
ok-after_check f (err e) s o h = absurd (cc h)

-- What a successful save has found, and what it leaves.
abbrev Saved : ConfigFile → Config → Outcome → Type 0
Saved s c o =
    (validate_config c ≡ ok tt)
    × (s.writable ≡ true)
    × (o ≡ (record s { content = holds c }, ok tt))

ok-replace_content :
    (s : ConfigFile) (c : Config) (b : Bool)
    → (replace_content s c b).1 ≡ ok tt
    → (b ≡ true) × (replace_content s c b ≡ (record s { content = holds c }, ok tt))
ok-replace_content s c true h = (refl, refl)
ok-replace_content s c false h = absurd (cc h)

ok-save_checked :
    (s : ConfigFile) (c : Config) (r : Result ConfigError (Unit {0}))
    → validate_config c ≡ r
    → (save_checked s c r).1 ≡ ok tt
    → Saved s c (save_checked s c r)
ok-save_checked s c (err e) v h = absurd (cc h)
ok-save_checked s c (ok u) v h = let (w, o) = ok-replace_content s c s.writable h in (v, w, o)

ok-insert :
    (s : ConfigFile) (c : Config) (b : Bool)
    → (save_if_ok s (if b then err entry_exists else ok c)).1 ≡ ok tt
    → (b ≡ false) × Saved s c (save_if_ok s (if b then err entry_exists else ok c))
unfolding save_locked
ok-insert s c true h = absurd (cc h)
ok-insert s c false h = (refl, ok-save_checked s c (validate_config c) refl h)

mutate_config-loaded :
    (s : ConfigFile) (cfg : Config) (f : Config → Result ConfigureError Config)
    → load_config s.content ≡ ok cfg
    → mutate_config f s ≡ save_if_ok s (f cfg)
unfolding mutate_config
mutate_config-loaded s cfg f l = ap (λ r. save_if_ok s (r >>= f)) l

add_machine-mutate_config :
    (name : Text) (m : Machine) (s : ConfigFile)
    → (add_machine name m s).1 ≡ ok tt
    → add_machine name m s ≡ mutate_config (insert_machine name m) s
unfolding add_machine
add_machine-mutate_config name m s h =
    let p = ok_if-not (not (valid_name name)) s invalid_entry_name _ h in
    let q =
      ok_if-not (is_negative m.max_concurrent) s negative_slots _ (ap (λ o. o.1) (sym p) ∙ h) in
    let r =
      ok-after_check invalid_config (validate_machine_host m.host) s
        (mutate_config (insert_machine name m) s)
        (ap (λ o. o.1) (sym q) ∙ ap (λ o. o.1) (sym p) ∙ h) in
    p ∙ q ∙ r

-- What a machine that was added has changed.
added :
    (name : Text) (m : Machine) (s : ConfigFile) (cfg : Config)
    → load_config s.content ≡ ok cfg
    → (add_machine name m s).1 ≡ ok tt
    → (is_some (lookup name cfg.machines) ≡ false)
      × Saved s (with_machines cfg (set_key name m cfg.machines)) (add_machine name m s)
added name m s cfg l h =
    let e =
      add_machine-mutate_config name m s h ∙ mutate_config-loaded s cfg (insert_machine name m) l in
    let (fresh, (v, w, o)) =
      ok-insert s (with_machines cfg (set_key name m cfg.machines))
        (is_some (lookup name cfg.machines)) (ap (λ o. o.1) (sym e) ∙ h) in
    (fresh, (v, w, e ∙ o))

loaded-holds :
    (f : File Config) (cfg : Config)
    → load_config f ≡ ok cfg
    → (validate_config cfg ≡ ok tt) × (f ≡ holds cfg)
unfolding load_config
loaded-holds absent cfg h = absurd (cc h)
loaded-holds damaged cfg h = absurd (cc h)
loaded-holds (holds c) cfg h = elim (Result-cases (validate_config c)) [
  | inr (e, v) ↦ absurd (ground (arith, h, v))
  | inl (u, v) ↦
      let same : c ≡ cfg = ground (arith, h, v) in
      (ap validate_config (sym same) ∙ v, ap holds same)
]

delete_added :
    (cfg : Config) (name : Text) (m : Machine)
    → is_some (lookup name cfg.machines) ≡ false
    → attached_project name cfg.projects ≡ none
    → delete_machine name (with_machines cfg (set_key name m cfg.machines)) ≡ ok cfg
delete_added cfg name m n a =
    rw (lookup-set_key name m cfg.machines, a, delete_key-set_key name m cfg.machines n) refl

save_before :
    (s : ConfigFile) (c cfg : Config)
    → validate_config cfg ≡ ok tt
    → s.writable ≡ true
    → s.content ≡ holds cfg
    → save_locked (record s { content = holds c }) cfg ≡ (s, ok tt)
unfolding save_locked
save_before s c cfg v w held =
    ap (λ r. save_checked (record s { content = holds c }) cfg r) v
    ∙ ap (λ b. replace_content (record s { content = holds c }) cfg b) w
    ∙ (λ i. (record s { content = sym held i }, ok tt))

-- A machine that was added can be removed at once, and then the file is again what it was before, if it
-- held a configuration that validates.
pub remove_machine-add_machine :
    (name : Text) (m : Machine) (s : ConfigFile) (cfg : Config)
    → load_config s.content ≡ ok cfg
    → (add_machine name m s).1 ≡ ok tt
    → remove_machine name (add_machine name m s).0 ≡ (s, ok tt)
unfolding remove_machine
remove_machine-add_machine name m s cfg l h =
    let (fresh, (v, w, o)) = added name m s cfg l h in
    let (valid_before, held) = loaded-holds s.content cfg l in
    let c1 = with_machines cfg (set_key name m cfg.machines) in
    ap (λ o. remove_machine name o.0) o
    ∙ mutate_config-loaded (record s { content = holds c1 }) c1 (delete_machine name)
        (load-validated c1 tt v)
    ∙ ap (save_if_ok (record s { content = holds c1 }))
        (delete_added cfg name m fresh (valid_attached cfg name valid_before fresh))
    ∙ save_before s c1 cfg valid_before w held
