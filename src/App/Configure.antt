-- ===== src/App/Configure.antt =====
-- internal/app/configure.go: the commands that change the configuration, with `Mutate` and `saveLocked`
-- of internal/config/config.go. The lock on the file is held from the read to the write.
use vci.Base.{
  Bool, true, false, not, Option, none, some, List, [], ◌∷◌, if◌then◌else◌, is_negative, Result, ok,
  err, ◌>>=◌, ◌>>◌, File, absent, damaged, holds, Text, codes, text_eq, lookup, set_key, delete_key,
  mem_text,
}
use vci.Config.Hosted.{HostedError, validate_hosted}
use vci.Config.Types.{Config, HostedFallback, Machine, Project}
use vci.Config.Validate.{is_some, validate_config}
use vci.Config.Validation.{ConfigError, validate_machine_host}
use vci.Model.Names.{valid_name}

pub data ConfigureError : Type 0 where
  unreadable_config config_write_failed : ConfigureError
  invalid_config : ConfigError → ConfigureError
  invalid_fallback : HostedError → ConfigureError
  invalid_entry_name negative_slots : ConfigureError
  entry_exists entry_missing client_root : ConfigureError
  attached_to_project : Text → ConfigureError

-- The file config.toml: what its decoding gives, without the validation, and whether it can be replaced.
pub record ConfigFile : Type 0 where
  pub content : File Config
  pub writable : Bool

abbrev pub Outcome : Type 0
Outcome = ConfigFile × Result ConfigureError (Unit {0})

abbrev of_config : {A : Type 0} → A → Result ConfigError (Unit {0}) → Result ConfigureError A
of_config a (ok _) = ok a
of_config a (err e) = err (invalid_config e)

unfoldable pub load_config : File Config → Result ConfigureError Config
load_config absent = err unreadable_config
load_config damaged = err unreadable_config
load_config (holds cfg) = of_config cfg (validate_config cfg)

abbrev pub replace_content : ConfigFile → Config → Bool → Outcome
replace_content s cfg true = (record s { content = holds cfg }, ok tt)
replace_content s cfg false = (s, err config_write_failed)

abbrev pub save_checked : ConfigFile → Config → Result ConfigError (Unit {0}) → Outcome
save_checked s cfg (err e) = (s, err (invalid_config e))
save_checked s cfg (ok _) = replace_content s cfg s.writable

unfoldable pub save_locked : ConfigFile → Config → Outcome
save_locked s cfg = save_checked s cfg (validate_config cfg)

abbrev pub save_if_ok : ConfigFile → Result ConfigureError Config → Outcome
save_if_ok s (err e) = (s, err e)
save_if_ok s (ok cfg) = save_locked s cfg

unfoldable pub mutate_config : (Config → Result ConfigureError Config) → ConfigFile → Outcome
mutate_config f s = save_if_ok s (load_config s.content >>= f)

unfoldable pub require_coordinator_role : ConfigFile → Result ConfigureError (Unit {0})
require_coordinator_role s = do
  cfg ← load_config s.content
  if not (text_eq cfg.orchestrator (codes "self")) then err client_root else ok tt

abbrev pub with_machines : Config → List (Text × Machine) → Config
with_machines cfg ms = record cfg { machines = ms }

abbrev pub with_projects : Config → List (Text × Project) → Config
with_projects cfg ps = record cfg { projects = ps }

abbrev pub insert_machine : Text → Machine → Config → Result ConfigureError Config
insert_machine name m cfg =
    if is_some (lookup name cfg.machines)
    then err entry_exists
    else ok (with_machines cfg (set_key name m cfg.machines))

-- A check that comes before the file is read.
abbrev pub after_check :
    {E A : Type 0} → (E → ConfigureError) → Result E A → ConfigFile → Outcome → Outcome
after_check f (ok _) s o = o
after_check f (err e) s o = (s, err (f e))

unfoldable pub add_machine : Text → Machine → ConfigFile → Outcome
add_machine name m s =
    if not (valid_name name)
    then (s, err invalid_entry_name)
    else if is_negative m.max_concurrent
    then (s, err negative_slots)
    else after_check invalid_config (validate_machine_host m.host) s
        (mutate_config (insert_machine name m) s)

abbrev pub found : {A : Type 0} → Option A → Result ConfigureError A
found none = err entry_missing
found (some a) = ok a

abbrev pub change_machine :
    Text → (Machine → Result ConfigureError Machine) → Config → Result ConfigureError Config
change_machine name f cfg = do
  m ← found (lookup name cfg.machines)
  m' ← f m
  ok (with_machines cfg (set_key name m' cfg.machines))

unfoldable pub update_machine :
    Text → (Machine → Result ConfigureError Machine) → ConfigFile → Outcome
update_machine name f s =
    if not (valid_name name)
    then (s, err invalid_entry_name)
    else mutate_config (change_machine name f) s

-- The first project that a machine is attached to.
unfoldable pub attached_project : Text → List (Text × Project) → Option Text
attached_project name [] = none
attached_project name ((project, p) ∷ ps) =
    let later = attached_project name ps in if mem_text name p.machines then some project else later

abbrev pub unattached : Option Text → Result ConfigureError (Unit {0})
unattached none = ok tt
unattached (some project) = err (attached_to_project project)

abbrev pub delete_machine : Text → Config → Result ConfigureError Config
delete_machine name cfg = do
  m ← found (lookup name cfg.machines)
  unattached (attached_project name cfg.projects)
  ok (with_machines cfg (delete_key name cfg.machines))

unfoldable pub remove_machine : Text → ConfigFile → Outcome
remove_machine name s = mutate_config (delete_machine name) s

abbrev pub insert_project : Text → Project → Config → Result ConfigureError Config
insert_project name p cfg =
    if is_some (lookup name cfg.projects)
    then err entry_exists
    else ok (with_projects cfg (set_key name p cfg.projects))

unfoldable pub add_project : Text → Project → ConfigFile → Outcome
add_project name p s =
    if not (valid_name name)
    then (s, err invalid_entry_name)
    else mutate_config (insert_project name p) s

abbrev pub change_project :
    Text → (Project → Result ConfigureError Project) → Config → Result ConfigureError Config
change_project name f cfg = do
  p ← found (lookup name cfg.projects)
  p' ← f p
  ok (with_projects cfg (set_key name p' cfg.projects))

unfoldable pub update_project :
    Text → (Project → Result ConfigureError Project) → ConfigFile → Outcome
update_project name f s =
    if not (valid_name name)
    then (s, err invalid_entry_name)
    else mutate_config (change_project name f) s

abbrev pub put_fallback : Text → HostedFallback → Config → Result ConfigureError Config
put_fallback name h cfg =
    if not (text_eq cfg.orchestrator (codes "self"))
    then err client_root
    else change_project name (λ p. ok (record p { hosted_fallback = h })) cfg

unfoldable pub set_hosted_fallback : Text → HostedFallback → ConfigFile → Outcome
set_hosted_fallback name h s =
    if not (valid_name name)
    then (s, err invalid_entry_name)
    else after_check invalid_fallback (validate_hosted h) s (mutate_config (put_fallback name h) s)

unfoldable pub clear_hosted_fallback : Text → ConfigFile → Outcome
clear_hosted_fallback name s =
    if not (valid_name name)
    then (s, err invalid_entry_name)
    else mutate_config (put_fallback name (record { url = []; commit = [] })) s
