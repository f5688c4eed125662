-- ===== src/Examples/OfConfigure.antt =====
-- The commands on the configuration at a concrete file.
use vci.Base.{
  ◌≡◌, refl, true, List, [], ◌∷◌, ok, holds, codes, text_eq, has_prefix, lookup, set_key, mem_text,
}
use vci.App.Configure.{
  ConfigFile, add_machine, load_config, mutate_config, remove_machine, save_locked,
}
use vci.App.Configured.{
  ConfigChange, Keeps, adds_machine, apply_all, apply_all-Keeps, removes_machine,
}
use vci.App.Reverted.{remove_machine-add_machine}
use vci.Config.Runtime.{validate_machine_runtime}
use vci.Config.Strings.{
  contains, has_parent_segment, is_control, is_space, lower, split_path, trim_left, trim_right,
  trim_space,
}
use vci.Config.Types.{Config, Machine}
use vci.Config.Validate.{
  check_machine, supported_schema_version, validate_config, validate_coordinator,
}
use vci.Config.Validation.{validate_machine_host, validate_machine_os, validate_orchestrator}
use vci.Examples.Fixtures.{linux, mac, one_machine, one_slot}
use vci.Model.Names.{is_alnum, is_name_char, valid_name}

abbrev plain_machine : Machine
plain_machine = record one_slot { runtime = [] }

abbrev plain_config : Config
plain_config = record one_machine { machines = (mac, plain_machine) ∷ [] }

abbrev one_machine_file : ConfigFile
one_machine_file = record { content = holds plain_config; writable = true }

file_loads : load_config one_machine_file.content ≡ ok plain_config
unfolding load_config validate_config supported_schema_version validate_orchestrator
    validate_coordinator check_machine valid_name is_alnum is_name_char validate_machine_host
    validate_machine_os validate_machine_runtime lookup mem_text text_eq trim_space trim_left
    trim_right lower is_space has_prefix contains has_parent_segment split_path is_control
file_loads = refl

adds_linux : (add_machine linux plain_machine one_machine_file).1 ≡ ok tt
unfolding add_machine mutate_config save_locked set_key load_config validate_config
    supported_schema_version validate_orchestrator validate_coordinator check_machine valid_name
    is_alnum is_name_char validate_machine_host validate_machine_os validate_machine_runtime lookup
    mem_text text_eq trim_space trim_left trim_right lower is_space has_prefix contains
    has_parent_segment split_path is_control
adds_linux = refl

remove_machine-add_machine_example :
    remove_machine linux (add_machine linux plain_machine one_machine_file).0
    ≡ (one_machine_file, ok tt)
remove_machine-add_machine_example =
    remove_machine-add_machine linux plain_machine one_machine_file plain_config file_loads
      adds_linux

-- The second command fails.
abbrev two_changes : List ConfigChange
two_changes = adds_machine linux plain_machine ∷ removes_machine (codes "box") ∷ []

apply_all-Keeps_example : Keeps plain_config (apply_all two_changes one_machine_file)
apply_all-Keeps_example = apply_all-Keeps plain_config two_changes one_machine_file file_loads
