-- ===== src/App/Unattached.antt =====
-- internal/app/configure.go: the maps of a configuration, and a machine that no project is attached to.
use vci.Base.{
  ◌≡◌, refl, ap, ◌⊎◌, inl, inr, true, false, not, none, some, List, [], ◌∷◌, arith, if◌then◌else◌,
  Bool-cases, All, ok, Text, codes, text_eq, text_eq_sound, text_eq_refl, lookup, set_key,
  delete_key, mem_text,
}
use vci.App.Configure.{attached_project}
use vci.Config.Types.{Config, Project}
use vci.Config.Validate.{
  check_project, check_targets, is_nil, is_some, supported_schema_version, validate_client,
  validate_config, validate_coordinator,
}
use vci.Config.Validated.{>>-ok, check_project-ProjectOk, each-ok, reject-ok}
use vci.Config.Validation.{client_machines, client_projects, reject, validate_orchestrator}

pub lookup-set_key :
    {A : Type 0} (k : Text) (a : A) (ms : List (Text × A)) → lookup k (set_key k a ms) ≡ some a
unfolding lookup set_key
lookup-set_key k a [] = rw (text_eq_refl k) refl
lookup-set_key k a ((j, x) ∷ ms) = ground (arith, text_eq_refl k, lookup-set_key k a ms)

pub delete_key-set_key :
    {A : Type 0} (k : Text) (a : A) (ms : List (Text × A))
    → is_some (lookup k ms) ≡ false
    → delete_key k (set_key k a ms) ≡ ms
unfolding lookup delete_key set_key
delete_key-set_key k a [] h = rw (text_eq_refl k) refl
delete_key-set_key k a ((j, x) ∷ ms) h = elim (Bool-cases (text_eq j k)) [
  | inl same ↦ absurd (ground (arith, h, same))
  | inr ne ↦
      rw (set_key, ne, delete_key, ne)
        (ap (λ r. (j, x) ∷ r) (delete_key-set_key k a ms (ground (arith, h, ne))))
]

-- A machine that no target check can find is attached to no project.
check_targets-unknown :
    (cfg : Config) (name : Text) (seen ms : List Text)
    → check_targets cfg seen ms ≡ ok tt
    → is_some (lookup name cfg.machines) ≡ false
    → mem_text name ms ≡ false
unfolding check_targets mem_text
check_targets-unknown cfg name seen [] h n = refl
check_targets-unknown cfg name seen (m ∷ ms) h n = elim (Bool-cases (text_eq m name)) [
  | inl same ↦
      absurd (
        ground (arith, h, n, ap (λ k. is_some (lookup k cfg.machines)) (text_eq_sound m name same)))
  | inr ne ↦ ground (arith, h, ne, check_targets-unknown cfg name (m ∷ seen) ms)
]

unattached-fresh :
    (cfg : Config) (name : Text) (ps : List (Text × Project))
    → All (λ x. check_project cfg x ≡ ok tt) ps
    → is_some (lookup name cfg.machines) ≡ false
    → attached_project name ps ≡ none
unfolding attached_project
unattached-fresh cfg name [] h n = refl
unattached-fresh cfg name ((project, p) ∷ ps) h n = ground (
  arith,
  check_targets-unknown cfg name [] p.machines (check_project-ProjectOk cfg project p h.0).targets
      n,
  unattached-fresh cfg name ps h.1 n,
)

is_nil-attached :
    (name : Text) (ps : List (Text × Project)) → is_nil ps ≡ true → attached_project name ps ≡ none
unfolding attached_project
is_nil-attached name [] h = refl
is_nil-attached name (p ∷ ps) h = absurd (cc h)

client_projects_nil : (cfg : Config) → validate_client cfg ≡ ok tt → is_nil cfg.projects ≡ true
unfolding validate_client
client_projects_nil cfg h =
    let (h1, _) = >>-ok _ _ tt h in
    let (h2, _) = >>-ok _ _ tt h1 in
    let (_, p) =
      >>-ok (reject (not (is_nil cfg.machines)) client_machines)
        (reject (not (is_nil cfg.projects)) client_projects) tt h2 in
    ground (arith, reject-ok (not (is_nil cfg.projects)) client_projects p)

valid_role :
    (cfg : Config)
    → validate_config cfg ≡ ok tt
    → (validate_coordinator cfg ≡ ok tt) ⊎ (validate_client cfg ≡ ok tt)
unfolding validate_config
valid_role cfg h = elim (Bool-cases (supported_schema_version cfg.schema_version)) [
  | inr no_schema ↦ absurd (ground (arith, h, no_schema))
  | inl schema ↦
      let (_, r) =
        >>-ok (validate_orchestrator cfg.orchestrator)
          (if text_eq cfg.orchestrator (codes "self")
            then validate_coordinator cfg
            else validate_client cfg)
          tt (ground (arith, h, schema)) in
      elim (Bool-cases (text_eq cfg.orchestrator (codes "self"))) [
        | inl self ↦ inl (ground (arith, r, self))
        | inr remote ↦ inr (ground (arith, r, remote))
      ]
]

pub valid_attached :
    (cfg : Config) (name : Text)
    → validate_config cfg ≡ ok tt
    → is_some (lookup name cfg.machines) ≡ false
    → attached_project name cfg.projects ≡ none
unfolding validate_coordinator
valid_attached cfg name v n = elim (valid_role cfg v) [
  | inr client ↦ is_nil-attached name cfg.projects (client_projects_nil cfg client)
  | inl coordinator ↦
      let (_, ps) = >>-ok _ _ tt coordinator in
      unattached-fresh cfg name cfg.projects (each-ok (check_project cfg) cfg.projects ps) n
]
