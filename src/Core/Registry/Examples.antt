-- ===== src/Core/Registry/Examples.antt =====
-- Two tools, one of them with two versions.
use arbeiterfarm.Base.{ℕ, ◌≡◌, refl, true, none, some, [], ◌∷◌, is_some}
use arbeiterfarm.Base.Text.{lit, text_eq, strip_prefix, starts_with}
use arbeiterfarm.Core.Registry.{
  ToolSpec, SpawnConfig, insert_version, find_version, last_value, update_entry, entry_versions,
  get, get_latest, names, versions, register_entry, ToolSpecRegistry, ToolExecutorRegistry,
  register_tools, register_oop, versions_without_spec, executors_without_spec, is_exempt,
  missing_executor, specs_without_executor, validate_registries, out_of_process, duplicate,
}
use arbeiterfarm.Core.Registry.Lookup.{}
use arbeiterfarm.Core.Registry.Validation.{validate_registries-spec}

abbrev info : ℕ → ToolSpec
info version = record { name = lit "file.info"; version = version }

abbrev discover : ToolSpec
discover = record { name = lit "tools.discover"; version = 1 }

abbrev some_specs : ToolSpecRegistry
some_specs =
    (lit "file.info", (1, info 1) ∷ (2, info 2) ∷ [])
    ∷ (lit "tools.discover", (1, discover) ∷ [])
    ∷ []

abbrev worker : SpawnConfig
worker = record { supported_tools = (lit "file.info", 2) ∷ (lit "file.info", 1) ∷ [] }

abbrev executors_of_worker : ToolExecutorRegistry
executors_of_worker =
    (lit "file.info", (1, out_of_process worker) ∷ (2, out_of_process worker) ∷ []) ∷ []

registered : register_oop worker [] ≡ (none, executors_of_worker)
unfolding register_oop register_tools register_entry get entry_versions find_version update_entry
    insert_version text_eq
registered = refl

-- The first tool stays registered.
duplicate_stays :
    register_oop (record { supported_tools = (lit "a", 1) ∷ (lit "a", 1) ∷ (lit "b", 1) ∷ [] }) []
    ≡ (
      some (duplicate (lit "a") 1),
      (
        lit "a",
        (
          1,
          out_of_process
              (record { supported_tools = (lit "a", 1) ∷ (lit "a", 1) ∷ (lit "b", 1) ∷ [] }),
        )
            ∷ [],
      )
          ∷ [],
    )
unfolding register_oop register_tools register_entry get entry_versions find_version update_entry
    insert_version text_eq
duplicate_stays = refl

is_valid : validate_registries some_specs executors_of_worker ≡ []
unfolding validate_registries executors_without_spec versions_without_spec specs_without_executor
    missing_executor is_exempt get get_latest versions names entry_versions find_version last_value
    text_eq starts_with strip_prefix
is_valid = refl

validate_registries-spec_example : is_some (get (lit "file.info") 1 some_specs) ≡ true
validate_registries-spec_example =
    validate_registries-spec some_specs executors_of_worker (lit "file.info") 1 is_valid
      (unfold get entry_versions find_version text_eq in refl)
