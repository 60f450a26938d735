-- ===== src/Core/Registry.antt =====
-- af/crates/af-core/src/registry.rs: tool specifications and executors, keyed by name and version. A
-- HashMap is an association list, whose order stands for the order of its iteration; a BTreeMap is
-- an association list in the order of its keys.
pub mod Lookup
pub mod Validation
pub mod Examples
use arbeiterfarm.Base.{
  ℕ, Bool, ◌||◌, Option, none, some, List, [], ◌∷◌, ◌++◌, map, ltb, ◌==◌, if◌then◌else◌, ◌>>=◌,
  is_some,
}
use arbeiterfarm.Base.Text.{Text, lit, text_eq, starts_with}

-- What the registry reads of a specification.
pub record ToolSpec : Type 0 where
  pub name : Text
  pub version : ℕ

-- What it reads of a configuration and of an executor.
pub record SpawnConfig : Type 0 where
  pub supported_tools : List (Text × ℕ)

pub record ToolExecutor : Type 0 where
  pub tool_name : Text
  pub tool_version : ℕ

pub data ExecutorEntry : Type 0 where
  in_process : ToolExecutor → ExecutorEntry
  out_of_process : SpawnConfig → ExecutorEntry

pub data RegistryError : Type 0 where
  duplicate executor_without_spec spec_without_executor : Text → ℕ → RegistryError

module _ {ℓ} {A : Type ℓ} where
  -- `BTreeMap<u32, A>::insert` of a version that is not there.
  unfoldable pub insert_version : ℕ → A → List (ℕ × A) → List (ℕ × A)
  insert_version v a [] = (v, a) ∷ []
  insert_version v a ((w, b) ∷ rest) =
      if ltb v w then (v, a) ∷ (w, b) ∷ rest else (w, b) ∷ insert_version v a rest

  unfoldable pub find_version : ℕ → List (ℕ × A) → Option A
  find_version v [] = none
  find_version v ((w, a) ∷ rest) = if v == w then some a else find_version v rest

  -- `values().next_back()`
  unfoldable pub last_value : List (ℕ × A) → Option A
  last_value [] = none
  last_value ((w, a) ∷ rest) = elim (last_value rest) [ none ↦ some a | some b ↦ some b ]

  -- `entry(name).or_default()`, changed by `f`.
  unfoldable pub update_entry :
      Text → (List (ℕ × A) → List (ℕ × A)) → List (Text × List (ℕ × A)) → List (Text × List (ℕ × A))
  update_entry name f [] = (name, f []) ∷ []
  update_entry name f ((n, vs) ∷ rest) =
      if text_eq n name then (n, f vs) ∷ rest else (n, vs) ∷ update_entry name f rest

  unfoldable pub entry_versions : Text → List (Text × List (ℕ × A)) → Option (List (ℕ × A))
  entry_versions name [] = none
  entry_versions name ((n, vs) ∷ rest) =
      if text_eq n name then some vs else entry_versions name rest

  -- `get`, of both registries.
  unfoldable pub get : Text → ℕ → List (Text × List (ℕ × A)) → Option A
  get name version entries = do vs ← entry_versions name entries; find_version version vs

  unfoldable pub get_latest : Text → List (Text × List (ℕ × A)) → Option A
  get_latest name entries = do vs ← entry_versions name entries; last_value vs

  -- `list`
  unfoldable pub names : List (Text × List (ℕ × A)) → List Text
  names = map (λ e. e.0)

  unfoldable pub versions : Text → List (Text × List (ℕ × A)) → List ℕ
  versions name entries = elim (entry_versions name entries) [
    | none ↦ []
    | some vs ↦ map (λ e. e.0) vs
  ]

  -- A registration: the error, if any, and the entries afterwards.
  unfoldable pub register_entry :
      Text → ℕ → A → List (Text × List (ℕ × A)) → Option RegistryError × List (Text × List (ℕ × A))
  register_entry name version a entries =
      if is_some (get name version entries)
      then (some (duplicate name version), entries)
      else (none, update_entry name (insert_version version a) entries)

abbrev pub ToolSpecRegistry : Type 0
ToolSpecRegistry = List (Text × List (ℕ × ToolSpec))

abbrev pub ToolExecutorRegistry : Type 0
ToolExecutorRegistry = List (Text × List (ℕ × ExecutorEntry))

unfoldable pub register_spec : ToolSpec → ToolSpecRegistry → Option RegistryError × ToolSpecRegistry
register_spec spec specs = register_entry spec.name spec.version spec specs

unfoldable pub register_executor :
    ToolExecutor → ToolExecutorRegistry → Option RegistryError × ToolExecutorRegistry
register_executor executor entries =
    register_entry executor.tool_name executor.tool_version (in_process executor) entries

-- The loop of `register_oop`: what was registered before a duplicate stays.
unfoldable pub register_tools :
    SpawnConfig
    → List (Text × ℕ)
    → ToolExecutorRegistry
    → Option RegistryError × ToolExecutorRegistry
register_tools config [] entries = (none, entries)
register_tools config ((name, version) ∷ rest) entries =
    let (error, entries') = register_entry name version (out_of_process config) entries in
    let more = register_tools config rest entries' in
    elim error [ some e ↦ (some e, entries') | none ↦ more ]

unfoldable pub register_oop :
    SpawnConfig → ToolExecutorRegistry → Option RegistryError × ToolExecutorRegistry
register_oop config entries = register_tools config config.supported_tools entries

-- The first loop of `validate_registries`, over the versions of a name and over the names.
unfoldable pub versions_without_spec : ToolSpecRegistry → Text → List ℕ → List RegistryError
versions_without_spec specs name [] = []
versions_without_spec specs name (v ∷ vs) =
    let more = versions_without_spec specs name vs in
    if is_some (get name v specs) then more else executor_without_spec name v ∷ more

unfoldable pub executors_without_spec :
    ToolSpecRegistry → ToolExecutorRegistry → List Text → List RegistryError
executors_without_spec specs executors [] = []
executors_without_spec specs executors (n ∷ ns) =
    versions_without_spec specs n (versions n executors)
    ++ executors_without_spec specs executors ns

-- The tools that need no executor.
unfoldable pub is_exempt : Text → Bool
is_exempt name = starts_with name (lit "internal.") || text_eq name (lit "tools.discover")

-- The body of the second loop.
unfoldable pub missing_executor :
    ToolSpecRegistry → ToolExecutorRegistry → Text → List RegistryError
missing_executor specs executors name =
    if is_exempt name then [] else elim (get_latest name specs) [
      | none ↦ []
      | some spec ↦
          if is_some (get name spec.version executors)
          then []
          else spec_without_executor name spec.version ∷ []
    ]

unfoldable pub specs_without_executor :
    ToolSpecRegistry → ToolExecutorRegistry → List Text → List RegistryError
specs_without_executor specs executors [] = []
specs_without_executor specs executors (n ∷ ns) =
    missing_executor specs executors n ++ specs_without_executor specs executors ns

-- The errors; the code returns `Ok` where there is none.
unfoldable pub validate_registries : ToolSpecRegistry → ToolExecutorRegistry → List RegistryError
validate_registries specs executors =
    executors_without_spec specs executors (names executors)
    ++ specs_without_executor specs executors (names specs)
