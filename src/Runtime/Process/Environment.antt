-- ===== src/Runtime/Process/Environment.antt =====
-- Which variables a process of packages/plugin-runtime/src/process-main.ts needs.
use ts_plugins.Common.{◌≡◌, refl, Bool, true, false, Option, none, some, List, [], ◌∷◌, Text, codes}
use ts_plugins.Runtime.ServiceDefinition.{missing_variable, Resolved, resolved, unresolved, ◌>>=◌}
use ts_plugins.Runtime.Process.{
  Environment, PluginRuntimeManifest, set_value, require_env, parsed_json, parsed_if_set,
  read_runtime_process_environment,
}

-- The variables without which nothing starts, in the order in which they are read.
abbrev pub required : List Text
required =
    codes "BALANCE_PLUGIN_SOCKET_PATH"
    ∷ codes "BALANCE_PLUGIN_ENTRYPOINT"
    ∷ codes "BALANCE_PLUGIN_MANIFEST_JSON"
    ∷ []

abbrev is_set : Option Text → Bool
is_set (some (c ∷ value)) = true
is_set _ = false

-- The first of some variables that is not set, or is empty.
abbrev pub first_unset : Environment → List Text → Option Text
first_unset env [] = none
first_unset env (key ∷ keys) = elim (is_set (env key)) [
  | true ↦ first_unset env keys
  | false ↦ some key
]

-- The error of a result, if it is that a variable is missing.
abbrev pub missing_in {ℓ} : {A : Type ℓ} → Resolved A → Option Text
missing_in (unresolved (missing_variable key)) = some key
missing_in _ = none

-- A result that is missing what is said.
record Misses {ℓ} {A : Type ℓ} (result : Resolved A) (key : Option Text) : Type 0 where
  missing : missing_in result ≡ key

require_env-Misses {ℓ} :
    {A : Type ℓ} (env : Environment) (key : Text) (keys : List Text) (next : Text → Resolved A)
    → ((value : Text) → Misses (next value) (first_unset env keys))
    → Misses (require_env env key >>= next) (first_unset env (key ∷ keys))
unfolding require_env
require_env-Misses env key keys next rest = record { missing = step (env key) }
  where
    step :
        (found : Option Text)
        → missing_in (set_value key found >>= next)
          ≡ elim (is_set found) [ true ↦ first_unset env keys | false ↦ some key ]
    step none = refl
    step (some []) = refl
    step (some (c ∷ value)) = (rest (c ∷ value)).missing

parsed_json-Misses {ℓ κ} :
    {A : Type ℓ} {B : Type κ} (key : Text) (found : Option A) (next : A → Resolved B)
    → ((value : A) → Misses (next value) none)
    → Misses (parsed_json key found >>= next) none
parsed_json-Misses key none next rest = record { missing = refl }
parsed_json-Misses key (some value) next rest = rest value

parsed_if_set-Misses {ℓ κ} :
    {A : Type ℓ} {B : Type κ} (parse : Text → Option A) (key : Text) (found : Option Text)
    (next : Option A → Resolved B)
    → ((value : Option A) → Misses (next value) none)
    → Misses (parsed_if_set parse key found >>= next) none
parsed_if_set-Misses parse key none next rest = rest none
parsed_if_set-Misses parse key (some text) next rest = read (parse text)
  where
    read :
        (value : Option _)
        → Misses ((parsed_json key value >>= λ v. resolved (some v)) >>= next) none
    read none = record { missing = refl }
    read (some value) = rest (some value)

module _ {ℓ} {KvConfig : Type ℓ} (parse_manifest : Text → Option PluginRuntimeManifest)
    (parse_kv : Text → Option KvConfig) where
  read_environment-Misses :
      (env : Environment)
      → Misses
          (read_runtime_process_environment parse_manifest parse_kv env)
          (first_unset env required)
  unfolding read_runtime_process_environment
  read_environment-Misses env =
      require_env-Misses env _
        (codes "BALANCE_PLUGIN_ENTRYPOINT" ∷ codes "BALANCE_PLUGIN_MANIFEST_JSON" ∷ []) _
        (λ socket_path.
          require_env-Misses env _ (codes "BALANCE_PLUGIN_MANIFEST_JSON" ∷ []) _ (λ entrypoint_path.
            require_env-Misses env _ [] _ (λ manifest_json.
              parsed_json-Misses _ (parse_manifest manifest_json) _ (λ manifest.
                parsed_if_set-Misses parse_kv _ (env (codes "BALANCE_PLUGIN_KV_JSON")) _
                  (λ kv_config. record { missing = refl })))))

  -- To read the environment fails for want of a variable exactly if the path of the socket, the
  -- entrypoint or the manifest is not set, or empty; the error names the first of them that is, in
  -- this order, whatever the other variables are.
  pub read_runtime_process_environment_missing :
      (env : Environment)
      → missing_in (read_runtime_process_environment parse_manifest parse_kv env)
        ≡ first_unset env required
  read_runtime_process_environment_missing env = (read_environment-Misses env).missing
