-- ===== src/Pool/ConfigMap.antt =====
-- The ConfigMap that the agent reads: `upsertConfigMap`, `removeConfigKey`, the limit on its size
-- and the names that the environment may set.
pub mod Entries
pub mod Limit
use Prim.Native.String.{len}
use astradns_operator.Base.{
  ℕ, ◌+◌, ◌-◌, ◌*◌, ◌^◌, String, ◌==◌, Option, none, some, List, [], leb, Result, ok, err, map_err,
  if◌then◌else◌,
}
use astradns_operator.Text.{trim_space}
use astradns_operator.Kube.{Fetched, fetched, absent, broken}
use astradns_operator.Dict.{Dict, put, remove}

-- `agentConfigKey`
abbrev pub config_key : String
config_key = "config.json"

-- `maxAgentConfigJSONBytes`
abbrev pub max_bytes : ℕ
max_bytes = 2 ^ 20 - 4 * 2 ^ 10

-- `validateConfigMapPayloadSize`, with the size that its error names
unfoldable pub validate_payload_size : String → Result ℕ (Unit {0})
validate_payload_size rendered =
    let payload_size = len rendered + len config_key in
    if leb payload_size max_bytes then ok tt else err payload_size

-- `operatorNamespace`, where `variable` is the value of POD_NAMESPACE
unfoldable pub operator_namespace : String → String → String
operator_namespace variable fallback =
    let namespace = trim_space variable in if namespace == "" then fallback else namespace

-- `resolvedAgentConfigMapName`, where `variable` is the value of ASTRADNS_AGENT_CONFIGMAP_NAME
unfoldable pub config_map_name : String → String
config_map_name variable =
    let name = trim_space variable in if name == "" then "astradns-agent-config" else name

-- The data of a ConfigMap; `none` is the nil map.
abbrev pub Data : Type 0
Data = Option (Dict String)

-- The client's calls on ConfigMaps, by namespace and name. `CreateOrUpdate` applies a function to the
-- data that is stored, the nil map where there is no object; where it succeeds, what it made is stored,
-- and no other object is touched.
pub record ConfigMaps {ℓ κ} (E : Type ℓ) (W : Type κ) : Type (ℓ ⊔ κ) where
  pub stored : W → String → String → Option Data
  pub get_map : W → String → String → Fetched E Data
  pub create_or_update : String → String → (Data → Data) → W → Result E (Unit {0}) × W

-- the function of `upsertConfigMap`
unfoldable pub set_config : String → Data → Data
set_config rendered none = some (put [] config_key rendered)
set_config rendered (some m) = some (put m config_key rendered)

-- the function of `removeConfigKey`
unfoldable pub unset_config : Data → Data
unset_config none = some []
unset_config (some m) = some (remove m config_key)

-- The errors of `removeConfigKey`.
pub data RemoveError {ℓ} (E : Type ℓ) : Type ℓ where
  get_failed update_failed : E → RemoveError E

module _ {ℓ κ} {E : Type ℓ} {W : Type κ} (client : ConfigMaps E W) (variable : String) where
  -- `upsertConfigMap`
  unfoldable pub upsert_config_map : String → String → W → Result E (Unit {0}) × W
  upsert_config_map namespace rendered w =
      client.create_or_update namespace (config_map_name variable) (set_config rendered) w

  -- `removeConfigKey`
  unfoldable pub remove_config_key : String → W → Result (RemoveError E) (Unit {0}) × W
  remove_config_key namespace w = elim (client.get_map w namespace (config_map_name variable)) [
    | absent ↦ (ok tt, w)
    | broken e ↦ (err (get_failed e), w)
    | fetched _ ↦
        let (r, w') = client.create_or_update namespace (config_map_name variable) unset_config w in
        (map_err update_failed r, w')
  ]
