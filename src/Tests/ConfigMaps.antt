-- ===== src/Tests/ConfigMaps.antt =====
-- The ConfigMap behind the circuit breaker, and the stamp of a pool.
use astradns_operator.Base.{
  ◌∷◌, String, ◌==◌, ◌&&◌, Option, none, some, [], Result, ok, ◌≡◌, refl, if◌then◌else◌, eq_refl,
}
use astradns_operator.Text.{parse_int64, trim_space, is_space}
use astradns_operator.Kube.{Fetched, fetched, absent}
use astradns_operator.Dict.{get}
use astradns_operator.Api.{Pool}
use astradns_operator.Pool.Select.{initial_rv_annotation, initial_rv}
use astradns_operator.Pool.Circuit.{Circuit, Clock, upsert}
use astradns_operator.Pool.Stamp.{annotations_of, stamp, ensure_initial_rv}
use astradns_operator.Pool.Stamp.Once.{version_of, ensure_initial_rv-once}
use astradns_operator.Pool.ConfigMap.{
  Data, ConfigMaps, upsert_config_map, remove_config_key, validate_payload_size, operator_namespace,
}
use astradns_operator.Pool.ConfigMap.Entries.{data_of, entry, IsStore, is_config, upsert-publishes}
use astradns_operator.Samples.{plain_pool}

abbrev pub Cluster : Type 0
Cluster = String → String → Option Data

abbrev look : Option Data → Fetched String Data
look none = absent
look (some d) = fetched d

-- A client whose calls succeed.
abbrev pub client : ConfigMaps String Cluster
client = record {
  stored = λ w n m. w n m;
  get_map = λ w n m. look (w n m);
  create_or_update = λ namespace name f w. (
    ok tt,
    λ n m. if n == namespace && m == name then some (f (data_of (w namespace name))) else w n m,
  );
}

look_missing : (d : Option Data) → look d ≡ absent → d ≡ none
look_missing none h = refl
look_missing (some d) h = cc

pub client-IsStore : IsStore client
client-IsStore = record {
  missing = λ w namespace name h. look_missing (w namespace name) h;
  written = λ w namespace name f h. rw (eq_refl namespace, eq_refl name) refl;
  others = λ w namespace name n m f h. rw h refl;
}

abbrev pub no_maps : Cluster
no_maps n m = none

abbrev pub closed : Circuit
closed = record { failure_counts = []; open_until = [] }

abbrev pub noon : Clock
noon = record { asked = 12; failed = 12; opened = 12 }

published : (upsert (upsert_config_map client "" "dns" "{}") "dns" noon no_maps closed).0 ≡ ok tt
unfolding upsert get upsert_config_map
published = refl

upsert-publishes_example :
    let w = (upsert (upsert_config_map client "" "dns" "{}") "dns" noon no_maps closed).1 in
    entry (w "dns" "astradns-agent-config") "config.json"
    ≡ (if is_config "" "dns" "dns" "astradns-agent-config" "config.json" then some "{}" else none)
upsert-publishes_example =
    upsert-publishes client client-IsStore "" "dns" "{}" noon no_maps closed "dns"
      "astradns-agent-config" "config.json" published

abbrev pub one_map : Cluster
one_map n m = some (some (("config.json", "{}") ∷ []))

removed : (remove_config_key client "" "dns" one_map).0 ≡ ok tt
unfolding remove_config_key
removed = refl

-- A patch that stores what it is given.
abbrev stored_patch : Pool → Pool → Result String Pool × Pool
stored_patch pool w = (ok pool, pool)

abbrev fresh : Pool
fresh = plain_pool "fresh" 10 none

fresh_unstamped : get (annotations_of fresh) initial_rv_annotation ≡ none
unfolding get
fresh_unstamped = refl

ensure_initial_rv-once_example :
    let stamped : Pool = stamp fresh in
    let next : Pool = record stamped { resource_version = "99" } in
    (ensure_initial_rv stored_patch fresh fresh ≡ stored_patch stamped fresh)
    × (initial_rv stamped ≡ version_of (parse_int64 "7"))
    × (ensure_initial_rv stored_patch next fresh ≡ (ok next, fresh))
    × (initial_rv next ≡ initial_rv stamped)
ensure_initial_rv-once_example =
    ensure_initial_rv-once stored_patch fresh "99" fresh fresh fresh_unstamped

small_payload : validate_payload_size "{}" ≡ ok tt
unfolding validate_payload_size
small_payload = refl

operator_namespace_falls_back : operator_namespace " " "dns" ≡ "dns"
unfolding operator_namespace trim_space is_space
operator_namespace_falls_back = refl
