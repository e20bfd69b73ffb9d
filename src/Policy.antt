-- ===== src/Policy.antt =====
-- controllers/externaldnspolicy_controller.go: the references of a policy, the annotations by which it
-- marks the namespaces that it selects, its controller, and the watches.
pub mod Annotations
pub mod References
pub mod Enforce
pub mod Reconcile
pub mod Watch
use astradns_operator.Base.{String, Bool, Option, List}
use astradns_operator.Dict.{Dict}

-- `ExternalDNSPolicy`, with the fields that the controller reads; `is_deleted` says that the deletion
-- timestamp is set.
pub record Policy : Type 0 where
  pub name : String
  pub namespace : String
  pub uid : String
  pub is_deleted : Bool
  pub finalizers : List String
  pub selector_namespaces : List String
  pub upstream_pool_ref : String
  pub cache_profile_ref : String

-- A namespace of the cluster; `annotations` is `none` at the nil map.
pub record Namespace : Type 0 where
  pub name : String
  pub annotations : Option (Dict String)
