-- ===== src/Kube.antt =====
-- What the program uses of Kubernetes: unstructured objects and their accessors, and the API
-- server. Neither is code of the repository, so both are parameters, with their documented
-- behaviour as laws.
mod Object
mod Api
pub mod Memory
pub use Object.{
  Value, null, boolean, number, text, array, object, Items, Fields, no_items, item, no_fields,
  field, field_of, Accessors, IsAccessors,
}
pub use Api.{
  Gvr, ip_pools, ip_allocations, ApiError, not_found, already_exists, conflict, api_failure,
  is_not_found, is_already_exists, Claim, Server, IsLinearizable, IsUndisturbed,
}
