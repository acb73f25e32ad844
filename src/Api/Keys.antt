-- ===== src/Api/Keys.antt =====
-- Two objects of the API server have one key exactly when namespace and name agree.
use agent_runtime_operator.Base.{◌≡◌, ap₂, true, arith, eq_iff, eq_refl}
use agent_runtime_operator.Api.Meta.{NamespacedName, same_key}

pub same_key-eq : (j k : NamespacedName) → same_key j k ≡ true → j ≡ k
same_key-eq j k h =
    let namespace : j.namespace ≡ k.namespace = (eq_iff j.namespace k.namespace).0 (ground arith) in
    let name : j.name ≡ k.name = (eq_iff j.name k.name).0 (ground arith) in
    ap₂ (λ a b. record { namespace = a; name = b }) namespace name

pub same_key_refl : (k : NamespacedName) → same_key k k ≡ true
same_key_refl k = ground (arith, eq_refl k.namespace, eq_refl k.name)
