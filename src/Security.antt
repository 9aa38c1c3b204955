-- ===== src/Security.antt =====
-- internal/security: who may do what, and the keys. Rbac.antt is rbac/rbac.go, Policy.antt the built-in
-- roles of rbac/policy.go, Keyring.antt is encryption/keyring.go.
pub mod Rbac
pub mod Policy
pub mod Keyring
mod Samples
