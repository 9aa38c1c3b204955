-- ===== src/Embedded.antt =====
-- internal/embedded: integrations that a customer embeds. Lifecycle.antt is lifecycle/manager.go, Oauth.antt is oauth/manager.go.
pub mod Lifecycle
pub mod Oauth
