-- ===== src/Sso.antt =====
-- Single sign-on, sso_service.py: the states of logins that are under way, the identity provider that
-- is asked over HTTPS, the accounts that are provisioned, and the roles that claims are mapped to.
pub mod States
pub mod Discovery
pub mod Exchange
pub mod Provisioning
pub mod Mappings
pub mod Login
pub mod Providers
mod Tests
