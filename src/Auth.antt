-- ===== src/Auth.antt =====
-- src/auth_runtime.rs (`eal_api::auth`): who a request speaks for.
pub mod Context
pub mod Roles
pub mod Config
pub mod Jwt
pub mod Credentials
