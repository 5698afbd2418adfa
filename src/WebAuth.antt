-- ===== src/WebAuth.antt =====
-- src/web-auth: the sessions of the browser.
pub mod Credential
pub mod Session
pub mod Cookie
pub mod Identity
pub mod SignIn
