-- ===== src/Web.antt =====
-- internal/web: the sessions, the login and who may see what. The pages are left out.
pub mod Session
pub mod Login
pub mod Access
pub mod Forms
pub mod Users
pub mod Sites
pub mod Packages
