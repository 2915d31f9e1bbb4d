-- ===== src/Security.antt =====
-- internal/security: the policy, and the guard that validates and resolves the paths of clients
-- (path.go, with the Unix half policy_unix.go).
pub mod Policy
pub mod Inside
pub mod Guard
pub mod Lexical
pub mod Components
pub mod Existing
pub mod Parents
pub mod Create
pub mod Root
pub mod Listing
