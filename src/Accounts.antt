-- ===== src/Accounts.antt =====
-- Who may do what: authentication, users and tokens, the middleware, and the limits of a user.
pub mod Auth
pub mod Middleware
pub mod Users
pub mod Limits
pub mod Verified
pub mod Bearer
