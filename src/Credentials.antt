-- ===== src/Credentials.antt =====
-- The credentials of callers, their permissions and tokens (apps/server/src/domain/auth.ts), and the
-- decision on a token (apps/server/src/domain/managed-service.ts).
pub mod Store
pub mod External
pub mod Access
pub mod Authorize
pub mod Decision
pub mod Issue
pub mod Manage
pub mod Permissions
pub mod Replace
pub mod Passing
pub mod Holding
pub mod Available
pub mod Naming
pub mod Vouching
pub mod Conditions
pub mod Issuing
pub mod Withdrawing
pub mod Replacing
pub mod Closing
pub mod Runs
pub mod Accepting
mod Tests
