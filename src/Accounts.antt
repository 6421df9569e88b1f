-- ===== src/Accounts.antt =====
-- `AccountVault` of src/common/meta/accounts.h and accounts.cpp: the accounts that are signed in, and
-- their credentials.
pub mod Vault
pub mod Index
pub mod Requests
pub mod Migration
pub mod Rows
pub mod Valid
pub mod Adopting
pub mod Keeping
pub mod Joining
pub mod Readable
pub mod Migrating
pub mod History
pub mod Runs
pub mod Leaving
pub mod Upserting
pub mod Loading
pub mod Confirming
pub mod Migrated
pub mod Keys
mod Tests
