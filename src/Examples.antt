-- ===== src/Examples.antt =====
-- Runs of the model at concrete inputs.
pub mod Data
mod Sending
mod Views
mod Teams
mod Names
mod People
mod Connections
mod Tokens
mod Flows
mod Accounts
mod Settings
mod Wire
