-- ===== src/Manager.antt =====
-- The node manager of node-manager/src/nodemanager.rs: its seed and its nodes, and the calls of
-- JavaScript on them.
pub mod Nodes
pub mod Numbered
pub mod Invoices
pub mod Found
pub mod Channels
pub mod Closing
pub mod Balances
pub mod Connections
pub mod Peers
pub mod Merged
pub mod Sample
pub mod Tests
pub mod Opened
pub mod Onchain
pub mod Paying
use mutiny_web_poc.Prelude.{
  ℕ, ◌%◌, ◌^◌, ◌+◌, Bool, true, false, Option, none, some, List, [], ◌∷◌, Bytes,
}
