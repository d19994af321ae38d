-- ===== src/Signing.antt =====
-- The payloads that the program signs (signing/): what an action's MarshalMsgpack encodes and what
-- its MarshalJSON posts, the bytes under the L1 digest, and the user-signed typed data.
pub mod Encoder
pub mod Reader
pub mod Orders
pub mod Modifies
pub mod Accounts
pub mod Agreement
pub mod Trading
pub mod Advanced
pub mod UserOutcomes
pub mod Validated
pub mod Deploy
pub mod Agents
pub mod Actions
pub mod Validators
pub mod Forms
pub mod Preimage
pub mod Commit
pub mod Digests
pub mod Users
mod Examples
