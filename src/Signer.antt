-- ===== src/Signer.antt =====
-- The signing service (crates/copytrade-signer/src): its intents, nonces, submissions and outbox.
pub mod Intent
pub mod Nonce
pub mod Submissions
pub mod Outbox
mod Tests
