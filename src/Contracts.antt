-- ===== src/Contracts.antt =====
-- packages/contracts/src: calling, deploying, finding and maintaining contracts through providers.
pub mod Runtime
pub mod World
pub mod Zswap
pub mod LedgerTx
pub mod Call
pub mod States
pub mod Submit
pub mod UnprovenCallTx
pub mod CallTx
pub mod DeployTx
pub mod Maintenance
pub mod Find
pub mod Interfaces
