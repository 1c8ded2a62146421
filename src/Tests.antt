-- ===== src/Tests.antt =====
-- Concrete runs of the models of proxy/, nginx/ and client/, and the theorems at inputs that meet their
-- hypotheses.
pub mod World
mod Wire
mod Queue
mod Queries
mod Simple
mod Stream
mod Table
mod Answers
mod Commands
mod Digest
mod Paths
mod Position
mod Backups
mod Conf
mod Stores
mod Connection
mod Loop
mod Relay
mod Timer
