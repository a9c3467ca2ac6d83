-- ===== src/Examples.antt =====
-- Concrete inputs: an outside world that keeps the laws, and one run of each theorem.
pub mod Store
pub mod Numbers
pub mod Outside
mod Recovery
mod Runs
mod Rules
mod Queues
mod Sockets
mod Ratings
mod Visits
mod Services
mod Tables
mod Accounts
