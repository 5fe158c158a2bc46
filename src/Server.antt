-- ===== src/Server.antt =====
-- src/iperf_server_api.c: the server's side of the control connection.
pub mod Message
pub mod Outcome
pub mod Wait
pub mod Expire
pub mod Release
pub mod Run
pub mod Accept
pub mod Start
pub mod Round
pub mod Shut
pub mod Closed
pub mod Released
pub mod Busy
mod Examples
mod Scenarios
