-- ===== src/Client.antt =====
-- src/iperf_client_api.c: the client's side of the control connection.
pub mod Message
pub mod States
pub mod Outcome
pub mod Code
mod Examples
