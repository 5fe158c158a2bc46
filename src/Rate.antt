-- ===== src/Rate.antt =====
-- src/iperf_api.c: the limits on the rate of a test.
pub mod Total
pub mod Window
pub mod Exceeded
pub mod Overflow
pub mod Send
pub mod Overshoot
mod Examples
