-- ===== src/NetworkCapture.antt =====
-- The programs of dev_examples/network_capture.
pub mod Dump
pub mod Packet
pub mod Struct
pub mod Cap
pub mod Sniffex
pub mod Startup
