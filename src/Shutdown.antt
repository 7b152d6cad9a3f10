-- ===== src/Shutdown.antt =====
-- main.cpp of the two servers with AsioIOServicePool, and the `Stop` of the pools: how a server ends.
pub mod Services
pub mod Shared
