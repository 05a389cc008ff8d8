-- ===== src/Proxy.antt =====
-- The proxy: src/cmon_proxy/cmon_proxy.c and cmon_proxy.h. `c_proxy_injection_manager_add` does
-- nothing, `c_proxy_start` hands accepted descriptors to threads; both are left out, and so is
-- output.
pub mod Relay
pub mod Client
pub mod Manager
pub mod Start
mod Sample
