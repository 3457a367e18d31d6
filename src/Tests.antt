-- ===== src/Tests.antt =====
-- Runs of the theorems at concrete inputs.
mod Cache
mod Reader
mod Ps1
mod Nbd
mod Greet
mod Authenticator
mod Fuse
mod Daemon
