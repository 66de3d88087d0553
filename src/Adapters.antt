-- ===== src/Adapters.antt =====
-- internal/adapters: the download clients, their configuration and the registry.
pub mod Job
pub mod Client
pub mod Spec
pub mod Prepare
pub mod Hash
pub mod Failure
pub mod Endpoint
pub mod Http
pub mod FileName
pub mod Report
pub mod Backends
pub mod Registry
pub mod Odownloader
pub mod Jdownloader
pub mod Redact
pub mod Nzbget
pub mod Qbittorrent
