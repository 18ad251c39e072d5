-- ===== src/Installers.antt =====
-- The installers: the YDB configuration, the jobs that run commands, and two databases.
pub mod YdbConfigs
pub mod Jobs
pub mod Actions
pub mod Cockroach
pub mod Yugabyte
pub mod Prometheus
