-- ===== src/Exporter.antt =====
-- images/findings-exporter: findings of several sources, as one set of Prometheus metrics.
pub mod Severity
pub mod Fetch
pub mod Collected
pub mod Alertmanager
pub mod Github
pub mod GithubApp
pub mod Aws
pub mod Prowler
pub mod Store
pub mod Poll
pub mod Quote
pub mod Metrics
pub mod Exposition
pub mod Start
pub mod System
