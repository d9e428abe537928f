-- ===== src/Exporter/Aws.antt =====
-- images/findings-exporter/sigv4.go: credentials for S3, and requests signed with them.
pub mod Canonical
pub mod Sign
pub mod WebIdentity
