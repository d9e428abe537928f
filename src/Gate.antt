-- ===== src/Gate.antt =====
-- images/kubescape-gate/main.go: a Kubescape scan is compared with the reviewed list of accepted
-- failures. One module for each function of the file, and the proofs below them.
pub mod Types
pub mod Normalize
pub mod Scan
pub mod Accepted
pub mod Difference
pub mod Alerts
pub mod Run
pub mod Nights
pub mod Start
