-- ===== src/Examples.antt =====
-- Runs of the models on inputs that can be followed in the source, and the theorems at such inputs.
mod GateRuns
mod GateTheorems
mod ExporterRuns
mod ExporterTheorems
mod SourceRuns
mod SourceTheorems
mod AwsRuns
mod AwsTheorems
mod ProwlerTheorems
mod SystemTheorems
mod ScanTheorems
mod StartRuns
mod StartTheorems
mod DashRuns
mod DashTheorems
