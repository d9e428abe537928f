-- ===== src/Dash.antt =====
-- images/dash: the state of the services in a fixed list of namespaces, as a page.
pub mod Int32
pub mod Types
pub mod Classify
pub mod Tally
pub mod Client
pub mod View
pub mod Server
pub mod Start
pub mod Process
