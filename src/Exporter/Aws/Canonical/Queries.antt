-- ===== src/Exporter/Aws/Canonical/Queries.antt =====
-- The canonical query: it does not depend on the order in which a map is iterated, and it is that of
-- the parameters that were asked for.
use nineteenseventytwo_platf.Prelude.{nat_eq, list_eq, lookup_or-same, lookup_or-same}
