-- ===== src/Lib.antt =====
-- nineteenseventytwo-platform: the Go programs under images/.
--
-- images/kubescape-gate/main.go compares a Kubescape scan with a reviewed list of accepted
-- failures and sends what is new to Alertmanager. Gate holds one module for each function:
-- Gate.Normalize (generated, normalize), Gate.Scan (parseScan), Gate.Accepted (parseAccepted),
-- Gate.Difference (difference), Gate.Alerts (buildAlerts), Gate.Run (run, postAlerts), Gate.Start
-- (main, env); Gate.Types holds the types, and Gate.Nights runs one night after the other. The files,
-- encoding/json and the network are the fields
-- of Gate.Run.Outside.
--
-- images/findings-exporter turns the findings of several sources into Prometheus metrics:
-- Exporter.Severity (normalizeSeverity of main.go), Exporter.Store (the store of metrics.go and
-- its methods, each one step under the mutex), Exporter.Poll (a round of poll of main.go, as calls
-- of the store), Exporter.Fetch (getJSONLink, getJSON of sources.go), Exporter.Alertmanager and
-- Exporter.Github (the collectors of sources.go, on Exporter.Collected), Exporter.Quote (quote)
-- and Exporter.Metrics (write, writeDataTimes). Exporter.Aws holds sigv4.go: Exporter.Aws.Canonical
-- (awsEscape, canonicalPath, canonicalQuery), Exporter.Aws.Sign (signV4, hexSHA256) and
-- Exporter.Aws.WebIdentity (the credentials of webIdentity.get). Exporter.Prowler holds prowler.go:
-- Exporter.Prowler.Objects (get), Exporter.Prowler.Listing (newestReport), Exporter.Prowler.Ocsf
-- (parseOCSF) and the source itself (collect, dataTimes). Exporter.GithubApp holds githubapp.go (both
-- token sources, appJWT, loadRSAKey), and Exporter.Start what main of main.go configures, with env,
-- every, readTrimmed, splitList and the two handlers. Exporter.System is the process as a whole: the
-- pollers that main starts and the store that they share. A step begins a round, with all that collect
-- does, or makes one call of the store, and a round may begin at any time after the calls of its
-- poller's last one: the intervals of the timers are left out. Exporter.System.Atomic holds the process
-- in which a round is one step, against which that one is compared, and Exporter.System.Alerts and
-- Exporter.System.Scans what the replies of one source alone say of it. The two get and token methods hold their mutex
-- from beginning to end, so a call is one step; collect of the Prowler source does not, but one poller
-- calls it, one call after the other. A step returns its result with the state that it leaves; a
-- world is what it meets: the network, the files, the decoders, the cryptography. SHA-256, HMAC, RSA,
-- PEM, XML and JSON are fields of these worlds.
--
-- images/dash/main.go shows the state of the services in a list of namespaces: Dash.Int32 (Go's
-- int32), Dash.Types (its types), Dash.Classify (classify), Dash.Tally (the loops of namespaceView
-- over workloads and pods), Dash.Client (apiClient.get), Dash.View (namespaceView), Dash.Server
-- (routes, securityHeaders, index, style, splitList), Dash.Start (what main configures, inClusterAPI,
-- env) and Dash.Process (newServer, and main to the listener). Each
-- call of the API has a moment of its own, a number, at which the token file and the network answer;
-- a view makes three calls at most.
-- An int32 is its bit pattern below 2 ^ 32. The JSON decoder, html/template and what http.ServeMux
-- answers by itself are arguments.
--
-- Text models what the programs use of Go's strings, strconv, net/url, net/http (the names and values
-- of headers), encoding/base64, time (the date of an instant) and unicode/utf8 packages:
-- texts are lists of bytes, and white space and UTF-8 are decoded bytewise. Lowering a text that
-- is not ASCII takes the tables of package unicode as an argument. Maps are association lists in
-- some order of iteration (Prelude.Maps), sets are lists without repetitions, and sort.Slice is an
-- insertion sort (Prelude.Sort). Instants are nanoseconds since the zero time.Time, as natural
-- numbers: instants before the year 1 are not represented.
--
-- Loops over slices and maps are structural recursions, and three definitions take fuel: the decimal
-- print of a number n, whose n + 1 rounds are more than its digits, and the loops over the pages of
-- a repository's alerts and over those of the bucket's listing, for which as many rounds as there are
-- pages are enough.
--
-- Not modelled: the timers between the rounds of the pollers, the HTTP servers of the processes with
-- their timeouts, and TLS, which are the work of packages time, net/http and crypto/tls; and the
-- configuration of the cluster in YAML and shell.
pub mod Prelude
pub mod Text
pub mod Gate
pub mod Exporter
pub mod Dash
pub mod Examples
