-- ===== src/Lib.antt =====
-- A model of the programs of fips-shield that are written in Rust, of the packet classifier that
-- one of them loads, and of the WebSocket filter that nginx runs, with theorems on what they do.
--
-- fips-guard (guard/src/main.rs) bans sources on a mesh interface: it writes bans into a map that
-- the kernel shares with the classifier (guard/bpf/shield_guard.bpf.c), which sees every inbound
-- packet. shield-ui (ui/src) is a read-only dashboard: an HTTP server whose answers are JSON made
-- from the outputs of shield-config, shield-ban and fips-guard, and from the tails of logs. The
-- filter (core/njs/shield_ws.js) stands between the clients of a relay and the relay: it forwards
-- the frames of a client once the message they make up has passed a policy. The bans that it looks
-- up are in a file that shield-ban writes.
--
-- Files, by what they model:
--   Base        Boolean tests, lists, results and integers on native numbers
--   Std         what the programs use of Rust's standard library: strings, numbers in text, UTF-8,
--               and the parsing and printing of addresses
--   Guard.Kernel     the structs that both sides share, and the interface to the kernel
--   Guard.Cmd        the world of a command, and the helpers at the top of main.rs
--   Guard.Bans       prune_expired, cmd_ban, cmd_unban, cmd_check and cmd_list
--   Guard.Lifecycle  cmd_load, cmd_status, cmd_watchdog, cmd_health, cmd_unload and set_config
--   Guard.Stats      cmd_stats
--   Guard.Build      guard/build.rs, which finds a compiler and builds the classifier's object
--   Guard.Main       the subcommands, their dispatch and the exit codes
--   Guard.Classifier the classifier: the ban check and the token bucket
--   Guard.Enforce    the commands against the classifier
--   Guard.System     packets and commands in any order, on the maps that both share
--   Ui.Json     ui/src/json.rs; Ui.Json.Document is an independent reader of JSON to judge it by
--   Ui.Http     ui/src/http.rs; Ui.Http.Client is a client that reads what it sends, and
--               Ui.Http.Accepting and Ui.Http.Asking have the requests that such a client sends
--   Ui.Collect  ui/src/collect.rs, with the readers of bans, counters and logs in child modules
--   Ui.Api      ui/src/main.rs
--   Njs.Runtime what the filter takes from JavaScript and nginx, a parameter: numbers, JSON.parse,
--               the clock and the file of bans
--   Njs.Bucket, Njs.Filters, Njs.Inspect   the policy: bucket and takeToken, isNarrowing and
--               checkFilters, inspect
--   Njs.Session its configuration and state, wsFrame, closeFrame, violate and flush
--   Njs.Frames  pump; the child modules say what one step, the loop and a wait do
--   Njs.Ws      headerBlockEnd, hasBareLf, onData and filter; Njs.Ws.Sessions has the sequences of
--               calls of both callbacks
--   Njs.Bans, Njs.Policy, Njs.Access   core/njs/shield_core.js: loadBans and isBanned; policy, num,
--               keyset and both configurations; access, with the dictionary of nginx, a parameter
--   Tests       runs on concrete inputs, with a concrete kernel; Tests.Units has the unit tests of
--               the dashboard
--
-- A command of the guard is a function from a world (the pinned maps, the host, the number of
-- readings of the clocks, what was printed) to a result and a world; a part of a function that has
-- a name of its own in the model is named in a comment. Where a function of the source branches
-- inside, the model has a helper for the branch. The dashboard is a function of the machine that a
-- request finds: commands by their names and arguments, files by their paths. A request is read from
-- what std's BufReader has to give, and `fetched` says how far that reader is ahead of it.
--
-- A callback of the filter is a function of the state of a session; what it sends or logs is
-- appended to a list in that state. Where inspect calls violate and returns, the model returns the
-- rule, and its caller calls violate. An early return of onData is a Boolean. Credit is counted in
-- thousandths of a token, with whole rates and knobs; each look at the clock is numbered. The
-- flush flags of s.send and the service of a verdict are left out.
--
-- aya, libc and `tc` are not part of the repository: they are the record Platform of Guard.Kernel,
-- a parameter, and the laws beside it say what bpf(2) documents of hash maps, arrays and pinned
-- maps. A failed operation changes nothing. Texts are lists of character codes and bytes lists of
-- numbers below 256. u64 arithmetic of the classifier, the clocks and the counters wraps as
-- written out; that of the ban times saturates; lengths of texts are below 2 ^ 64.
--
-- Fuel: a decimal print of n has fuel n + 1, which is above its number of digits; hexadecimal
-- groups of an address have 8 digits at most; the loop over headers runs at most 100 times in the
-- source too. The reader of JSON has the length of its text as fuel, and a lemma says that a text
-- is at least as long as the fuel that its document needs. The client reads ten lines of a head
-- at most: a response has nine and the empty one. The loop of pump has one unit for each byte at
-- hand and one more; a frame has at least six bytes, and a theorem says that the fuel is enough.
--
-- Not modelled: the reading of command lines by clap; sockets, threads and timeouts of the server;
-- the wording of errors that come from libraries; the nginx and fail2ban configuration and the
-- shell tools. Of core/njs: the JSON of the lines of the log, what njs throws, fractions, and the
-- expiry of entries in the shared dictionary. Concurrent writers of the maps are not modelled: one
-- command runs at a time, and a packet is judged on the maps before or after it.
pub mod Base
pub mod Std
pub mod Guard
pub mod Ui
pub mod Njs
pub mod Tests
