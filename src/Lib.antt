-- ===== src/Lib.antt =====
-- perch-apd is the agent of an OpenWrt access point. It holds the access point's side of the
-- controller's device groups, writes UCI configurations, and undoes what the controller does not
-- confirm. This library models its core:
--
-- - `Base`: shared types and lemmas. Bytes are native numbers, a string is their list, and `Base.Text`
--   and `Base.Number` have the functions of Go's `strings` and `strconv` that the code uses.
-- - `Uci` (internal/uci/uci.go): the agent's own UCI editor. `Uci.Tokens` is `tokenize`, `Quote` and
--   `validName`; `Uci.File` is `File` with `Parse`, `Get`, `GetList`, `EnsureSection`, `Set`, `Delete`
--   and `Bytes`, and its children prove that edits and the rendered text agree.
-- - `ApplyLock` (internal/applylock/applylock.go): the one write lock of the access point. Holds are
--   compared by pointer in the code; here each hold has a number of its own.
-- - `Groups` (internal/groups): the device groups. `Groups.Names` and `Groups.Desired` are the names and
--   the checks of plan.go, `Groups.Ledger` its `undo`, `Groups.Draft` its planner and `convert`,
--   `Groups.Plan` and `Groups.Assemble` the function `Plan`. `Groups.Psk` is psk.go and
--   `Groups.Trunk` trunk.go. `Groups.Engine` is engine.go: `Start`, the timer and
--   the rollback, and in `Groups.Engine.Apply` the functions `Apply` and `Confirm`.
-- - `WifiPlane` (internal/wifiplane): `WifiPlane.Expect` is `expectFrom`, `WifiPlane.Health` and
--   `WifiPlane.Report` are `evaluate` of health.go, with
--   `healthBefore` in `WifiPlane.Report.Broken`, and `WifiPlane.Monitor` is monitor.go.
--   `WifiPlane.Guard` is guard.go, the boot guard and the file system that it keeps in step.
--   `WifiPlane.Screen` is screen.go, the checks before and behind an apply, and `WifiPlane.Service` the
--   plane's lock, the routes of `Serve` and `reloadKind` of wifiplane.go.
-- - `Agent` (internal/agent/redial.go, and the session pointer, `retryDelay` and the wait of `Run` in
--   agent.go): what the agent keeps of its session, and when it dials again. `Agent.Sessions` proves that
--   session numbers are fresh, `Agent.Redial` how long a dial waits.
--   `Agent.Push` is push.go, the params of a `metrics.push` with the escaped text in them.
-- - `Leds` (internal/leds/leds.go): locate. `Leds.Effects` has what a restoration leaves in the LEDs' files,
--   `Leds.Restored` proves what the end of a blink puts back, `Leds.Recovered` what a restart does.
-- - `Update` (internal/update/update.go): the updater's side of the write lock. `Update.Held` proves how long
--   an update keeps it, `Update.Waits` that the wait before the first dial ends.
-- - `Config` (internal/config/config.go): the daemon's settings, read from `Uci.File` and edited in it.
-- - `Nl80211` (internal/nl80211): wiphy.go is in `Nl80211.Radio`, `Nl80211.Combinations`, `Nl80211.Bands`,
--   `Nl80211.Regulatory` and `Nl80211.Wiphy`, which puts a split dump together; nl80211.go is in
--   `Nl80211.Link`, `Nl80211.Stations` and `Nl80211.Survey`, with the tables in `Nl80211` itself.
--
-- The parts meet in `Groups.Engine`: `Apply` validates, takes the lock, plans, saves the rollback
-- copies, records the pending apply, writes and reloads; `Confirm`, the timer or a restart closes the
-- window and frees the lock. The Wi-Fi plane and the updater are the other writers of the same lock:
-- `WifiPlane.Service.Writers` has all three, and `WifiPlane.Screen` meets the ledger that `Groups.Plan`
-- writes.
--
-- The UCI package that internal/groups calls lies in another repository. It is the record `Kit`, an
-- argument of the definitions, and so are its parser and printer and the digest of a passphrase. The
-- file system, the reload command and the clock are the record `Env`, an input of each operation: which
-- writes succeed, and what is read. Each operation holds the engine's mutex, so it is one step; a crash
-- is a restart from the files. Times are whole seconds, in the monitor and in `Agent` nanoseconds, and in
-- `Update.Rounds` milliseconds.
--
-- Loops over lists are structural. The loop of `parsePSKLine` runs on the line's length as fuel, and the
-- search for a free VLAN on the number of used ids; `Groups.Psk.Line` and `Groups.Draft.Untagged` prove
-- that both are enough. The escaping loop of `Agent.Push` and the scan of a forwarding table in
-- `Groups.Trunk` run on the length of what they read, and the wait in `Update` on a number of rounds;
-- `Agent.Push.RoundTrip`, `Groups.Trunk.Learned` and `Update.Waits` prove that these are enough.
-- Integers that the code bounds are native numbers; those that it tests for their sign are ℤ.
--
-- A Go `int` has 64 bits in `Nl80211`, so it holds every `uint32`; in `Config` its limit is an argument.
-- The attribute decoder of the netlink package is an argument of the parsers, `net/url` of `Config`, and
-- what the Wi-Fi kit decodes and answers of `WifiPlane.Screen` and `WifiPlane.Service`. In
-- `WifiPlane.Guard` the calls of one kind succeed or fail together.
--
-- Not modelled: the texts of errors and issues, log lines, file modes, the reads `State` and `Owned` of
-- the engine, and the parts around the core: the connection of a session and its messages, metrics, host
-- facts, the kit's updater, installation, netlink sockets, the commands, and the wiring of the
-- Wi-Fi config plane to its kit.
pub mod Agent
pub mod ApplyLock
pub mod Base
pub mod Config
pub mod Groups
pub mod Leds
pub mod Nl80211
pub mod Uci
pub mod Update
pub mod WifiPlane
