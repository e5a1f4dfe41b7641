-- ===== src/Lib.antt =====
-- A model of wireproxy, a userspace WireGuard and Tailscale client that exposes proxies, and the
-- theorems about it.
--
-- The program reads ini files (config.go, tailscale_config.go), splits their sections into
-- connections, checks the connections against one another (connections.go), restricts what the
-- process may bind and connect to (cmd/wireproxy/main.go), sets up a device for each connection
-- (wireguard.go, tailscale.go), runs its proxies (routine.go, http.go, sni.go, udp_proxy.go) behind a
-- router of domains (router.go), and serves their health (health.go).
--
-- Text has Go strings as code points, with the functions of strings, strconv, net, encoding/base64
-- and encoding/hex that the program calls; Text.Utf8 has their bytes, which the credentials are
-- compared by. A string that is not valid UTF-8 has no model. `Atoi` has the range of a 64-bit
-- `int`. `itoa` runs on fuel equal to the number, which is more than it has digits.
-- Host is what the program calls outside its own code, as a record that the definitions take: the
-- environment, files, the ini library, name resolution, the parsers of addresses and regular
-- expressions, the platform's paths, and the lower case of code points beyond ASCII.
-- Config models config.go and tailscale_config.go. Config.Types has the structures, Config.Keys the
-- readers of single keys, Config.Device the interface, peer, resolve and tailscale sections,
-- Config.Routines the parsers of proxies and their table, Config.Groups `splitIntoGroups`,
-- Config.Connection `(*connGroup).parse` and `appendRoutines`, Config.File whole files. A parser
-- returns its error's message, since the code compares messages. A pointer that is filled in is
-- an argument and a result, as nothing else holds it during the call.
-- Connections models connections.go. Connections.Name has the names, Connections.Validate
-- `ValidateConnections`, Connections.StateDir the state directories and open egress, and
-- Connections.Load `LoadConfigSources`.
-- Health, Wireguard, Router, Http and Sandbox model health.go, wireguard.go, router.go, http.go and the
-- network rules of cmd/wireproxy/main.go, with the parts of routine.go that belong to them.
-- Traffic has what a goroutine does that serves one accepted connection, as a list of effects, and
-- the books that tell whether it uses and releases both connections properly. Http.Serve models
-- `serve` of http.go with its handlers and `responseWith` of util.go, Sni models sni.go, and
-- Tunnel.Forward the TCP forwards of routine.go, each as such a list; what the calls in them answer is
-- a record. Tunnel.Address models how routine.go parses and resolves addresses, and Tunnel.Ping the
-- records of pings, with the end of each probe as an event.
-- Tunnel.Spawn models `SpawnRoutine` of each routine: what it listens on and serves. Backend models
-- `StartConnection` with `StartWireguard` and `startTsnet` as the calls that they make; the wait for a
-- Tailscale node runs on fuel of 61 polls, and at most that many, 250 milliseconds apart, come before
-- its context is done at 15 seconds. Tailnet models `LookupContextHost` of tailscale.go, and
-- Health.Endpoints `ServeHTTP`, with `path.Clean` in Text.Paths.
-- Traffic.Copying has the two goroutines that copy between a client and its peer, `connForward` and
-- those of `serve`, as steps that interleave.
-- Sandbox.Stages and Main model `lock` and `main` of cmd/wireproxy/main.go: a run of the program is the
-- list of its acts, and what the system answers is a record; Main.Watch checks such a list against
-- what has been given up before each act.
-- UdpProxy models udp_proxy.go: the goroutines of the proxy as events that interleave, one for each
-- critical section and each call that blocks. UdpProxy.State has its state,
-- UdpProxy.Valid the invariant of its session table.
-- Tests has the theorems at concrete configurations, and runs of the code.
--
-- Not modelled: the loops that accept connections, the bytes that are copied, TLS, the netstack,
-- the WireGuard device and the Tailscale node, logging, and the texts of errors in connections.go,
-- wireguard.go, tailscale.go and main.go, which are constructors here. The payloads of the UDP
-- proxy have no model. A call of pledge, unveil or landlock that fails ends the process and is no
-- outcome in Main. Go visits a map in any order; where that shows only in which error is reported,
-- the model reports the first in file order. The UDP proxy's timeout and the leeway of `stale` wrap
-- at 64 bits as in the program; other durations are exact.
mod Base
pub mod Text
pub mod Host
pub mod Connections
pub mod Config
pub mod Health
pub mod Wireguard
pub mod Sandbox
pub mod Router
pub mod Http
pub mod UdpProxy
pub mod Traffic
pub mod Tunnel
pub mod Backend
pub mod Tailnet
pub mod Sni
pub mod Main
mod Tests
