-- ===== src/Lib.antt =====
-- HttpBroker: a TCP tunnel over HTTP. A consumer is a SOCKS5 proxy that opens a stream for each
-- connection; the broker joins the stream to a provider registered under the same endpoint name;
-- the provider dials the target. This library models the broker's bookkeeping and the bytes on the
-- way.
--
-- Scrubber (internal/provider/scrubber.go). Text holds the functions of Go's strings, bytes and
-- strconv that the file calls, on lists of byte codes. EqualFold is exact for an ASCII word, the
-- characters beyond ASCII that fold to one of its letters included; TrimSpace knows the spaces of
-- Unicode; ToLower changes ASCII letters only, which no comparison with "close", "http" or "https"
-- can tell; Atoi is that of a 64-bit machine. Proxies describes the lines that are taken out
-- without the code's own test. Headers is looksLikeHTTPRequest, scrubProxyHeaders and
-- shouldRemoveLine; Body is bodyPlan; Conn is ScrubConn with Write, absorbHeaderBytes,
-- setBodyAccounting and writeAll. The wrapped connection is the parameter `conn_write`; where a
-- theorem needs it, it keeps the contract of io.Writer (KeepsContract) or is `sink`, which takes
-- every byte. Write calls itself for the bytes behind a header: the model has fuel, and more fuel
-- than the bytes held and given is enough. The reuse of the memory of `s.buf` cannot be seen, since
-- each use of the old bytes comes before the new ones.
--
-- Registry (internal/broker/endpoint.go). Defs has Endpoint and EndpointRegistry, endpoints as
-- addresses in a store, since a waiting stream keeps a pointer; Ops has the methods. Each runs
-- under the locks, so it is one step; WaitForProvider is the look of GetProviderYamux,
-- `wait_begin`, rounds of `wait_check`, and `wait_end`. Waiters has sequences of these steps;
-- GetOrCreate is not among them, since only tests call it outside the other methods.
-- RegisterConsumerYamux takes its locks one after the other: Register has its two halves, with
-- other calls between them. A yamux session is a number, `Resumable` a parameter. Queries has the
-- methods that only read. Spec is what the registry promises its callers: a directory from names to
-- endpoints, which is empty where nothing uses a name, without addresses and locks, and whose
-- endpoints count the streams that wait; Matches compares its words with the helpers of the
-- methods. Abstraction and Flatten read a registry as a directory, Methods compares them method by
-- method, Refines call by call. Debts counts what the calls have put in and not taken out, Settling
-- and Clearing compare it with what the directory holds.
--
-- Auth (internal/broker/middleware.go, and the choice of an authenticator in NewServer).
--
-- Tunnel. Address is the address header in Dial (internal/consumer/dialer.go), bridgeStream
-- (internal/broker/relay.go) and Handle (internal/provider/handler.go); Bridge is bridgeConns, its
-- two goroutines as turns in any order; Whole puts them and the provider's Handle together.
--
-- Server. Reaper is markBrokenPoll and sweepBrokenPolls of internal/broker/server.go; Connect its
-- hooks authenticateConnect, onConnect and onDisconnect; Status the entries of handleStatus, Page
-- its whole answer; Relay is HandleProvider and HandleConsumer of internal/broker/relay.go, each
-- cut at its wait for the end; Broker runs all of them and the waiting streams as events in any
-- order, and shows that each event is a sequence of registry calls; Routes has the routes of
-- NewServer with their middleware, the answer to other paths and what the poll route does behind
-- pollmux's handler, Doors which requests come to a handler, Strangers what a run of requests
-- leaves, over handlers of pollmux that are parameters. The matching of gorilla/mux is the
-- parameter Router. Stopping is Stop: the registry after it, its error and what it calls; requests
-- that are still in flight after a Shutdown that failed are left out. Ends is about the end of a
-- provider, where onDisconnect and the end of HandleProvider come in either order. FastReaper has
-- the ticks of startFastReaper, each a sweep and the hooks of the sessions that it closes, with
-- other sessions' marks and any calls of the registry between them; Evicting is about one of them,
-- Vacancy says that a provider that is out stays out, Blackout and Replacement follow a provider
-- that died until another may take its place. Ticks are at most `fast_reaper_interval` apart where
-- a theorem says so. What pollmux answers (a session of its store, whether it closes an idle one, a
-- yamux session) is an argument.
--
-- Consumer. Queue is connQueue of internal/consumer/client.go: the rounds of acceptLoop and
-- serveLoop and the drain at the end of Run, in any order; which of two ready cases a select picks
-- is an argument, and an error of Accept is a round. Sessions adds the sessions that Run's Serve
-- starts and ends, each with its own serveLoop on that queue; Order, Patience and Accounts are
-- about the order of service, who is served while a session lasts, and where each connection is.
-- Ending is the select at the end of Serve.
--
-- Config. Settings has the structures of internal/config/config.go, Load its loadFromPath, the Load
-- functions and NewLogger. Files (os.Stat, viper) and Zap are parameters: what the load asks of a
-- path, what zap makes of a level. Broker is RunE of cmd/broker/main.go up to the settings of the
-- server, the error, or the panic of NewServer where pollmux rejects its settings, which is
-- pollmux's answer, a parameter; ConsumerCommand and ProviderCommand are RunE of
-- cmd/consumer/main.go and cmd/provider/main.go up to NewClient; Clients is what these two share.
-- Startup, Joining and Admission are about them: which settings a command starts with, and what the
-- broker's authenticateConnect answers to the meta of the client that it starts. Durations are
-- integers (Base/Int). pollmux's MaxResumeGrace, DefaultResumeGrace and PollModeStream are
-- arguments.
--
-- Provider. Copying is Handle of internal/provider/handler.go as a whole: the address and the dial
-- as in Tunnel, then the goroutine that writes to the target, through the scrubber or not, and the
-- one that writes to the stream, as turns in any order; Delivery says that both end, Serving what
-- they have delivered.
--
-- Client, Consumer/Settings, Provider/Settings, Server/Settings. The Config of the three packages
-- (internal/consumer/client.go, internal/provider/client.go, internal/broker/server.go), the
-- Connector and the ReconnectLoop that Run of a client fills, the settings that NewServer hands to
-- pollmux, and the grace that it hands to the relay.
--
-- Not modelled: pollmux, yamux, the SOCKS5 server, gorilla/mux, viper and zap, which are other
-- projects; logging; the HTTP server and Start, the declaration of flags, signals, and the clients'
-- reconnecting, which is pollmux's.
pub mod Base
pub mod Scrubber
pub mod Registry
pub mod Auth
pub mod Tunnel
pub mod Server
pub mod Consumer
pub mod Config
pub mod Client
pub mod Provider
