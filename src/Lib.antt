-- ===== src/Lib.antt =====
-- A model of webircgateway: the gateway through which web clients reach IRC servers.
--
-- The program takes IRC lines from web sockets and passes them on to an upstream IRC server, and the
-- upstream's lines back. pkg/irc parses and prints lines and keeps what a session knows of its
-- channels and of the server's ISUPPORT tokens. pkg/proxy is both sides of a small protocol through
-- which the gateway dials upstreams from another host. pkg/identd answers the IRC server's
-- questions about who holds a port. pkg/dnsbl asks blocklists about an address. pkg/webircgateway is the gateway: its
-- configuration, the transports and their clients, the checks on origins and addresses, the client and its signals,
-- the store of client tags, how a client gets its upstream, and what the lines of both sides change on their way.
--
-- Files and code:
--   Irc/Message        pkg/irc/message.go: ParseLine is parse_line, ToLine is to_line, createMask is
--                      create_mask; its children hold the proofs
--   Irc/Isupport       pkg/irc/isupport.go
--   Irc/State          pkg/irc/state.go
--   Proxy/Errors       the network errors that pkg/proxy/server.go and the gateway tell apart
--   Proxy/Connection   pkg/proxy/proxy.go: Dial, Read, Write and Close of the gateway's side
--   Proxy/Server       pkg/proxy/server.go: Handshake, ConnectUpstream and Run of the proxy's side
--   Proxy/Protocol     the two sides together
--   Identd/Server, Identd/Laws, Identd/Rpc   pkg/identd
--   Recaptcha          pkg/recaptcha/recaptcha.go: VerifyResponse
--   Dnsbl              pkg/dnsbl/dnsbl.go: the names of addresses, and Lookup
--   Gateway/Config     pkg/webircgateway/config.go: Sections is what Load reads of a section, Servers the servers, Load
--                      the loop over the sections
--   Gateway/Access     pkg/webircgateway/gateway_utils.go and the searches of utils.go
--   Gateway/Client     pkg/webircgateway/client.go: the record Client, its signals and its shutdown
--   Gateway/Ready      Ready and checkDnsBl of client.go
--   Gateway/Hooks      pkg/webircgateway/hooks.go
--   Gateway/Throttle   ThrottledStringChannel of utils.go, as a step relation
--   Gateway/Transports the transport_*.go files: how a client is made, Wire what is written and read, Kiwiirc the
--                      session of many channels, as a step relation
--   Gateway/Server     pkg/webircgateway/gateway.go: routes, servers and the status page
--   Gateway/Errors     typeOfErr of client.go and the texts that follow from it
--   Gateway/MessageTags   pkg/webircgateway/messagetags.go
--   Gateway/Track, Gateway/Rewrite, Gateway/FromUpstream   ProcessLineFromUpstream of
--                      client_command_handlers.go: what it tracks, what it rewrites, and the whole
--   Gateway/World      a client among the others, and the record Outside of what is not of this repository
--   Gateway/Replace    the replacements of utils.go
--   Gateway/Upstream   connectUpstream of client.go, and what it calls
--   Gateway/Registration, Gateway/FromClient   ProcessLineFromClient of client_command_handlers.go: what it
--                      does before the client has an upstream, and the rest
--   Gateway/Lines      one step of the worker of client.go: handleDataLine and the lines that pass through it
--   Program            main.go: the start, the plugins, the process signals and the end of the process; Signals has
--                      its phases
--   Base, Text, Dict, HashDict   names and lemmas that the others share
--
-- Conventions. A string is a list of byte values, and upper and lower case are those of ASCII. A map is an
-- association list. A call that Go may end with a panic returns an Outcome: ok, panic, or
-- diverge, which a function on fuel returns when its fuel runs out. ParseLine's loop over
-- the params runs on fuel of one more than the length of what is left of the text, and each round but
-- the last takes a byte of it; the loop
-- that splits a token takes 200 bytes in each round, on fuel of one more than its length. Times
-- are numbers of seconds and are arguments. A mutex is not modelled, since each operation holds it
-- from its start to its end. A Client's channel of signals is the list of signals sent and
-- whether the channel is closed.
--
-- Parameters for code outside this repository: the glob match, the random index, the net package's
-- addresses (the record Net), and in the record Outside the hash of messages, charsets, plugins, the HTTP
-- client and the JSON decoder of a captcha's verification (Service), the signing of tokens and every answer of the network; DNS (Dns and Resolver), the ini library's
-- sections with their Must methods (Section and IniKey), and the files, commands and environment that Load reads (Sources).
--
-- Fuel of the address names: the loops that swap from both ends have one more than the length of their list, and each
-- round moves both ends. A channel of Go is the list of what waits in it, of 50 at most, and whether it is closed.
--
-- Not modelled: listening and serving, HTTP itself and the socket libraries; logging; certificates; what plugins do;
-- and signals that come before Start or that signal.Notify drops.
pub mod Base
pub mod Text
pub mod Dict
pub mod HashDict
pub mod Irc
pub mod Proxy
pub mod Identd
pub mod Dnsbl
pub mod Recaptcha
pub mod Gateway
pub mod Program
