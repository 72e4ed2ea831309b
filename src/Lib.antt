-- ===== src/Lib.antt =====
-- The gateway between WireGuard clients and VLESS nodes, backend/internal.
--
-- The program runs WireGuard tunnels in userspace and sends their traffic through an embedded Xray
-- instance for each tunnel. The tunnel service (service/tunnel.go) brings a tunnel up in steps: the
-- device, the address of the TUN, policy routing, the Xray instance, the mangle chain, the FORWARD
-- rules and the NAT rule, and takes back the steps that were made when one fails. Around it stand
-- the administrator's login and tokens, the peers with their addresses and counters, an event log
-- and the answers of the HTTP interface.
--
-- Parts and files (paths from the repository's root, below backend/internal):
--   Domain, Domain/Errors: domain/*.go, the records and the chains of errors.
--   Netconf/Kernel: what the code needs of go-iptables, netlink and /proc, as a record of operations
--     with their documented behaviour (IsLawful). Netconf/TProxy, Forward, Nat and Routing:
--     infrastructure/netconf/*_linux.go as programs over that record. Netconf/Rules: what a mangle
--     chain does to a packet.
--   Wireguard: infrastructure/wireguard/manager.go. Xray: infrastructure/xrayinfra/manager.go.
--   Tunnel/Repo: infrastructure/db/tunnel_repo.go. Tunnel/World: the state of the service with what
--     it drives, and the answers of the outside to one call (Env). Tunnel/Nodes, Start, Stop and
--     Service and Create: service/tunnel.go. Tunnel/Put: app/tunnel_merge.go, app/tunnels.go and UpdateTunnel.
--   RefreshToken: service/refreshtoken/store.go. Auth: service/auth.go. Login:
--     app/auth_public_api.go. ErrorMap: api/middleware/errors.go. EventLog: service/eventlog.go.
--   ClientIp: NextClientIP of service/peer.go. Traffic: UpdateTraffic of
--     infrastructure/db/peer_repo.go. Endpoint: infrastructure/netconf/resolve_peer_endpoint_host.go.
--   Subscription/State, Repo and Nodes: infrastructure/db/subscription_repo.go over its tables, where
--     the database may refuse any statement. Subscription/Decode, Service and Manual:
--     service/subscription.go. Subscription/Junction: SetNodes and ListNodes of
--     infrastructure/db/tunnel_node_repo.go. Subscription/Outcome: rules for what a call may end in; Steps, Sound,
--     Fresh, Kept and Exchange: what a refresh leaves; Bindings, ActiveLink, Refresh, Failure,
--     Import and Twins: the theorems.
--   Vless/Query: what the links need of net/url. Vless/Transport, Security: vless/transport/*.go and
--     vless/security/*.go. Vless/Build: vless/parse.go and vless/build.go. Vless/Merge, Build/Keys and
--     the RoundTrip files: the theorems.
--   NodeHealth: service/node_health.go. Origin: security/origin/origin.go.
--   Tests: each theorem with hypotheses, applied at a concrete input.
--
-- How the code is read: a Go function is a function to its result and the state that it leaves; a Go
-- map is an association list with one entry for a key (Base/Assoc); a text is valid UTF-8, as the
-- list of its code points, and a byte slice is the list of its bytes; row ids, ports and times are
-- natural numbers without a bound; a call of the outside that may fail has its answer as an argument.
-- Loops are structural recursion; the one loop over byte values (first_free) has the 253 values from
-- 2 to 254 as its fuel. Calls of Login interleave, one critical section at a time; an operation of
-- the other parts is one step.
--
-- Not modelled: logging and metrics, locks (the tunnel service takes no lock of its own over a
-- Start), the HTTP layer, TLS, encryption, the set-up of the database, the timers of the subscription
-- refresh, the JSON of Xray's configuration and the collection of statistics.
pub mod Base
pub mod Domain
pub mod Netconf
pub mod Wireguard
pub mod Xray
pub mod Tunnel
pub mod RefreshToken
pub mod Auth
pub mod Login
pub mod ErrorMap
pub mod EventLog
pub mod Traffic
pub mod ClientIp
pub mod Subscription
pub mod Vless
pub mod Endpoint
pub mod NodeHealth
pub mod Origin
pub mod Tests
