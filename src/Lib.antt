-- ===== src/Lib.antt =====
-- Neutron local services: operator-defined services that tenants reach at a VIP through a localport
-- on their network. The server plugin keeps services, their backends and their bindings to networks
-- in three tables, creates one localport for each network with attached services, and injects a host
-- route for each VIP into the network's subnets. An agent on each chassis fetches over REST what is
-- attached to a network and gives the network's namespace a way out to the backends.
--
-- Which file models what:
--   Records          the rows of neutron_local_services/db/models.py and Neutron's dicts
--   Constants        neutron_local_services/constants.py
--   Db               neutron_local_services/db/local_services_db.py. Tables is the state; each method
--                    of the mixin is a function to a result with the new tables, or an exception
--                    that leaves them as they were. Services, Backends and Bindings hold the methods,
--                    Vip the validation, Consistency the invariant of the tables. Schema has the
--                    columns of db/models.py and of the migration 0001, and Migrations has 0002 and
--                    0003 (neutron_local_services/db/migration/alembic_migrations/versions).
--   Localport        neutron_local_services/ovn/localport.py
--   HostRoutes       neutron_local_services/host_routes.py: the routes and their merge; Effective is
--                    `_enabled_services_for_network`, Handler the two subnet handlers.
--   Registry         neutron_local_services/agent/registry_client.py
--   Netns            neutron_local_services/agent/netns.py: names, the two reconcilers of the
--                    addresses in a network's namespace; Provision for provision,
--                    Lifecycle for teardown and sync
--   Plugin           neutron_local_services/plugin/plugin.py: the checks of VIPs against subnets;
--                    Reconcile for `_reconcile_network`, its steps and the loop over all networks;
--                    Requests for the methods that wrap those of the mixin
--   Extension        neutron_local_services/agent/extension.py: `reconcile_network`, its cache of the
--                    last good state of each network, and the slice that each plugin is given; Events
--                    for the port binding events, the timer's pass and the start
--   Plugins          neutron_local_services/agent/plugins/base.py: the registry of exposure plugins
--   Nat              neutron_local_services/agent/plugins/nat.py: the rendered configuration, and in
--                    Lifecycle how keepalived is started, reloaded and stopped
--   Proxy            neutron_local_services/agent/plugins/proxy.py: the entries of the catalog; Catalog
--                    for the file and its writers, Secrets for the key, the token and the nonces,
--                    Socket for the bytes on the control socket, Worker for the exchange with
--                    the proxy's worker, and Worker.Registration for the cache of registered
--                    networks against the worker's `dispatch` (proxy/worker/src/dispatcher.rs) and
--                    Worker.Health for the reported health against the worker's `clusters`
--                    (proxy/worker/src/admin.rs)
--   Underlay         neutron_local_services/agent/underlay.py: Names, Allocator for the class
--                    `UnderlayAllocator` with its state file, Endpoints for `_backend_endpoints`,
--                    Firewall for the iptables helpers, the chassis chain and the destination ACL,
--                    Provision for the veth pair and the rules of one network, Locks for the threads
--                    and the lock of one network
--   Api              neutron_local_services/api/local_services.py: the attributes of the resources
--   Cli              neutron_local_services/cli: Client and Format for _client.py and _format.py;
--                    Service, Backend and Binding for the commands of cli/osc, Arguments for their
--                    parsers; Names, Deletions and Bodies for what the commands come to
--   Base, Errors     lists, dicts, sets, sorting, texts, and methods that may raise
--   Tests            runs and theorems at concrete data
--
-- How the parts interact: HostRoutes and Localport read the tables and the state of Neutron's core
-- plugin, and Plugin drives both from the requests that Db carries out. Registry reads the same
-- tables through the REST API (Registry.Agreement says what the API answers), and both sides arrive
-- at the services that are attached to a network. Registry.Vips follows their VIPs from the tables to
-- the device in the network's namespace. Extension hands the services that Registry fetches to the
-- plugins and to Underlay.Firewall. Cli sends requests with the attributes of Api, and Cli.Names and
-- Cli.Deletions set it against a server that answers from the tables.
--
-- Parameters are the code outside the repository: `netaddr` (Netaddr), Neutron's core plugin and the
-- OVN constants (CorePlugin), OVN's mechanism driver (Plugin.Reconcile), `ip_lib` and the commands
-- that are executed (Netns, Underlay.Firewall, Nat.Lifecycle), the database under the migrations and
-- the validators of neutron_lib (Db.Migrations, Db.Schema.Fit), SHA-256, and the order in which Python
-- walks a set (Base.Sets). What a REST call, a lookup in OVN's northbound database or a request to the
-- proxy's worker answers is an argument too.
--
-- Numbers are unbounded, as Python's are. Every loop runs over a list or a given number of rounds,
-- so no fuel is needed: the allocator's search has as many rounds as the pool has slots, the check of
-- the localport's type as many as its argument `retries`, and the wait for keepalived's pid file as
-- many polls as fit before the deadline. Only the loop that reads from the control socket has fuel,
-- one round for each byte that it is to read, since each round gives at least one.
--
-- Not modelled: log lines; locks, where an operation runs under one lock and is one step, except in
-- Proxy.Catalog.Interleaved, Proxy.Worker.Registration.Stale and Underlay.Locks, where threads take
-- steps in any order; project scoping beyond an unknown predicate; sorting and paging of lists; the
-- subscription of callbacks and the start of timers; the checks that need the host's files (where a
-- probe script lies, a state directory that cannot be written); the signature of the proxy's
-- catalog, the JSON of its control requests and the descriptors that are passed with them; the
-- policies and options, which are declarations; and the proxy that is written in Rust, but for the
-- two requests of its control socket and its list of clusters.
pub mod Base
pub mod Constants
pub mod Records
pub mod Netaddr
pub mod Errors
pub mod CorePlugin
pub mod Db
pub mod Localport
pub mod HostRoutes
pub mod Registry
pub mod Netns
pub mod Extension
pub mod Plugins
pub mod Plugin
pub mod Nat
pub mod Proxy
pub mod Api
pub mod Cli
pub mod Underlay
mod Tests
