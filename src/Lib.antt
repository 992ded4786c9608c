-- ===== src/Lib.antt =====
-- notyetanotherenvoybackend: an NGINX backend for the agentgateway control plane.
--
-- A delta xDS client (client/client.go) subscribes to two types of resources at the control plane and
-- hands every response to the handler of its type. The address store
-- (nginxbackend/pkg/store/address.go, utils.go) is the handler of addresses: it keeps which pods serve
-- which ports of which services, and writes an NGINX upstream file for each service that a route uses.
-- The NGINX manager (nginxbackend/pkg/nginx/manager.go) writes and deletes the files and reloads NGINX.
-- The resource store (nginxbackend/pkg/store/resource.go) is the handler of binds, listeners and routes;
-- it writes the server files and the route files, and calls the address store for the upstream files of
-- its backends; the address store calls it back when a service that a route waits for gets its first pod.
--
-- Files:
--   Common       names, dictionaries, sets, texts and errors that every part shares
--   Net          net/netip: addresses from bytes and as text
--   Nginx        manager.go: WriteConfig (write_config), DeleteConfig (delete_config), Reload (reload);
--                Nginx/Names: ServiceKeyToFilename, ServiceKeyToUpstreamName; Nginx/Directive: what
--                crossplane prints; Nginx/Start: NewManager (new_manager), Start (start_nginx)
--   Address      address.go: State (the messages and AddressStore), Workloads (updateWorkload,
--                createWorkload, removeWorkloadFromServices), Config (updateServiceConfig,
--                deleteServiceConfig), Update (Update), Locked (Remove, EnsureUpstreamFile,
--                DeleteUpstreamFile, ServiceExists, SetServiceAvailableCallback)
--   Client       client.go: Setup (Config, NewADSClient), Stream (runStream, sendAck), Start (Start,
--                isPermanentError)
--   Resource     resource.go: Names (makeServerFileKey, parseServerFileKey, sanitizeFilename,
--                routeFileKey), Messages (the messages of the API), Match (generateMatchDirectives,
--                buildLocationPattern), Weights (generateWeightedBackendDirectives), State
--                (ResourceStore and its reverse lookups), Book (updateBind, updateListener,
--                updateRoute, backendToUpstreamName, routeMatchesHostname), Removals (removeBind,
--                removeListener, removeRoute, the layers of Update), Server (generateServerFile,
--                generateTLSFiles, deleteTLSFiles), Remove (Remove)
--   System       both stores over one manager: State (NewResourceStore), Routes (generateRouteFile,
--                generateLocationDirectives), Handlers (Update and Remove of both stores,
--                onServiceAvailable, and the calls of the callback in address.go)
--   Backend      nginxbackend/main.go: the two stores as handlers of the client; Backend/Main: main
--   Token        nginxbackend/main.go: gatewayAndNamespaceFromJWT
--   Debug        client/debugstore: the stores that keep and pass on what they receive
--   Examples     examples/dump/main.go and examples/adsgui/main.go: Gui (the model of the screen, Update,
--                View), Feed (removeJSON, joinMessages, the goroutine between the stores and the screen),
--                Programs (both main functions)
-- The other files below these hold the theorems; the modules named Tests, KeyTests, SteadyTests and
-- Samples hold runs on concrete data.
--
-- How the code corresponds:
--   - A Go map is an association list with one entry for a key, a map[string]struct{} a list without
--     repetition. The order in which range visits a map is a parameter of Env (visits) or of a
--     Connection, of which the address store's proofs use only that it is a permutation.
--   - The manager is a value with the files below the configuration path, the files that NGINX last
--     loaded, and a clock that counts the calls of the operating system. What the operating system,
--     NGINX and crossplane answer is a function of the clock and of the arguments (Env), so that an
--     answer may change from one call to the next.
--   - The mutex of the address store is the field locked. A handler that waits for it for ever is
--     blocked, an index out of range is panicked (Outcome); what such a call did before is not told. The handlers run one at a time, as the
--     client calls them. In Address the callback is the flag has_callback, and update returns the keys
--     that it is called with; update_addresses of System makes the calls.
--   - Go's pointer to the manager, which both stores have, is a copy of the manager in each store of a
--     System; put_resources and put_addresses keep the copies the same. The resource store's mutex is
--     the field locked of System.
--   - An int32 is its 32-bit pattern, and sums of weights wrap around. A float64 is an element of the
--     abstract record Float64, of which no law is used.
--   - The generated code of workloadapi is the record WorkloadApi, that of the agentgateway API the
--     function unmarshal of Outside. Logging has no model.
--   - The client's stream and its reconnections run on lists of what they meet: Turn for a round of the
--     receive loop, Attempt for a round of the reconnection loop. A run that comes to the end of its
--     list waits. A Duration is the 64-bit pattern of its nanoseconds; doubling it wraps around.
--   - In the screen's program a handler of a debug store and the goroutine that receives from it run as one
--     step. The channel to the screen has no buffer either: Feed counts how often the screen will receive
--     from it, and after that the goroutine holds its message (held) and receives no more. The graphical
--     libraries are the record Library, and the messages that they deliver are a list (TeaMsg).
--   - Loops over slices and sets are recursion on the list. The only fuel is that of decimal, which has
--     a round for every digit because a number has fewer digits than its value.
--
-- Not modelled: the flags of the programs (fields of World), the goroutine that waits for the NGINX
-- process and the pause in Start, the reading of flags and levels of the log; the probe server
-- (nginxbackend/pkg/probe), a constant HTTP answer; what Debug writes to the log; the deadlines and
-- cancellations of contexts, other than as errors that the client meets.
pub mod Common
pub mod Address
pub mod Client
pub mod Resource
pub mod System
pub mod Backend
pub mod Debug
pub mod Token
pub mod Net
pub mod Nginx
pub mod Examples
