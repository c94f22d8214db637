-- ===== src/Lib.antt =====
-- A verification library for dotvirt, a multi-tenant console for virtual machines on Kubernetes.
--
-- The server of dotvirt reads the cluster into several planes and answers a frontend from them. The
-- library models these of its packages:
--   * internal/netstate, the networking plane: it decodes the live network policies, says which of
--     them bind a workload, and traces a flow through the tiers of policy to a verdict;
--   * internal/eventbus, by which the planes tell their consumers of a change: a version for each
--     kind of change (the level) and a coalesced wake for each subscriber (the edge);
--   * internal/draft, the pending changes of a user to a project, in memory and on disk, until they
--     are proposed to git;
--   * internal/tasks, the feed of recent tasks: a ring of operations and the merged proposals;
--   * internal/ttlcache, the cache of the identity layers, whose entries live for a time;
--   * internal/project and pkg/forge/url.go, which group the namespaces of the cluster into tenants,
--     each with the repository that its namespaces agree on;
--   * internal/api/scope.go, by which every route learns what its caller may see and which project
--     the request is for;
--   * internal/manifest, in part: the line editor, which changes a manifest in the text, and the
--     steps of an edit of one VM but for its scheduling;
--   * internal/validate, the checks on names that become metadata and paths;
--   * internal/argo/argo.go, which reads the drift of each object and the rollup of each repository
--     out of the Applications of ArgoCD;
--   * internal/clusterstate and internal/inventory, the live view of the machines, and the tree of
--     each project that joins it with the repository and the drift;
--   * internal/stream, the hub that pushes to each connected identity its inventory.
-- The planes publish on the bus when a store of theirs changes, and the feed publishes on it too;
-- the draft store and the cache stand alone, and each of their methods holds one lock. The scopes
-- cache the answers of the API server in two such caches, stamped with a version of the bus, and
-- hand the set of visible namespaces to the project resolution. The inventory is built of the
-- projects so resolved, and the hub builds it for each identity whenever a level of the bus says
-- that it moved.
--
-- Which file models what:
--   Netstate/Doc        internal/netgen/doc.go, the documents of the policies, as the converter of
--                       Kubernetes fills them in, and NameIn and NamespaceNames
--   Netstate/View       internal/model/policy.go, what the API shows
--   Netstate/External   the library functions that the package calls (net/netip, the label selectors
--                       of apimachinery, strings.EqualFold, the decoding of a CNI configuration): a
--                       record, a parameter of what uses them
--   Netstate/Match      internal/netstate/effective.go and tracematch.go: the three-valued verdicts,
--                       allOf, anyOf, matchSelector, podMatch and subject.match; Combine on allOf
--                       and anyOf
--   Netstate/Rule       internal/netstate/rule.go: netpolRule, adminRule, gatewayRule, decodePorts;
--                       Rule/Summary the texts (also policies.go)
--   Netstate/Decode     internal/netstate/decode.go: a decoder for each kind of policy
--   Netstate/Snapshot   internal/netstate/netstate.go and decode.go: the stores, each the list of its
--                       objects in the order in which the store gives them, and the sorted tiers
--   Netstate/RuleMatch  internal/netstate/tracematch.go: port.match, cidrsMatch, peer.match, rule.match;
--                       Verdict on rule.match
--   Netstate/Effective  internal/netstate/effective.go: bind, selectingNetpols, Effective; DefaultDeny on
--                       its flags
--   Netstate/Policies   internal/netstate/policies.go: Policies and kindRank
--   Netstate/Topology   internal/netstate/topology.go: primaryOf, sharedSegments, segmentKey; Segments
--                       on the shared ones
--   Netstate/Catalog    internal/netstate/catalog.go: the uplinks and the adapters; Uplinks on
--                       mergeUplinks
--   Netstate/Trace      internal/netstate/trace.go: Walk (addStep, maybe, decide, verdict), Direction
--                       (directionWalk), Report (gatewayWalk, connectivity, Trace); Resolution is the
--                       reference, in which each open verdict is resolved; Certain relates the two
--   Eventbus            internal/eventbus/bus.go; Levels on the versions, Wakeup on the interleavings
--   Draft               internal/draft/draft.go: Entries (Entry.Key, the map of a draft), Codec (the
--                       field tags of Entry and what a file holds), Disk (the file system and the
--                       file names), Store (the methods), Keys, Persist
--   Tasks               internal/tasks/tasks.go; Ring on RecordOp, Merges on RecordMerge, Author on
--                       MergeAuthor
--   Ttlcache            internal/ttlcache/ttlcache.go; Window on what is read and held
--   Forge               pkg/forge/url.go; Spellings on NormalizeRepoURL
--   Project             internal/project/project.go; Member on the grouping, Tenancy on who learns of
--                       which project
--   Access              internal/api/scope.go (the server, the caller, visibleFor, ssarChecked),
--                       findProject of internal/api/proposals.go, VisibleNamespaces of
--                       internal/cluster/cluster.go; Scopes the scopes of the routes, Memo on the
--                       cached answers, Gates on what a read may list, Drafting on who may draft
--   Manifest            internal/manifest/yamlnode.go and findNamed of edit_storage.go, over the nodes
--                       of yaml.v3; Editor lineeditor.go; Sizing the steps of edit.go; Migration
--                       nextDVName, and Volumes the rest, of edit_storage.go; Devices
--                       edit_devices.go and appendItem; Meta edit_meta.go; Breaks on newLineEditor,
--                       Span on deleteChild, Splice on insertBlock, Keeps and Exclusive on applySizing
--   Validate            internal/validate/validate.go; Segments on paths of names
--   Argo                internal/argo/argo.go: Keys the identities, Reading the drift, Rollup the rollups,
--                       Tracked on the drift, Worst on the rollups; Snapshot is snapshot.go, Memo on its
--                       memoized drift under the reflector
--   Clusterstate        internal/clusterstate/clusterstate.go: LiveVMs; Workload the labels and networks
--   Inventory           internal/inventory/inventory.go and the types of internal/model/vm.go (Rows);
--                       Buckets and Tree on buildProject, Adopt is Adoptable
--   Stream              internal/stream/hub.go and the writePump of ws.go; Mailbox between the two;
--                       Repos is levels.go; World the server around the hub,
--                       Counters its levels, Fresh on what a kept frame stands for, Settle on a pass in which nothing
--                       moves, Live on the runs of the hub
--   Prelude             shared helpers: Tests the Boolean tests, Lists, Maps (association lists),
--                       Sort, ByteText and Text the texts, Chain the steps that may fail
--   Tests               runs at concrete inputs
--
-- How the code is carried over. A Go method on a pointer is a function from the old state to the
-- result and the new one. The early returns of directionWalk and gatewayWalk are a `Flow` or an
-- `Option WalkResult`: `next` goes on, `stop` leaves the tier. A nil slice or pointer that the code
-- tells from an empty one is `none`. A map is an association list, or a function that gives 0 for a
-- missing key. Numbers are natural; a priority is never negative in the API; the counters of the bus
-- wrap at 2^64. Every loop is a recursion on the list it ranges over, so no fuel is needed, but for
-- two: the decimal digits of a number have as much fuel as the number itself and one more, and the
-- search of nextDVName, which has no bound in Go, has one step more than there are names to avoid,
-- which a theorem shows to be enough.
-- A clock is an argument, and times are nanoseconds. The texts of internal/netstate are strings but
-- for its catalog, those of the other packages byte lists. A failure of the operating system is a
-- parameter, `Faults`, which says for one call which of the file operations on which path fail. A
-- draft file is bytes, which encoding/json turns into objects and back (`Json`, a parameter; that it
-- keeps objects whose texts are UTF-8 is `Lossless`); the objects and the entries are translated
-- field by field under the tags, and the edit of a VM has a conversion of its own, a parameter. In the bus,
-- a publish is two steps, the bump and the wake, and they interleave with the two steps of a
-- consumer, the receive and the read of the version. In the hub, a build and a pass span several
-- moments of the server, which moves between them: whoever changes something writes it first and
-- publishes it then, and the counters of these two do not wrap there. Hence `World` is an assumption
-- about the publishers, internal/git and the reflectors, and DepsNamed one about Deps. The inner
-- loop of Run is over the passes that it is given, one of which, in which nothing moves, a theorem
-- shows to be enough.
--
-- What a request reads of the rest of the server, the answers to a token, the version and the
-- namespaces, it reads at a moment of the clock, and the moments of a cached read, the version, the
-- look, the probe and the storing, are in that order. No other request stores an answer between the
-- look and the storing.
--
-- A response that a route writes is the error that it carries. In the line editor what panics in Go is
-- `none`, and a set of lines is a test.
--
-- Not modelled: the reflectors and clients of the cluster, the handlers of the HTTP API but for
-- their scopes, the git plane and the REST clients of the forges, metrics, authentication, and the
-- rendering of manifests are calls of libraries and of the network; yaml.v3 is a library, and its
-- nodes are where the line editor starts. The port groups of the network catalog, the changesets,
-- and ApplyEdit over its steps with the parsing, scheduling and semantic checks of manifests are not
-- in the library yet; of the live stream, the tear-down of a connection and the reading
-- and the pings of its socket are not. The operator and the frontend are separate programs.
pub mod Prelude
pub mod Netstate
pub mod Eventbus
pub mod Draft
pub mod Ttlcache
pub mod Tasks
pub mod Forge
pub mod Project
pub mod Access
pub mod Manifest
pub mod Validate
pub mod Stream
pub mod Argo
pub mod Clusterstate
pub mod Inventory
mod Tests
