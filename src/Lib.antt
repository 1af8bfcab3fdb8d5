-- ===== src/Lib.antt =====
-- ai-evidence-bom builds a graph of the parts of an AI system (agents, models, tools, servers, prompts)
-- from traces, and keeps with every node, edge and field value the evidence that it rests on. This
-- library models the program's decision logic and proves properties of it.
--
-- Parts, and how they meet:
--   - Model (internal/model/model.go): the graph. `MergeEvidenceSummary` joins evidence,
--     `AddFieldEvidence` collects claims about the fields of a node, `EnsureFieldEvidence` upgrades old
--     nodes, `ResolveFieldEvidence` groups the claims by field and key and selects a value for each, and
--     `Canonicalize` sorts a graph. Go's maps are association lists (Maps), its slices are lists, and
--     `time.Time` is an instant (Time). A loop over a map whose order Go leaves open goes in the order of
--     the list. Model/Level, Texts, Evidence, Graph, Claims, Resolve and Canonicalize hold the definitions.
--   - Aggregate (internal/aggregate/merge.go): `Merge` joins a new snapshot to a graph by the IDs of
--     nodes and edges, resolves and sorts it, and cuts trace IDs at 20.
--   - Trust (internal/trust/policy.go): a policy of rules that grant sources a highest evidence level.
--     `Apply` caps observations, `CapGraphInPlace` caps a stored graph; both use `maximumFor`.
--   - SourceAuth (internal/sourceauth/policy.go): tokens bound to sources by their SHA-256 digests.
--   - Policy (internal/policy/policy.go): `Evaluate` compiles a policy (Policy/Selector, Policy/Rules),
--     checks every node (Policy/Evaluate), and searches the graph for denied paths (Policy/Paths).
--   - Observation (internal/input/input.go): what a span or record reports.
--   - Normalize (internal/normalize): `BuildWithOptions` builds a graph from observations.
--     Normalize/Prepare is `prepareObservations`, which hands the identity of an agent down to the spans
--     below it; Normalize/Inputs reads the nodes that an observation reports; Normalize/Builder adds them
--     and their edges; Normalize/Privacy is `MetadataOnlyObservation`.
--   - Receiver (internal/collector/receiver.go): the live receiver. Receiver/Config is the check of a
--     configuration in `New`, Receiver/Access the authorization of a request and the source that it may
--     speak for, Receiver/Seen the window of spans that have been seen (`trimDedupe`), Receiver/Traces the
--     spans that wait for their agent (`resolveTraceContexts`), Receiver/Accept the state, its start and
--     `acceptBound`, and Receiver/Runs the sequences of calls.
--   - Signing (internal/signing/signing.go): `Sign`, `SignCanonicalEvidence` and `Verify`;
--     Signing/Identity is `validateGraphIdentity` with `validateFieldEvidence`.
--   - Sarif (internal/sarif/sarif.go): `Import` of scanner findings. Sarif/Results is one result,
--     Sarif/Runs one run (`findingsForRun`), Sarif/Target the component that findings are bound to
--     (`findTarget`), Sarif/Import the graph that they are merged into.
--   - GraphDiff (internal/graphdiff/diff.go): `Compare` of two snapshots of a graph, and `HasChanges`.
--     GraphDiff/Entries says when the loops over the maps collect nothing. `reflect.DeepEqual` is a
--     parameter, since it also compares how slices and times are represented.
--   - Platform: what the program takes from Go's libraries as parameters.
--
-- Model/Invariant says what it means that every summary of a graph has a property. The Trust and
-- Aggregate modules use it for evidence that a trust policy grants, and for bounded trace IDs.
--
-- Choices:
--   - Texts are lists of code points (Text). Comparing code points orders UTF-8 texts as Go orders their
--     bytes. `strings.ToLower` above ASCII is a parameter, `lower_rune`.
--   - Regular expressions (a record of `compile` and `match_string`), SHA-256, HMAC-SHA-256 and the case
--     tables are parameters.
--   - Counts are 64-bit patterns: their addition is modulo 2 ^ 64.
--   - Loops are structural recursion. The search for a path recurs on the relations that are left.
--     `resolveAgent` and the walks along parents take fuel, one more than there are observations: each
--     call but the last meets an observation that no call before it has met. The queue of
--     `resolveTraceContexts` takes as much fuel as there are observations: each stands in it once.
--   - A result that may be an error is a `Result` (Prelude), read by do blocks where the code returns
--     early. An error is a constructor with the values that its message prints.
--   - `sort.Slice` is an insertion sort; Go does not say where equal keys go, and the sort keeps their
--     order.
--
-- Not modelled: reading and writing JSON, YAML and protobuf, files, HTTP and gRPC, key generation,
-- the CycloneDX format, and the command line.
pub mod Prelude
pub mod Text
pub mod Sorting
pub mod Maps
pub mod Time
pub mod Integer
pub mod Model
pub mod Observation
pub mod Aggregate
pub mod Trust
pub mod SourceAuth
pub mod Policy
pub mod Platform
pub mod Normalize
pub mod Receiver
pub mod Signing
pub mod Sarif
pub mod GraphDiff
pub mod Tests
