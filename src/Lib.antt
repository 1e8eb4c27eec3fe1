-- ===== src/Lib.antt =====
-- A model of cfour, the architecture-model engine of the repository
-- (packages/cfour/src/index.ts), with its collaboration rules, of the results of packages/result,
-- of the store of packages/workspace-do, of the router of packages/router, of the gate of
-- packages/entropy-gate, of the registry of packages/depends and of the reviews of packages/merge-review.
--
-- The program. `BaseCfour` keeps named workspaces, each a tree of people, software systems,
-- containers, components and code elements with relationships and views. Mutators change a
-- workspace and notify listeners; a batch defers the notifications and takes back its changes
-- when it throws; claims give an editor the sole right to edit some ids, and every mutator asks
-- them first; proposals let the holders of two claims approve a relationship between them;
-- branches copy a workspace, diffs compare two, and merge plans compare three. A durable object writes
-- every event of the model to tables and rebuilds the model from them. The other packages
-- stand alone, but for merge reviews, which let a merge plan be applied when the gates passed and
-- enough reviewers approved: a router keeps the routes of each method in a trie, an entropy gate passes an input
-- through checks and shuts for a while after too many failures, and results carry data or an error.
--
-- The files.
--   Prelude       maps in insertion order, sets of ids, lists, tests; Exec the methods that may throw
--   Model         the data types; Model/Collab claims, proposals, diffs, plans
--   Model/Tree    flattenWorkspace, findNodeWithAncestry, collectDescendants
--   Model/Compare deepEqual, getObjectChanges; Model/Diff diffWorkspaces
--   Model/Patch   the writes of the adds and updates; Model/Prune the filters of removeElement
--   Cfour         the fields of BaseCfour, events and errors
--   Cfour/Events  _notify, _logEvent, queryEventHistory; Cfour/Batch batch and its snapshots
--   Cfour/Workspaces, Claims, Mutators, Removal, Proposals, Operations, Merge, Queries the
--                 methods
--   Model/Views   views built of a workspace; Cfour/Find findNodes and its kin
--   Model/Rows    the rows of a SQLite store, exportRows, rowsToWorkspace
--   Stigmergy     ClaimDO (Lease), BranchDO (Branch), ComponentRegistry (Registry)
--   Results       packages/result/src/index.ts: results, tags and match (Tags), all and allSettled
--                 (Collect), when, matchStatus and safe (Select), tryN (Retry)
--   Router        packages/router/src/index.ts: paths (Paths), the trie (Trie), HttpRouter
--   EntropyGate   packages/entropy-gate/src: the checks (Texts, Checks), the gates that remember
--                 (Gates), evaluate and the breaker
--   WorkspaceDo   packages/workspace-do/src/index.ts: the tables and their statements (Sql, Rows), the
--                 event log (Log), persist (Persist), cold starts and deletions (Hydrate)
--   Depends       packages/depends/src/index.ts: DependencyRegistry and its parents
--   MergeReview   packages/merge-review/src/index.ts: the gates (Gates), the store of reviews (Store),
--                 the policy and tryMerge (Reviews), AtomMergeResolver (Resolver)
--
-- Correspondence. A method is an action on the state that gives back a result or an error, with
-- what was written before the error. A `Map` is an association list in insertion order, a `Set` a
-- list without repetition. The clock and the random ids are streams that the state reads. A
-- workspace is a value: the program's references into a workspace that it just fetched become
-- writes at the same place, and objects that a caller keeps and changes afterwards are not
-- modelled. An event holds what its element was when it was queued; in the program the element of
-- an add is the live object, which later edits change in place, and a merge shares relationships
-- between the branch and the target. A patch of an update is a list of assignments to the fields of an element; a field
-- that its kind does not have is left out. Loops are
-- recursion on the lists that they go over; only the retries of tryN take fuel, one unit for each
-- attempt, and their theorem says that fuel for `n` attempts is enough. A function that is tried
-- acts on a state of its own, and Math.random() is a fraction whose product is exact. What other calls
-- do to an entropy gate while an evaluation awaits is a parameter, as is the order in which a database
-- gives the rows of elements and relationships. Methods with no await, or behind a lock, are one step.
--
-- Not modelled: event and snapshot storage (I/O), JSON text (a snapshot is the workspace that it
-- encodes), listeners that change the model themselves, the static facade and the hooks, the
-- React Flow export, the sharing of children between a merge plan and its branch, the system context
-- and container views, getLegend, matchCode (regular expressions), hooks and middleware of the router,
-- the RPC methods of WorkspaceDO that forward to BaseCfour, its locks, sockets and alarm, and the
-- other packages.
mod Prelude
mod Exec
pub mod Model
pub mod Cfour
pub mod Stigmergy
pub mod Results
pub mod Router
pub mod EntropyGate
pub mod Depends
pub mod MergeReview
pub mod WorkspaceDo
