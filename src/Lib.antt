-- ===== src/Lib.antt =====
-- Verification of the web client of kd, the Kubernetes dashboard (web/src).
--
-- The server streams the graph of a cluster's resources; the client keeps it, projects and draws it,
-- tails logs and shows manifests. This library models the client's own logic, one module per source
-- file, as pure functions and as steps on explicit states, and proves what makes each part correct.
--
-- Parts, by module:
--   Common          lists by native numbers, texts, maps and sets in insertion order, sorting
--   Types           web/src/types.ts: the wire types
--   Graph.State     web/src/graphState.ts: fromSnapshot, applyPatch, both spotlights; Graph.State.History
--                   is an independent account of the state by the newest event
--   Subscription    web/src/graphSubscription.ts: the effect (subscribe, open_scope) and the handlers
--                   (handle) on the state of the client; it uses Graph.State and Nav, and
--                   Subscription.Said the account of Graph.State.History
--   Watchdog        watchedEventSource of web/src/api.ts, which carries that stream: its variables,
--                   and the event sources that the browser holds open
--   Nav             web/src/nav.ts: selection on a snapshot, deep links, keyboard steps
--   LogResume       web/src/logResume.ts: the maps live and delivered, opened and accept
--   Logs            web/src/logs.ts: splitByMatch, defaultLogContainer; Logs.Level has
--                   parseLogLevel, filterLogLines, formatLogTime
--   Ansi            web/src/ansi.ts: parseAnsi (Ansi), applyParams and the palette (Ansi.Sgr)
--   Manifest        web/src/manifestSyntax.ts: scanners (Scalar), tokenizers (Yaml, Json), lines
--                   (Lines), folds (Folds), search hits over tokens (Runs)
--   Health          web/src/health.ts, with the counts of web/src/favicon.ts and sidebarHealth.ts
--   Namespaces      web/src/ns.ts; Namespaces.Live is web/src/liveHealth.ts with the namespaces
--                   stream and the poll generation of web/src/clusterSession.ts, and
--                   Namespaces.Rows accounts for its rows by the history of events
--   Usage           web/src/usageAggregate.ts
--   Collapse        splitForFold of web/src/layout/collapse.ts
--   Layout          web/src/layout: the nodes and pills of core.ts and collapse.ts; Layout.Siblings is
--                   foldSiblingSubtrees of collapse.ts, which uses Collapse; Layout.Blocks and
--                   Layout.Hubs are hubs.ts; Layout.Components is
--                   connectedComponents of relationship.ts; Layout.Expansion is
--                   web/src/components/topology/collapseState.ts
--   KindStats       web/src/kindStats.ts, over the nodes and pills of Layout
--   Rollup          descendantPods of web/src/loggable.ts
--   Spotlight       web/src/components/topology/spotlight.ts, with Graph.State, Search and Controls
--   Keyboard        web/src/appKeyboard.ts, which walks the candidates of Nav
--   Session         web/src/clusterSession.ts, with Namespaces and Namespaces.Live
--   UrlState        web/src/urlState.ts and prefs.ts: the view, its query and its stored preferences
--   Time            web/src/time.ts
--   Bars            web/src/resourceBars.ts, with resourceOf of resource.ts
--   Selection       web/src/selection.ts, with Graph.State, Rollup, Usage and Bars
--   Exit            web/src/components/topology/exitAnimation.ts
--   Relationships   web/src/relationships.ts
--   Names           web/src/names.ts, without kindShortLabel and the tooltips
--   Search          web/src/search.ts
--   Controls        web/src/filterToggle.ts, rovingFocus.ts, fade.ts
--   Tests           concrete inputs
-- A child module of a part holds lemmas and theorems about it, named for what they are about.
--
-- How the code is read:
--   * A string is the list of its UTF-16 code units. A Map, Set or string-keyed object is a list in
--     insertion order; that an object puts integer-like keys first, and what it inherits, is left out.
--   * A number that the code uses as a count, an index or a quantity is a natural number; a search
--     that gives -1 is an option. The components of an rgb() colour keep their decimal text, so
--     rounding above 2^53 is not modelled.
--   * The collation localeCompare and toLowerCase belong to the host and are parameters. Where a
--     theorem needs more, it is a hypothesis: the collation is a consistent total preorder,
--     lower-casing keeps words of lower-case ASCII letters, or takes the letters of ASCII text one by one.
--   * The signals of Solid are fields of a state record, and an effect or a handler is a function on
--     it. A handler that throws gives none, and the listener then leaves the state as it was.
--   * A loop is structural recursion, or has fuel: one round per edge and one more for the spotlight,
--     the roots and the edges for the descendants of a fold, one round per node and one more for
--     descendantPods, one step per edge for the loops of union and find, the length of the text for
--     parseAnsi, tokenizeJson and splitByMatch. The theorems on these functions include that the fuel
--     suffices.
--   * A fraction of a bar is the exact ratio that the floating point number stands for.
--   * The query of a URL is the list of its parameters, as URLSearchParams reads and writes it, and the
--     storage is missing where it throws. A time is its milliseconds, or none where it cannot be read.
--   * The delay that the watchdog draws with Math.random is an argument of the timeout, of any size.
--
-- Not modelled: the Go server, the Solid components, the placement and the curves of the layouts,
-- what else reads or writes the browser, tables of colours and hints, the parsers of JSON and logfmt
-- log lines. A node carries the fields that the modelled code reads.
pub mod Common
pub mod Types
pub mod Graph
pub mod Manifest
pub mod Ansi
pub mod Health
pub mod Namespaces
pub mod Nav
pub mod Subscription
pub mod Logs
pub mod LogResume
pub mod Watchdog
pub mod Usage
pub mod Bars
pub mod Selection
pub mod Exit
pub mod Collapse
pub mod Relationships
pub mod Names
pub mod Search
pub mod Session
pub mod UrlState
pub mod Time
pub mod Rollup
pub mod Layout
pub mod Spotlight
pub mod Keyboard
pub mod KindStats
pub mod Controls
pub mod Tests
