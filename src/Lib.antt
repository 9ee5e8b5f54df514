-- ===== src/Lib.antt =====
-- TelemetryIQ keeps the telemetry of coding assistants on the local machine and reports what it
-- proves: which files and commands a session reached, which of them a policy flags, what a request
-- cost, and which spans a trace holds. This library models the parts that decide.
--
-- - Canonical: the canonical event (internal/normalize/canonical/event.go) and the dynamic values
--   that its attributes and extensions hold. A map is the list of its entries in the order of an
--   iteration; an instant counts nanoseconds from Go's zero time.
-- - Privacy: internal/privacy/sanitizer.go, the class and boundary of a path and of a command line.
--   Governance.RiskyAccess asks it about every access.
-- - Governance: internal/governance. Access walks an event for file and command accesses and makes
--   the thin events (risky_access.go); RiskyAccess is the report on credential files
--   (risky_access.go); Glob is the path matcher and PathRules the configured path policy
--   (path_rules.go), whose rules come from Config; Skills is the skills allowlist
--   (unapproved_skills.go); Prompts matches keyword rules against the user prompts that Conversation
--   shows (prompt_keywords.go).
-- - Config: internal/config. Validate is Config.Validate with all that it calls (config.go); Manager
--   is the live configuration with its file, every save and every failing call (manager.go);
--   Allowlist is normalizedAllowlist (manager.go).
-- - Spans: internal/spans. Project is Project, Page is Page, setParentAvailability and Contains
--   (projection.go, cursor.go); Walk puts both together.
-- - Conversation: internal/conversation/projection.go, the events with retained content and their view.
-- - AgentTree: internal/agenttree/tree.go. Cycles is markCycles on the graph of the parents, Nest
--   the tree; both put together are Build.
-- - Storage: internal/storage/sqlite. Merge is what two observations of an operation become
--   (sqlite.go), Tables the tables with retention and deletion (retention.go, delete_all.go), Events
--   the event list (events.go) and its pages (internal/api/events.go), Sessions the session that is
--   derived from events (sqlite.go). Sessions counts with Conversation.
-- - Insights: internal/insights. Latest is the latest state of each key (observed_states.go), States
--   the states of governance and integrations (governance_states.go, integrations.go).
-- - Cost: internal/cost/cost.go. Catalog validates a price catalog, Select is selectPrice, Calculate
--   is Calculate, Summary is SummarizeRecords.
-- - Prelude: lists, texts, sorting and numbers that the others share. Tests: examples.
--
-- Code of other packages is an argument: the lower case of a rune outside ASCII, the formatting and
-- parsing of times and integers, the encoding of YAML, the compiler of regular expressions. Mutexes
-- are held over whole methods, so that calls follow one another. The order of a map's iteration is
-- that of its list; where the code sorts the result, the sort is modelled, and
-- Governance.Access.Orders lets each iteration have an order of its own. A cursor is what its
-- text decodes to: that a request for events with an undecodable cursor, or one without an event id,
-- is refused is left out.
--
-- Fuel: the glob matcher recurses on fuel, one more than the length of the pattern, and each step
-- takes a rune of the pattern off; its theorem has no premise on fuel. The decimal notation of an
-- index has one unit of fuel for each unit of the number. A client that follows cursors is given as
-- many pages as there are records, plus one. A walk of markCycles has one
-- unit more than there are nodes, the recursion of nest as many as there are nodes; Build never uses
-- them up.
--
-- Integers: int64 amounts wrap around (Cost.Calculate); a theorem on a sum says when it fits. Other
-- numbers are counts and lengths, the limit of a page too: its addition to a start is exact.
-- Durations saturate as time.Duration does.
--
-- Not modelled: the normalisers of the providers, the migrations of the database, its session list
-- and its cost and signal rows, the other insights, the MCP allowlist, the HTTP interface beyond the
-- pages of events, loading of files, and start-up.
pub mod AgentTree
pub mod Canonical
pub mod Config
pub mod Conversation
pub mod Cost
pub mod Governance
pub mod Insights
pub mod Prelude
pub mod Privacy
pub mod Spans
pub mod Storage
pub mod Tests
