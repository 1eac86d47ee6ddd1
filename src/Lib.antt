-- ===== src/Lib.antt =====
-- duto-ai compiles a workflow of agents into a plan and runs it under policies that its own code
-- enforces. This library models those policies and proves what they promise.
--
-- The parts and how they interact:
--
-- * The tool policy (internal/tool). NewCatalog checks the definitions of tools (Tool/Catalog).
--   ResolveScope turns a request, profiles and selectors over the catalog, into a scope, a list of
--   tool names below a parent scope and a ceiling (Tool/Scope). A scope becomes the limits of a
--   run-time guard, which admits or refuses each tool call (Tool/Guard).
-- * Trust (internal/trust). Decode reads control evidence and decides on the context of a run
--   (Trust/Evidence, Trust/Context, Trust/Decision); EligibilityFor says what a context may do with
--   a capability (Trust/Eligibility).
-- * The plan (internal/plan). compileTrustProjection joins the two: where there is a policy or control
--   evidence, a plan is refused if its scopes have a capability that the policy and the context do
--   not admit (Plan/Admission); without either it checks nothing. A plan is refused, too, if what
--   writes is not confined to the authoring workspace (Plan/Workspaces). compileToolScope resolves
--   the scopes and narrows the limits of tools (Plan/ToolLimits), first the workflow's own, by
--   compileWorkflowToolPolicy (Plan/ToolPolicy); compileLimits and compileRetry bound the steps
--   (Plan/Limits); validateToolConcurrency looks at steps that may run beside one another
--   (Plan/Concurrency); compileResult settles which outcomes end the workflow, and by which route
--   (Plan/Results, with its parts in Plan/Outcomes).
-- * The configuration (internal/config). ValidateWorkflow checks a decoded workflow as a whole
--   (Config/Workflow); TopologicalSort orders its steps (Config/Graph), and validateAgentGraph looks
--   at its agents and their subagents (Config/Agents).
-- * Safe outputs (internal/safeoutput). A collector stages what a run wants published, by calls in
--   any order, and a snapshot takes it for publication (SafeOutput).
-- * Publication (internal/publisher). verifyOperations checks the operations of a bundle against its
--   manifest and the decision of trust (Publisher/Verify). Publish asks a remote about each operation
--   and then applies them (Publisher); a remote is an interface with laws (Publisher/Laws), which the
--   remote that is a file has (Publisher/FileRemote). Faults of the file system are an explicit
--   sequence.
--
-- The correspondence. A Go struct is a record with the struct's fields, those left out being named
-- in its comment; a function of Go is a function of the same name in this library's spelling
-- (ResolveScope is resolve_scope). A function that returns an error has a result type
-- (Prelude/Errors), whose errors are the program's error codes. A Go map is an association list and
-- a set a list without repetitions (Prelude/Keys); a loop over a map is a loop over such a list, in
-- any order, so what depends on the order is seen to. A Go int that may be negative is an integer
-- (Prelude/Int); the program compares these and does not add to them. The counters of the guard
-- grow by one for each call and are natural numbers without a bound; 2 ^ 63 calls are out of reach.
-- A string is a text; its order is that of its code points, which is the order of its UTF-8 bytes.
-- The regular expressions of trust.go are tests on code points (Pattern). Loops are structural
-- recursion on the list they run over. Publish returns its receipt beside its error, so its model
-- returns both.
--
-- Fuel. The depth-first searches of isPlanAncestor and terminalConstraints run on fuel, one more than
-- there are steps, which is enough because each level of them sees a step for the first time
-- (Plan/Concurrency/Fuel, Plan/Results/Fuel). The search of validateAgentGraph has fuel for one level
-- more than there are agents, and each level marks another agent (Config/Agents/Fuel). The loop of
-- TopologicalSort has fuel for one round more than there are steps, and no round sorts a step again
-- (Config/Graph/Loop). A visit of isPlanAncestor that is out of fuel is none, and the error
-- out_of_fuel of the graphs stands for no error of the program.
--
-- Parameters: the JSON, SHA-256 and UTF-8 of safe outputs and bundles (Codec of SafeOutput, Bundle of
-- Publisher/Verify), the hash in the name of a publisher's run and the printing of a number
-- (Publisher), time.ParseDuration and Duration.String (Plan/Limits), and the JSON decoder, time.Parse
-- and SHA-256 (Platform of Trust/Decision). Where a theorem relies on what they do, it says so by a
-- hypothesis, and Examples gives an instance for which it holds.
--
-- Not modelled: the decoding of YAML (internal/config), schemas and bindings of steps, prompts, the
-- agents (internal/compiler, internal/runtime), the tools themselves, the verification of a bundle's
-- files and control evidence, and the command line. Trust's Load reads a file and calls Decode.
--
-- Examples holds the theorems at concrete inputs, and tests.
pub mod Prelude
pub mod Pattern
pub mod Tool
pub mod Trust
pub mod Plan
pub mod Config
pub mod Publisher
pub mod SafeOutput
mod Examples
