-- ===== src/Lib.antt =====
-- KubeMinds: a controller that diagnoses Kubernetes alerts with a language model.
--
-- AlertManager posts alerts to a webhook. The aggregator groups them and, when a group has been
-- silent for a window, creates a DiagnosisTask for it. The reconciler moves a task from Pending to
-- Running and starts a goroutine for it, which picks a skill, builds an agent, runs it and writes
-- its result. The agent asks the model, executes the tools that it calls, and stops at a
-- conclusion, at a high-risk tool that has no approval, at a loop, or at its limit of steps.
--
-- Parts and files (Pipeline is about internal/alert and internal/controller together):
--   Crd                    api/v1alpha1/diagnosistask_types.go: the resource
--   Crd/Heap, DeepCopy     the resource in memory, as cells and pointers to them, and its copies of
--                          api/v1alpha1/zz_generated.deepcopy.go
--   Agent/Types            internal/agent/types.go
--   Agent/Memory           internal/agent/memory.go: the conversation
--   Agent/Skill, SkillLoader, SkillManager
--                          internal/agent/skill.go, skill_loader.go and skill_manager.go
--   Agent/Engine, Loop     internal/agent/engine.go: NewAgent, Restore, InjectContext, detectLoop
--                          (Engine) and Run (Loop)
--   Agent/RootCause        internal/agent/engine.go: extractRootCause
--   Agent/EventStore       internal/agent/memory_l2.go: the events in Redis streams
--   Agent/Context          FormatAlertEvents of internal/agent/memory_l2.go and
--                          FormatHistoricalFindings of internal/agent/memory_l3.go
--   Alert/Types, Names, Creator, Aggregator, Handler
--                          internal/alert: keys and groups, names of tasks, the created task,
--                          Ingest and sweep, and ServeWebhook
--   Controller/Reconcile   internal/controller/diagnosistask_controller.go, Reconcile up to the
--                          start of the goroutine
--   Controller/InFlight    the goroutines of the agents beside the calls, as steps
--   Controller/Job         the goroutine
--   Llm/OpenAi, Anthropic, Backoff
--                          internal/llm/openai.go and anthropic.go, and the loop of attempts of both
--   Agent/KnowledgeBase    internal/agent/memory_l3.go: the knowledge base in PostgreSQL
--   Agent/Mocks, Llm/Mock  internal/agent/mocks.go and internal/llm/mock.go
--   Llm/Providers          internal/llm: the constructors, gemini.go, and embedding.go
--   Llm/Router             internal/llm/router.go and factory.go
--   Server/Handlers        internal/api/server.go
--   Crypto/Hex, Base64, Aes
--                          internal/crypto/aes.go and cmd/tools/encryptkey/main.go
--   Config/Types, Load, Cluster
--                          internal/config/config.go and k8s.go
--   Startup/Settings, Wiring
--                          cmd/apiserver/main.go up to the start of the servers
--   Tools/Client           what the tools use of client-go and JSON
--   Tools/Reading, Writing internal/tools/pod.go, node.go, service.go and volume.go; write.go
--   Tools/Router           internal/tools/registry.go, router.go and the providers
-- The other files of these directories hold the theorems. Prelude has Boolean tests, byte strings,
-- UTF-8 as Go decodes it, maps and results; Examples has the concrete runs.
--
-- A string is its list of bytes. A Go map is an association list with one entry for a key, whose
-- order is that of one range loop, which Go leaves open. What the program asks of
-- the outside (the cluster, the model server, the clock, the YAML decoder, the table of
-- lower-case letters outside ASCII) is a parameter: a record of functions over a state W that each
-- call hands on. A lock makes the operation that it guards one step. Times are nanoseconds, and
-- milliseconds in Llm.
--
-- The loop of Run is recursion on the rounds left, which start at maxSteps as in the source. The
-- recursion of the skill loader along parents runs on fuel, one more than the number of raw skills:
-- a chain of parents visits each raw skill at most once. The digits of a number run on fuel above
-- the number, which each digit divides by ten. The attempts of a call of the model are recursion on
-- the attempts left, which start at the constant of the source.
--
-- Not modelled: logging and the logging middleware, which return what they wrap; the parsing of
-- flags and of routes, which is that of libraries; the text of the SQL statements; and the
-- registration of the API group, which hands its types to a library.
pub mod Prelude
pub mod Crd
pub mod Agent
pub mod Alert
pub mod Controller
pub mod Config
pub mod Crypto
pub mod Llm
pub mod Pipeline
pub mod Server
pub mod Startup
pub mod Tools
pub mod Examples
