-- ===== src/Lib.antt =====
-- The backup orchestration platform: its operations console (web/src), a single-page application in TypeScript,
-- and the `bop` controller behind it (internal, in Go), which answers the console's requests and runs the backups.
--
-- Parts. A page calls the hook `useApi` with a call of the object `api`; the client sends it with the token
-- of the tab and, on a 401 of a read, tells the auth provider, which puts the connect page in the place of
-- the pages. The trigger dialog and the forms of the configuration page send writes, whose 401 is theirs to
-- show. The seal, the activity chart and the lists are computed from what the hook holds. On the other side of
-- `fetch` the controller checks the token, reads its inventory and its metadata store, and keeps the
-- configurations of the plugins; the events that its job pipeline publishes are those that the seal is made of.
--
-- Files.
--   Common     names of the libraries, Boolean tests on numbers, lists; Common/Text: a JavaScript string as
--              the list of its UTF-16 code units, with `trim` and `split`
--   Wire       web/src/api/types.ts
--   Failure    the class `ApiError`, and how a promise settles
--   Client     web/src/api/client.ts: token, listeners, `request` (`request_of`, `conclude`, `finish`);
--              Client/Paths: the object `api` (`path_of`, `method_of`, `body_of`, `call_api`)
--   Uri        `encodeURIComponent` and `URLSearchParams`, as the client calls them; Uri/Decode: the decoder
--              that the encoding is measured by
--   UseApi     web/src/hooks/useApi.ts: `load`, `refresh`, `poll_effect`, `on_visibility`, `answer`
--   Auth       web/src/state/auth.tsx and web/src/pages/ConnectPage.tsx; Auth/Page: what the page renders
--   App        web/src/App.tsx and web/src/components/AppShell.tsx: routes, screens and navigation
--   Modal      web/src/components/TriggerBackupModal.tsx; Modal/Dialog: what it renders
--   PluginConfig  web/src/pages/PluginConfigPage.tsx: `usePluginConfigForm`, `splitList`; PluginConfig/Forms:
--              the three forms; PluginConfig/Page: the choice of the form
--   Seal       web/src/components/Seal.tsx
--   Activity   web/src/lib/activity.ts; Activity/Calendar: the date of a day number; Activity/Chart:
--              web/src/components/ActivityChart.tsx
--   Format     web/src/lib/format.ts, `formatRelative`; Format/Bytes: `formatBytes`
--   Motion     web/src/lib/motion.ts and web/src/hooks/usePrefersReducedMotion.ts
--   View       web/src/components/States.tsx and StatusPill.tsx; View/Rows: the rows of the pages' tables
--   Pages      web/src/pages: counts, orders and filters; Pages/Launcher: what DashboardPage.tsx and
--              JobsPage.tsx have in common; Pages/Dashboard, Jobs, Detail, EventLog, Snapshots: the pages as
--              machines over the hook; Pages/Tables, Timeline and Dashboard: what they render;
--              Pages/Calls: the calls that they hand to the hook
--   Controller  internal: Controller/Core: core/core.go and events/event.go; Controller/Pipeline and
--              Controller/RunJob: controller/controller.go (`backupResource`, `runPipeline`, `RunJob`);
--              Controller/Inventory: inventory/inventory.go; Controller/Metadata: metadata; Controller/Handlers:
--              api/handlers.go; Controller/Access: api/auth.go, api/tokens.go and the token lists of api/server.go;
--              Controller/Settings: api/plugin_config.go, with the `ParseConfig` of the three plugins in
--              Controller/Settings/Parse; Controller/Queue: queue/memory.go;
--              Controller/Site: api/backups.go, `dispatch` of scheduler/scheduler.go, the consumer and the
--              reconciliation of cli/wiring.go and the start of cli/controller.go, over one store and queue
--
-- State and steps. A component is a record of its React state and refs, with the requests that it has in
-- flight, and a function `step` on its events: what the user does, what the timer and the browser do, and
-- the answer to a request. `run` takes a list of events, so every order of answers is covered. The state
-- updates of one callback are one change, and the effects run with the change that triggers them, as React
-- runs them before the next event. Texts and lists are finite, and no function runs on fuel but `decimal`
-- (`String(n)`), whose fuel is the number itself plus one, more than it has digits (Client/Decimal).
--
-- The controller's pipeline is a log of effects, in the order in which they happen, with the error that it returns;
-- the store is its tables, each statement a function on them. A Go error is a value; a map is a list of entries.
--
-- Arguments of the model. `fetch` and the JSON decoder: the result of a request, `FetchResult`. The clock,
-- the time zone and the locale: `today`, `utc_day` and `label_of` of Activity, the difference of the clocks
-- in Format, the quotient `log_index` of the logarithms in Format/Bytes, the text `exact_of` of `formatExact`,
-- and the order `lte` of `localeCompare` in Pages. What the controller answers is a hypothesis of the theorems
-- that need it (`Honest`, `Lists`), or what the controller's own handlers answer (`JobsServed`, `EventsServed`).
-- A plugin, a storage and the database driver: the answers to the calls of a job (`Attempt`, `Ports`), and the
-- error of a statement. SHA-256, encoding/json, `strconv.Atoi`, the environment, and the texts of times and errors.
-- `Number(text)` of the port field is the number in the edit.
--
-- Not modelled. Tags, styles, fixed headings and charts (recharts): they show values and call the handlers that
-- are modelled. The matching of paths by react-router is an argument (`matches` of App), with what it documents
-- as a hypothesis (`Documented`). `formatExact` rests on the locale alone. Of the controller: the cron library, the
-- routes of the server, the pruning on a timer, the plugins, the storage providers and the rest of the command
-- line (cmd, internal/cli, internal/plugin but for the configurations, internal/storage). web/vite.config.ts and
-- internal/webui are build configuration and its output.
mod Common
pub mod Wire
pub mod Seal
pub mod Failure
pub mod UseApi
pub mod Uri
pub mod Client
pub mod PluginConfig
pub mod Auth
pub mod Modal
pub mod Activity
pub mod View
pub mod Motion
pub mod App
pub mod Pages
pub mod Format
pub mod Controller
