-- ===== src/Lib.antt =====
-- Verification of the web client of Dockstack, and of its server's sign-in, sessions, API keys and limits.
--
-- The program: a Go server (cmd, internal) drives docker compose and serves a React client (web/src).
-- A page of the client reads the server through generated calls (web/src/lib/api/generated), which one
-- request function sends (web/src/lib/api/orval-mutator.ts), and keeps the answers in a cache under
-- query keys; a handler that changes something names the keys to read again. Stack actions answer with
-- an event stream (web/src/lib/api/sse.ts), which a dialog shows; logs come over a socket. A request gets
-- past the server's middleware with an API key or with the signed cookie of a session, which a sign-in
-- with a password opens; limiters count failures and requests by address and by identifier.
--
-- Which file models which part:
--   Prelude        shared names, lists, texts as lists of character codes, a stable sort
--   Sse            sseStream and streamStackAction of web/src/lib/api/sse.ts, and the writer of
--                  internal/server/api/stacks.go; Sse/Drain, Sse/Chunks and Sse/RoundTrip are proofs
--   Logs           web/src/components/stacks/logs.tsx: the state and its handlers; Logs/Json is
--                  parseJsonLog, Logs/View the rows; the other children are proofs
--   ActionDialog   web/src/components/stacks/action-dialog.tsx: the runs of the dialog
--   Api            the calls and query keys of web/src/lib/api/generated/default/default.ts, by path;
--                  Api/Hooks, Api/Queries and Api/Mutations are the options and the hooks around them,
--                  Api/Request is orvalInstance
--   Effect         what the handlers ask of the query cache, the router and the notifications
--   StackFiles     web/src/components/stacks/files.tsx; StackFiles/Server is handleStackFilesGet,
--                  handleStackFilesSave and handleStackCreateEnv of internal/server/api/stacks.go
--   Status         src/lib/docker/constants.ts, web/src/components/status-badge.tsx, and what each page
--                  takes for running
--   StackPage      web/src/routes/_private/stacks.$name.tsx
--   Home           the rows of web/src/routes/_private/index.tsx and their buttons
--   StackForms     create-stack-dialog.tsx and rename-stack-dialog.tsx of web/src/components/stacks, and
--                  FieldError of web/src/components/ui/field.tsx
--   Containers     web/src/components/containers/container-actions.tsx
--   Theme          web/src/hooks/use-theme-hotkey.ts and use-favicon-theme.ts
--   Sidebar        SidebarProvider of web/src/components/ui/sidebar.tsx and web/src/hooks/use-mobile.ts
--   SignIn         web/src/routes/auth/sign-in.tsx and reset-password.tsx, forgot-password.tsx, the guard in
--                  web/src/routes/_private/route.tsx, and web/src/lib/app-context/session.tsx
--   AppSidebar     web/src/components/app-sidebar.tsx: links, other instances, initials, sign out
--   Settings       security.tsx and account.tsx of web/src/routes/_private/settings, and the passkeys of
--                  web/src/routes/auth/sign-in.tsx
--   Table          web/src/components/ui/data-table.tsx, with the table library as a parameter
--   Pages          images.tsx, volumes.tsx and networks.tsx of web/src/routes/_private,
--                  web/src/components/containers/table.tsx and formatSize of web/src/lib/utils.ts;
--                  Pages/Cells is the cells of that table and web/src/components/stacks/service-links.tsx
--   Prune          the remove and prune buttons: network-actions.tsx, prune-networks-button.tsx and
--                  the like in web/src/components/networks, images, volumes and containers;
--                  Prune/Dialog is the state of their dialogs
--   Terminal       web/src/components/terminal/container-terminal.tsx; Terminal/Heard is what the reading loop of
--                  internal/server/api/ws/exec.go takes a text for
--   StackTerminal  web/src/components/stacks/terminal.tsx: the choice of its container and shell
--   Editor         web/src/components/editor/monaco-file-editor.tsx, with Monaco as a parameter
--   Wiki           wiki/lib/source.ts, and the routes of wiki/app for the pictures and texts of pages
--   Server         Limiter is internal/server/api/auth/ratelimit.go, and Limiter/Entry, Window, Bound, Full,
--                  Noting and Locking are proofs; ApiKeys is internal/auth/apikeys.go with api_keys.sql of
--                  internal/db/queries; Tokens and Sessions are internal/auth/session.go with sessions.sql;
--                  Passwords is internal/auth/password.go; Access is internal/server/api/auth/middleware.go
--                  and the handlers of sessions, and Accounts the handlers of sign-in and passwords, of
--                  auth.go beside it; Rows is the lookup of one row of a table. StackStatus, Updates and
--                  LogLines are parts of internal/docker: containerStateToStatus and GetStackStatus, what
--                  decides on updates and drift, and the lines of StreamStackLogs
--   Tests          the theorems at concrete inputs
--
-- How the code is modelled: a component is a record of its React states and refs, and each handler a
-- function from state to state; calls of the cache, the router and the notifications are a list of
-- effects. Asynchronous code is a sequence of events: a run of the action dialog is known by a number,
-- and so is a socket of the log view, so that late events of old ones can be told apart; the log view also
-- knows which of its sockets have opened, since a send throws before. A function of
-- the platform (JSON.parse, localeCompare, fetch, the case conversions, URLSearchParams,
-- encodeURIComponent, trim, filepath.Base) is an argument of the definitions that use it. On the server
-- a table is a list of rows and a statement a function on it; the clock, random texts, HMAC, SHA-256, base64
-- and Argon2 are arguments. The calls of a limiter hold its lock, so that those of
-- requests that overlap are a list in the order of the lock; a request makes two of them.
--
-- Bounds: texts are lists of codes of any length and numbers are natural numbers. The one loop on fuel
-- is that of Sse.drain: each of its rounds takes at least two characters off the buffer, so that its
-- length is fuel enough, which Sse.Chunks.drain_rest shows. Times on the server are natural numbers, so
-- that a time minus a window, which the code compares, is written as a sum on the other side.
--
-- Not modelled: markup, class names (but the colours of levels and badges), virtual scrolling, the
-- texts of dates, the form and query libraries themselves, the rest of the wiki, and the
-- rest of the server: what it asks of Docker, WebAuthn and OAuth, profiles, and errors of the database.
pub mod Prelude
pub mod Sse
pub mod Logs
pub mod ActionDialog
pub mod Api
pub mod Effect
pub mod StackFiles
pub mod Status
pub mod StackPage
pub mod Home
pub mod StackForms
pub mod Containers
pub mod Theme
pub mod Sidebar
pub mod Table
pub mod AppSidebar
pub mod Prune
pub mod Pages
pub mod SignIn
pub mod Settings
pub mod Terminal
pub mod StackTerminal
pub mod Editor
pub mod Server
pub mod Wiki
pub mod Tests
