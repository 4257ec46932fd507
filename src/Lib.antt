-- ===== src/Lib.antt =====
-- Golectron runs Electron applications on a Go runtime. This library models the state that the
-- runtime keeps for an application's main process, package by package, and proves what each package
-- promises to the code above it.
--
-- The program's parts and the files that model them:
--   AppLifecycle    internal/applifecycle/lifecycle.go: `App`, its events, readiness and quitting.
--   Asar            internal/asar/archive.go: Pickle (the framing of the header), Paths (inner paths and
--                   `Split`), Header (its tree of entries), Image (`Write`, `Open`, `ReadFile` and the
--                   other reads).
--   AutoUpdater     internal/autoupdater/updater.go: `Updater`, from a check to an install.
--   BrowserWindow   internal/browserwindow/window.go: `Window`; BrowserWindow/Options is options.go
--                   beside it, `NormalizeOptions`, whose result `new_window` takes.
--   ContextBridge   internal/contextbridge/bridge.go: what a preload script exposes to a page.
--   Dispatcher      internal/native/dispatcher.go: requests, limits and handlers; Dispatcher/System is
--                   its callers, its loop and `Shutdown` as steps of one system.
--   Menu            internal/menu/menu.go: menus from templates; Menu/Tray is the tray.
--   Protocol        internal/protocol/registry.go: custom schemes, their privileges and handlers.
--   SafeStorage     internal/safestorage/storage.go: strings kept with a code.
--   Session         internal/session/session.go: cookies, storage and permissions; Session/Registry is
--                   which session a partition has.
--   Upstream        internal/upstream/releasecheck.go: versions, and the latest stable release.
--   WebContents     internal/webcontents/webcontents.go: navigation and history.
--   ViewTree        internal/view/view.go: the tree of views, on a heap of references.
--   Ipc.Router      internal/ipc/router.go: request handlers by channel.
--   Ipc.Ports       internal/ipc/router.go: message channels with two ports.
--   GlobalShortcut  internal/globalshortcut: accelerator.go (Accelerator) and registry.go (Registry).
--   Notification    internal/notification/notification.go: options, the notification, the history.
--   UtilityProcess  internal/utilityprocess/process.go: a helper process and its log.
-- Prelude holds the shared names, tests and lists, Callbacks the loops that call handlers, Text what
-- the code uses of package strings, on runes, FilePath what it uses of path/filepath on Unix, and Dict
-- the Go map with string keys.
--
-- A record models each struct, field by field, and one function each method: it takes the state and
-- gives the result and the new state. Names are the Go names in snake case. A handler is a value of a
-- type `H`, and a parameter says what a call of it does; where the code lets a handler call the object
-- back, that parameter takes the whole state and gives it back changed. `Call`, `perform` and `run`
-- are the clients: any sequence of calls of the methods. Errors are values, and a panic of the code is
-- `none`. A method that holds a lock is one step; `MessagePort.Start`, which unlocks in between, is
-- two. The dispatcher's goroutines are a relation `Step`, and `Reach` its sequences of steps in any
-- interleaving; a channel of results is the list of answers sent, a queue a list with its bound. Every
-- loop is a structural recursion, so no fuel is used. A Go int or int64 is ℤ, and a length ℕ: no
-- method here adds to one without a bound. The counter of request identifiers is cut to 64 bits and
-- the numbers of a pickle to 32. A Go map that the code ranges over is the list of its entries.
--
-- Code of other packages is a parameter: `url.Parse`, `filepath.IsAbs`, `strings.EqualFold`, `strconv.Atoi`,
-- crypto/hmac, base64, JSON, the
-- floating point tests of a scale factor, and the case of runes beyond ASCII, with its laws in
-- `CaseLaws`.
--
-- Not modelled: printing and the table of devtools targets in internal/webcontents, the pair of a view
-- and its contents in internal/view, the texts of errors and the durations of the dispatcher, errors
-- of the disk under an archive, calls on a submenu taken out of its menu, account selection in
-- internal/session, fetching in internal/upstream, copies that getters make of slices, and the other packages, which are input and
-- output (cmd, packaging, npm, nodecompat, the bridges of native, tools) or stand apart from these
-- (apppaths, runtime, mainrunner, compat, netrequest, diagnostics, desktop,
-- nativetheme).
pub mod AppLifecycle
pub mod Asar
pub mod AutoUpdater
pub mod BrowserWindow
pub mod Callbacks
pub mod ContextBridge
pub mod Dict
pub mod Dispatcher
pub mod FilePath
pub mod GlobalShortcut
pub mod Ipc
pub mod Menu
pub mod Notification
pub mod Prelude
pub mod Protocol
pub mod SafeStorage
pub mod Session
pub mod Text
pub mod Upstream
pub mod UtilityProcess
pub mod ViewTree
pub mod WebContents
