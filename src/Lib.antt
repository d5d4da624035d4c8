-- ===== src/Lib.antt =====
-- The web client of MySyncFiles: its files page (web/atlas.js), its presence page (web/status.js)
-- and its code editor (web/editor-src/controller.js and code.js), which web/editor.js bundles.
--
-- The pages talk to the server, and to a client on the same computer through a bridge on a local
-- port. The files page opens a session, and holds what every request goes through (`request`); the
-- editor is given `request` and is opened and locked by the page's session.
--
-- Prelude holds lists, texts (UTF-16 code units) and tests; Value the JavaScript values that an
-- answer can hold; Exit the results of code that can throw. Prog is a language of interaction: a
-- handler runs from a call that it awaits to the next one, over the page's state; Prog.Sat and
-- Prog.Rules say what a handler keeps between its calls, and Prog.Threads interleaves handlers in
-- any order and shows that what each keeps holds in every state that they reach; Prog.Stable and
-- Prog.Relied do so for handlers that rely on how the state moves while they wait, and Prog.Serve
-- runs a program alone with an environment that answers its calls, and Prog.Plays tells its calls.
-- Http has the answers that the handlers receive.
--
-- Editor models the controller of the code editor: State its variables, Save `schedule`, `persist`
-- and `flush`, Open `authorize`, `loadSource`, `open`, the retry button and `lock`, Reports the
-- tests of `detect` and `render`, Run `local`, `detect`, `render`, `poll`, the run button and
-- `leave`; Checks holds the tests on answers. Invariant states what is kept and what is assumed of
-- the answers; Saves, Flushes, Opens, Retries, Runs and Starts prove it of each handler, and
-- Reachable of every reachable state; Samples and Tests run a session. An awaited call is a call
-- of the program, after which any other handler may have run. The loop of `flush` has fuel, since
-- the user may edit for ever: running out of it is an error of its own, and what is said of
-- interleaved handlers holds with any fuel; Completes is about a flush while the user does not
-- edit. CodeMirror and SHA-256 are a parameter (Editor.Invariant). Messages, styles and the layout
-- are not modelled.
--
-- Indent models the unit of indentation, the guides and the Tab key of the editor
-- (web/editor-src/code.js), and Code the code input itself: its variables, its buttons, the
-- configuration of CodeMirror and the Tab key, with Configured on any sequence of operations.
-- Files models the files page (web/atlas.js): Reader `bytes` and `request`, and `json` of
-- web/status.js, State the variables, `acceptSession`, `lock` and `canUpload`, Calls what the
-- handlers await and `authorizeUpload`, Listing the tests and the pages of a listing, Selection
-- what a listing makes of the page, `details`, `selectDirectory` and `closeDetails`, Load `load`,
-- Browse `navigate`, the search, the pages, `directoryInfo` and `openEditor`, Access `restore`,
-- the verification, `denied` and the logout, Folder the folder dialog, Menu the menu of an entry,
-- Download `download`, Upload `sendFiles`, and Drop the picker and dragged files, Crumbs the
-- folders above the listing, and Drawn the rows that are drawn of it, with Redrawn on those that
-- are kept and Marks on the mark of a search and the unit of a size; Keys the keys of a menu, with
-- Buttons and Focused on where they lead. Bodies, Locks, Downloads, Sent, Rounds and Pages prove
-- what these do by themselves, Honest what a download does with a server that has the file, Store,
-- Taken and Stored what a sending makes of a server that takes it, and Answered what a load does
-- alone. Fits states what the page keeps and what its handlers rely on from one call to the next
-- (Prog.Stable, Prog.Relied), and what is assumed of the server: the listings that it serves and
-- the snapshots of its folders; Loads, Moves, Picks, Selects, Rights, Foldings, Transfers, Parts,
-- Sendings, Restores, Accesses, Entrances and Drops prove it of each handler, and Reachable of
-- every reachable state; Samples, Tests and Trials run sessions. A request's controller is a
-- number; the state of the one verification, of the one sending and of the folder operation, which
-- the closures of their handlers hold, are fields of the page.
--
-- The loops of a download and of an upload have as many rounds as the file has bytes, and a
-- download one more, since every part but the last is of `chunk_bytes`, which is positive; Rounds
-- is about the rounds of an upload, and Honest about those of a download. Presence models
-- web/status.js: Presence.State what it shows, its messages and its timers, Presence the probe,
-- the exchange, the lookup, `permissionDenied` and the handler of the verify button; Asks has what
-- its parts keep, Shown what is shown, Reachable every reachable state, Verified how any
-- verification ends, and Confirmed how one ends that the server confirms. Not modelled: the layout
-- of the page, how dates are written out, the theme, the sidebar, the focus but in a menu, the
-- texts of messages but for the names in them, and the messages of an upload.
pub mod Prelude
pub mod Value
pub mod Exit
pub mod Prog
pub mod Http
pub mod Editor
pub mod Indent
pub mod Files
pub mod Presence
pub mod Code
