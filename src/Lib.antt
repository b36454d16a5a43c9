-- ===== src/Lib.antt =====
-- A model of the browser client of SyncTeX (frontend/src), and what is proved of it.
--
-- The client is a React program. Its state lives in hooks, each of which this library models as a
-- record with one function per callback; an update of React state is the function that React's
-- queue applies. A callback that awaits requests is cut at its awaits: what a request answers is an
-- argument (Base/Tasks has the monad), and what follows an await sees the state that it finds.
--
-- Base          the helpers that all parts share: tests, arrays, dictionaries (Maps), untyped
--               JavaScript values (Values), awaited requests (Tasks) and UTF-16 units (Texts)
-- Markup        what a component shows, as far as it depends on the state: elements, texts, titles,
--               and which call a click or a key makes, with whether the button is disabled
-- Tabs          frontend/src/hooks/useTabManager.js: the open tabs and the active one; Tabs/Bar is
--               frontend/src/components/Editor/TabBar.jsx
-- Tree          `findFile` of frontend/src/hooks/useFileManager.js over the project tree
-- Files         the rest of that hook: contents, unsaved marks, saving and the file operations
-- Collab        frontend/src/api/session.js: a collaborative session; Color, User and Presence
--               model the users that it shows, Wire its frames, Session its state machine
-- Chats         frontend/src/hooks/useChatManager.js: the chats of a project and their messages
-- Stream        `streamChat` of frontend/src/api/llm.js: the answer of the assistant as it arrives
-- Window        frontend/src/components/Editor/AIPanel/ChatWindow.jsx: sending a message and showing
--               the answer that streams in; Delivery has the way of an answer into its chat, Stop
--               the two ways in which it is lost, Scroll and Shown what MessageList.jsx and
--               ChatSidebar.jsx beside it do and show. Chats/Former is AIPanel.jsx, which it replaced
-- Clients       frontend/src/api: the requests of every call and their errors; Items, Projects,
--               Members and Assistant model editor.js, projects.js, collaborators.js and llm.js
-- Auth          frontend/src/contexts/AuthContext.jsx and, in Views, the pages LoginView.jsx,
--               OAuthCallback.jsx and JoinView.jsx of frontend/src/views and
--               frontend/src/components/ProtectedRoute.jsx; Routes is frontend/src/App.jsx
-- Panel         frontend/src/components/Editor/CollaboratorsPanel.jsx: links, members and the rows
--               of the editors who are connected; Shown and Titles are what the panel shows
-- Dashboard     frontend/src/views/DashboardView.jsx and the cards and forms of
--               frontend/src/components/Dashboard; Shown is the header and the lists of projects,
--               and Recent the choice of the recent ones
-- Keys          frontend/src/components/Editor/LLMPanel/LLMPanel.jsx: the providers' keys,
--               and in Shown what it shows and what its keys do
-- Theme         frontend/src/contexts/ThemeContext.jsx: the preference and the theme that is shown
-- Sessions      frontend/src/hooks/useCollabSessions.js: the sessions of the open files
-- Explorer      frontend/src/components/Editor/FileTree.jsx: editing names, folders and keys;
--               Explorer/Paths is the index of the tree and the walks up from an item, and
--               Explorer/Tools the menus, deletions, uploads and the recovery of the directory;
--               Explorer/Dialogs are the dialogs of names that it replaced. Explorer/Menu has the
--               keys of its menu, Listing and Shown what it shows, Session every sequence of its events,
--               and Viewer and Harmless what it keeps from those who may only read
-- Editor        frontend/src/views/EditorView.jsx: what one event does in several hooks; Layout is
--               the side panel, Shown what the view derives from the hooks' states, and Opened what
--               it keeps itself; Page is which parts it shows, and Pane EditorPane.jsx and
--               RightSidebar.jsx beside FileTree.jsx. Run has every sequence of the events of the view
--               with what holds throughout, and Deleted the deletion of items
-- Prefetch      frontend/src/prefetch: which modules are imported before they are needed
--
-- The parts meet in the editor view: closing a tab calls back to end the file's session and drop
-- its content, and saving reads the content from the session if there is one. The chat window adds
-- its messages to the chats of the chat manager. Every client reads the token that Auth stores.
--
-- Modelling choices. Objects and Maps used as dictionaries are association lists in the order of
-- insertion; keys are identifiers made by the server, so names that Object.prototype defines are
-- left out. `null` and undefined are `none` where the program does not tell them apart. Numbers
-- that reach the program untyped are natural numbers. Recursion is structural throughout; the
-- functions with fuel are the decimal text of a number in Base/Values, which gets one more than the
-- number, and the walks up from an item in Explorer/Paths and Explorer/Tools, whose rounds are an
-- argument: a tree is walked up in no more rounds than it has levels.
-- The packages yjs, y-protocols and y-monaco are the record Collab.Yjs.Yjs, a parameter: their calls
-- return the events that they fire. The numbers that widths are, which a pointer may give a fraction,
-- are the record Editor.Layout.Numbers. Trimming and lower-casing names in the explorer, which depend on
-- Unicode tables and the locale, are parameters too, as are localeCompare, toUpperCase,
-- encodeURIComponent and its inverse, the reading of a link's query by URL and the text of a date.
-- What a server answers is an argument of every request (Clients.Reply). The browser's sockets and
-- timers are the steps of Collab.Session.Run.Step, each allowed where the browser allows it.
--
-- Not modelled: style sheets, icons, pages and cards without state, the set-up of the Monaco
-- editor, the positions of menus, console output, and the services behind the requests. What React
-- makes of markup, and what a Markdown text is shown as, are not the client's own. The clients'
-- handling of a network is that of one request at a time; how requests of several handlers overlap
-- is in the parts whose handlers are cut at their awaits.
mod Base
pub mod Tabs
pub mod Tree
pub mod Files
pub mod Collab
pub mod Chats
pub mod Stream
pub mod Sessions
pub mod Explorer
pub mod Editor
pub mod Window
pub mod Clients
pub mod Auth
pub mod Panel
pub mod Dashboard
pub mod Keys
pub mod Markup
pub mod Prefetch
pub mod Theme
