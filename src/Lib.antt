-- ===== src/Lib.antt =====
-- VeritasVPN: the clients that are written in JavaScript and TypeScript.
--
-- The program's parts and how they interact. Three clients talk to the same HTTP services: the site
-- (website/js and website/account/js, and a second version in website/js-v2), the browser extension
-- (clients/browser-extension/js) and the desktop client (clients/desktop/src). Each keeps a user and
-- two tokens in a storage of the browser, asks the services for accounts, billing or WireGuard peers,
-- and shows what it was told.
--
-- Base: shared names, the conditional, texts, results, and Base/Net, the network. A request that is
-- sent is recorded in `sent`; what becomes of it is the next entry of the list `answers` (rejected, or
-- answered with a status and a body). Every behaviour of the servers is some such list, so a theorem
-- for all lists holds for all servers. A list that is used up rejects. JavaScript strings are lists of
-- code points; `text "…"` is a literal.
-- Api: the user record and the fields of the JSON answers. A property that may be missing is an
-- Option.
-- Site/Session: website/js/auth.js without its window. `localStorage` is a record of its three items;
-- the item of the user is kept by what `JSON.parse` makes of it (a user, null, or an error). Listeners
-- are named by numbers, and `calls` records their calls. Site/Token: when a token expires; its
-- payload, decoded by `atob` and `JSON.parse`, is read by the parameter `payload_exp`.
-- Site/Modes, Site/SignIn, Site/SignIn/Handlers, Site/SignIn/Settle, Site/SignIn/Events: `initAuthUI`.
-- A handler that waits for the server is two steps, so that any other handler may run between them.
-- `can_happen` says which events the page allows: hidden elements cannot be clicked.
-- Site/Session/Races, Site/Billing/Races: the refresh of the tokens and of the billing status, each
-- cut at its `await`, with a sign-out or another call in between.
-- Site/Errors: `mapAuthError`. Site/Billing: website/js/billing.js. Site/AccountView, Site/Account and
-- Site/Account/Actions: website/account/js/account-app.js, its views as records of the parts that
-- vary, its actions, and its events. Site/Account/Async: its handlers from one `await` to the next; a
-- call of billing.js that waits is settled with any result, and the tokens are renewed in between as
-- `renew`. Site/Account/Alone relates the two; Site/Account/Nav has the links of the sidebar.
-- Site/Landing: config.js and, of website/js/main.js, the start, the menu and the questions;
-- Site/Landing/Page: the whole page, with its maps, its bar and the parts that are revealed on
-- scrolling, as a run of events.
-- Site/NetworkMap: website/js/network-map.js. Base/Int has the integers. Latitudes and longitudes are
-- in tenths of a degree and positions in 3600ths of a unit, where the projection is exact; `toFixed`
-- rounds to the nearest tenth, and no position lies half way. Base/Decimal: how numbers are written.
-- SiteV2: website/js-v2. SiteV2/Store is the stored session and the listeners of its auth.js,
-- SiteV2/Session and SiteV2/Billing are its requests, which go to the site's own address;
-- SiteV2/Session/Calls is what other code can call, the functions of either version as a record;
-- SiteV2/Modes, Window, Handlers and Events are the sign-in
-- window of its auth.js, built as the first one; SiteV2/Account the views of account-app.js;
-- SiteV2/Page and SiteV2/Page/Visits the handlers of account-app.js from one `await` to the next, as
-- Site/Account/Async; SiteV2/Landing main.js, and the badge and the checkout of billing.js;
-- SiteV2/Session/Versions, SiteV2/Versions, SiteV2/Page/Lockstep and SiteV2/Landing/Versions compare
-- the two versions.
-- Extension/Auth, Extension/Proxy, Extension/Popup: the extension's auth.js, background.js, popup.js.
-- Extension/Switch: an abstract specification, a switch that only a signed-in user turns on.
-- Extension/Closing: its handlers as the sequences of what they await, which a popup that is closed
-- interrupts; Extension/Stranded: where that leaves a sign-out. Extension/Async: the handlers once
-- more, from one `await` to the next; a call of the browser takes place when its task goes on.
-- Extension/World: the popup, which stays open, and the background worker with any number of waiting
-- handlers, which go on in any order with clicks, keys and alarms in between. Extension/Alone relates
-- the two; Extension/Submissions, Extension/Settling, Extension/Overlaps and Extension/Recovery are
-- about all interleavings.
-- Desktop/Auth: auth.ts. Desktop/Download: its download of the account's file, with Base/Uri,
-- `encodeURIComponent`, and Base/Uri/Laws, readers of the escapes and of UTF-8 as a server has them.
-- Desktop/Attempt, Desktop/Connect, Desktop/Handlers: the state and the handlers of App.tsx;
-- Desktop/View: its two views, and which control does what in each. Desktop/Screen: what the views
-- show, by the parts that vary. The native commands' answers are the argument `Native`; a command that
-- rejects throws a value that need not be an Error. `handleConnect` is a computation with state and
-- exceptions.
-- Desktop/Async: the handlers of App.tsx once more, from one `await` to the next: a `Task` is a
-- handler that waits, and `resume` what it does when its promise is settled. Desktop/World: the
-- application with any number of waiting handlers, which go on in any order with clicks in between.
-- Desktop/Alone relates the two; Desktop/Races, Desktop/Settling, Desktop/SignedOut and
-- Desktop/Liveness are about all interleavings, the last about endless ones that are fair
-- (Base/Fairness). Base/Waiting and Base/Settling are what the interleavings of the clients share.
-- Desktop/Form: the account form's submission, cut at its `await`. The other modules hold what is
-- proved of these; the modules named Tests run them on concrete data.
--
-- Bounds and fuel. The code has no loops: recursion is over lists and texts. `run_on`
-- (Base/Waiting) takes a number of steps and gives what still waits after them: nothing, where it
-- is used, after six for an attempt to connect of the desktop client (Desktop/Alone) and for any
-- handler of the extension (Extension/Alone), and after two for a disconnect and a handler of the
-- account page (Site/Account/Alone). `settle` (Base/Settling) takes a number of steps too: in
-- Desktop/Settling and Extension/Settling the sum of the ranks of the waiting handlers, as each
-- step leads to a task of a lower rank, or ends its handler. `digits` (Base/Decimal) takes the
-- number itself, which has no more digits than that. Times are natural numbers of seconds, and a
-- HTTP status has three digits.
--
-- What is not modelled and why. Presentation (styles, focus, animation, static HTML, the land of
-- the network map, which is generated data); of website/js-v2 `parseJwt`, `mapAuthError` and the
-- network map, which are the first version's letter for letter; the services, the command line and
-- Android clients, which are other languages. `toLowerCase` folds ASCII letters only: the words
-- that the code looks for are ASCII, but an email with other capitals would differ. JSON bodies are
-- objects. Whether the address of the desktop client's form looks like one (`type="email"`) is not
-- asked. Writing to the storage does not fail. The extension's handlers in Extension/Safety run
-- one after another, and in Extension/Closing they are cut short; the handlers of the account page
-- in Site/Account/Actions run one after another too, as do the desktop client's in Desktop/View,
-- but for the sign-out during a disconnect; in Extension/World, Site/Account/Async and
-- Desktop/World they are interleaved, where a submission of the desktop client's account form is
-- one step, and a fetch with the reading of its body is one `await`. Site/Account/Async does not
-- record the requests, which Site/Billing has.
pub mod Base
pub mod Api
pub mod Site
pub mod Extension
pub mod SiteV2
pub mod Desktop
