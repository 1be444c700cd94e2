-- ===== src/Lib.antt =====
-- Mastodon's web client state and streaming server: a verification library.
--
-- Two programs of the repository are modelled.
-- * The store of the web client (app/javascript/mastodon): reducers over an immutable state. An
--   action comes from a user, from an API answer or from the streaming connection, and each reducer
--   turns its part of the state into the next one. `Actions` has the action types and `Entities`
--   their payloads. `CompareId` is compare_id.js, the order of ids that the reducers sort by.
--   `Timelines`, `Notifications` and `Contexts` are reducers/timelines.js, reducers/notifications.js
--   and reducers/contexts.js; the function of a reducer and its helpers keep their names. `Compose`
--   with `ComposeText` is reducers/compose.js, whose uuid, clock, random numbers and documents are an
--   environment, and `Reducers` has the smaller reducers, a module for a file or for a few.
--   `Store` is reducers/index.js, the store that gives every action to every reducer.
--   `Thunks` has the action creators of app/javascript/mastodon/actions. A thunk is a program
--   (`Program`) that dispatches, reads the state and calls the API; `Run` runs it on the store
--   behind the middleware (middleware/loading_bar.js and middleware/errors.js, in the order of
--   store/configureStore.js), and takes an answer of the API to the handlers of its request.
--   `Importer` is actions/importer, `Timelines`, `Notifications`, `Statuses`, `Interactions`,
--   `DomainBlocks` are the files of these names, `Relations`, `AccountLists` and `FollowRequests`
--   the parts of actions/accounts.js, `Blocks` is actions/blocks.js and actions/mutes.js,
--   `Favourites` actions/favourites.js and actions/pin_statuses.js, `Fetched` the smaller ones.
--   `Form`, `Submit` and `Suggesting` are actions/compose.js, `Lists` and `ListMembers`
--   actions/lists.js, `Settings` the ones about settings, columns and push messages, `Stream` is
--   stream.js, the polling while the streaming server cannot be reached, and `Connections`
--   actions/streaming.js. `Paging` puts requests, answers and other messages in any order.
--   `Emoji` is emojify of features/emoji/emoji.js, which puts images in the place of emojis.
--   `Selectors` is selectors/index.js, what the components are given of the store, and
--   `LocalSettings` is settings.js, what is kept in the browser.
-- * The streaming server (streaming/index.js), under `Streaming`: `Auth` decides who a request comes
--   from, `Routes` which channel it is attached to, `Subs` keeps the listeners of the channels and
--   talks to Redis, `Filter` is the listener, which decides what a client gets, with the tables of
--   `Database`, `Liveness` finds clients that are gone, and `Config` is the
--   configuration.
--
-- How the code is represented. A string is the list of its UTF-16 code units. An Immutable.js map
-- is an association list, and a list is a list; `Prelude` has the operations that the code calls,
-- with what they do on a missing key. Null and undefined are `none`, and JavaScript's truth test of
-- a string is `truthy`. A state is a record with the source's fields in this library's spelling; an
-- operation returns the new state, and an exception is `none` or a constructor of its own.
-- The loops are recursions on lists, without fuel. Only the outer loop of emojify has fuel: a turn
-- consumes a code unit at least, so one turn more than the text has code units is enough.
--
-- What is outside the repository is not defined here: PostgreSQL is the rows of its tables and two
-- flags, whether a connection and a query succeed; URL parsing is done, a request carries its parts;
-- `toLowerCase` is a parameter, and so are whether a route of Express takes a path and which clients
-- ws still has after some were terminated. The API is an answer of the type that the code reads, or an
-- error, and what a handler throws goes to the handler for errors. Time, logging and the network are
-- left out.
pub mod Prelude
pub mod CompareId
pub mod Entities
pub mod Actions
pub mod Timelines
pub mod Notifications
pub mod Contexts
pub mod Streaming
pub mod ComposeText
pub mod Compose
pub mod Reducers
pub mod Store
pub mod Thunks
pub mod Emoji
pub mod LocalSettings
pub mod Selectors
