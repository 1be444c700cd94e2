-- ===== src/Thunks.antt =====
-- The asynchronous action creators of app/javascript/mastodon/actions, as programs that dispatch,
-- read the state and call the API (redux-thunk and axios).
pub mod Message
pub mod Answers
pub mod Program
pub mod Run
pub mod Importer
pub mod Timelines
pub mod Effects
pub mod Paging
pub mod Interactions
pub mod Relations
pub mod Pages
pub mod AccountLists
pub mod FollowRequests
pub mod Blocks
pub mod DomainBlocks
pub mod Statuses
pub mod Notifications
pub mod Favourites
pub mod Fetched
pub mod Deleting
pub mod Imported
pub mod Importing
pub mod Refusals
mod Tests
pub mod Stream
pub mod Connections
pub mod Alerts
pub mod Form
pub mod Submit
pub mod Suggesting
pub mod Lists
pub mod ListMembers
pub mod Reports
pub mod Search
pub mod Settings
pub mod Posting
pub mod TagHistory
