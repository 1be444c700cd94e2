-- ===== src/Reducers.antt =====
-- The reducers of app/javascript/mastodon/reducers that have no module of their own above.
pub mod Statuses
pub mod StatusLists
pub mod UserLists
pub mod ListEditor
pub mod Lists
pub mod Alerts
pub mod Settings
pub mod Reports
pub mod Relationships
pub mod Accounts
pub mod Search
pub mod Dialogs
pub mod DomainLists
pub mod Fetched
pub mod PushNotifications
pub mod AlertKeys
pub mod FollowerCounts
pub mod ColumnMoves
mod Tests
