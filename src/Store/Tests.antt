-- ===== src/Store/Tests.antt =====
-- A deletion in a concrete store.
use mastodon.Store.{Store}
