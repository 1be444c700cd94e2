-- ===== src/Thunks/Pages.antt =====
-- The link to the next page of a list of accounts.
use mastodon.Prelude.{Text, Option, none, some, []}
use mastodon.Reducers.UserLists.{UserList}

-- The key `next` of a list that was never fetched is undefined, which passes the test against null:
-- the code then asks for a page without a path.
abbrev pub next_path : UserList → Option Text
next_path list = elim list.items [ none ↦ some [] | some items ↦ list.next ]
