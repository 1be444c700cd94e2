-- ===== src/Thunks/Connections.antt =====
-- app/javascript/mastodon/actions/streaming.js: what the client does with a message of the streaming
-- server, and which streams there are.
use mastodon.Prelude.{Text, codes, Bool, none, some, ◌++◌, Option}
use mastodon.Thunks.Message.{Message}
use mastodon.Thunks.Answers.{Fetched, FetchedNotification}
use mastodon.Thunks.Program.{Program, done}
use mastodon.Thunks.Timelines.{
  update_timeline, delete_from_timelines, disconnect_timeline, expand_home_timeline, media_suffix,
}
use mastodon.Thunks.Notifications.{Shown, update_notifications, expand_notifications}
use mastodon.Thunks.Fetched.{fetch_filters}

-- A message of the server by its event, with the payload parsed.
pub data Received : Type 0 where
  update : Fetched → Received
  delete : Text → Received
  notification : FetchedNotification → Received
  filters_changed other_event : Received

unfoldable pub on_disconnect : Text → Message
on_disconnect timeline = disconnect_timeline timeline

unfoldable pub on_receive : Shown → Text → Received → Program
unfolding update_timeline delete_from_timelines update_notifications fetch_filters
on_receive shown timeline (update status) = update_timeline timeline status
on_receive shown timeline (delete id) = delete_from_timelines id
on_receive shown timeline (notification n) = update_notifications shown n
on_receive shown timeline filters_changed = fetch_filters
on_receive shown timeline other_event = done

unfoldable pub refresh_home_timeline_and_notification : Shown → Program → Program
unfolding expand_home_timeline expand_notifications
refresh_home_timeline_and_notification shown after_it =
    expand_home_timeline none (expand_notifications shown none after_it)

-- The arguments that `connectTimelineStream` is called with.
pub record Connection : Type 0 where
  pub timeline : Text
  pub path : Text
  pub polling_refresh : Option (Program → Program)

abbrev pub connection : Text → Text → Connection
connection timeline path = record { timeline = timeline; path = path; polling_refresh = none }

unfoldable pub connect_user_stream : Shown → Connection
unfolding refresh_home_timeline_and_notification
connect_user_stream shown = record {
  timeline = codes "home";
  path = codes "user";
  polling_refresh = some (refresh_home_timeline_and_notification shown);
}

unfoldable pub connect_community_stream : Bool → Connection
connect_community_stream only_media =
    connection (codes "community" ++ media_suffix only_media)
      (codes "public:local" ++ media_suffix only_media)

unfoldable pub connect_public_stream : Bool → Connection
connect_public_stream only_media =
    connection (codes "public" ++ media_suffix only_media)
      (codes "public" ++ media_suffix only_media)

unfoldable pub connect_hashtag_stream : Text → Connection
connect_hashtag_stream tag = connection (codes "hashtag:" ++ tag) (codes "hashtag&tag=" ++ tag)

unfoldable pub connect_direct_stream : Connection
connect_direct_stream = connection (codes "direct") (codes "direct")

unfoldable pub connect_list_stream : Text → Connection
connect_list_stream id = connection (codes "list:" ++ id) (codes "list&list=" ++ id)
