-- ===== src/Store/Sample.antt =====
-- A concrete store.
use mastodon.Prelude.{Text, codes, true, false, none, some, [], ◌∷◌, get}
use mastodon.Entities.{Status}
use mastodon.Actions.{context_fetch_success}
use mastodon.Timelines
use mastodon.Notifications
use mastodon.Contexts
use mastodon.Contexts.Linked.{IsLinked, contexts-IsLinked}
use mastodon.Compose.State
use mastodon.Compose.State.{Env}
use mastodon.Reducers.StatusLists
use mastodon.Reducers.UserLists
use mastodon.Reducers.ListEditor
use mastodon.Reducers.Reports
use mastodon.Reducers.Search
use mastodon.Reducers.DomainLists
use mastodon.Reducers.Fetched
use mastodon.Reducers.PushNotifications
use mastodon.Store.{Store}

abbrev pub env : Env
env = record {
  Document = Text;
  parse = λ html. html;
  inner_html = λ html. html;
  me = none;
  uuid = codes "u";
  now = 0;
  later = 0;
  random_key = 0;
  percent = λ loaded total. loaded;
  set_link_text = λ html url text. some html;
  unescape_html = λ html. html;
}

abbrev pub answer : Status
answer = record {
  id = codes "2";
  account = codes "a";
  reblog = none;
  in_reply_to_id = some (codes "1");
}

-- A status 2 that answers 1 and is being answered.
abbrev pub store : Store
store = record {
  timelines_state =
      (
        codes "home",
        record Timelines.initial_timeline {
          items = some (codes "2") ∷ none ∷ some (codes "1") ∷ [];
        },
      )
      ∷ [];
  notifications_state = Notifications.initial_state;
  contexts_state =
      Contexts.contexts Contexts.initial_state (context_fetch_success (codes "1") [] (answer ∷ []));
  compose_state = record (State.initial_state 0) { in_reply_to = some (codes "2") };
  statuses_state =
      (
        codes "2",
        record {
          body = some answer;
          favourited = none;
          reblogged = none;
          muted = none;
          hidden = none;
        },
      )
      ∷ [];
  status_lists_state = StatusLists.initial_state;
  user_lists_state = UserLists.initial_state;
  list_editor_state = ListEditor.initial_state;
  lists_state = [];
  alerts_state = [];
  settings_state = record { saved = true; columns = []; frequently_used_emojis = [] };
  reports_state = Reports.initial_state;
  relationships_state = [];
  accounts_state = [];
  accounts_counters_state = [];
  search_state = Search.initial_state;
  mutes_state = record { is_submitting = false; account = none; notifications = true };
  dropdown_menu_state = record { open_id = none; placement = none };
  height_cache_state = [];
  domain_lists_state = DomainLists.initial_state;
  trends_state = Fetched.initial_trends;
  cards_state = [];
  filters_state = [];
  push_notifications_state = PushNotifications.initial_state;
}

initial-IsLinked : IsLinked Contexts.initial_state
unfolding get Contexts.includes
initial-IsLinked = record { listed = λ c p e. cc; linked = λ c p e. cc }

-- Its replies are what a thread of two statuses leaves.
pub store-IsLinked : IsLinked store.contexts_state
store-IsLinked =
    contexts-IsLinked Contexts.initial_state (context_fetch_success (codes "1") [] (answer ∷ [])) tt
      initial-IsLinked
