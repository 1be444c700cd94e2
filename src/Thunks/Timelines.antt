-- ===== src/Thunks/Timelines.antt =====
-- app/javascript/mastodon/actions/timelines.js: what the client does when a status arrives, is
-- deleted, or a timeline is to be filled.
use mastodon.Prelude.{
  Text, codes, option_eq, Bool, true, false, not, ◌==◌, Option, none, some, List, [], ◌∷◌, ◌++◌,
  map, if◌then◌else◌, is_empty, get, set, get_or,
}
use mastodon.Entities.{Status}
use mastodon.Actions.{
  Action, timeline_update, timeline_delete, timeline_expand_request, timeline_expand_success,
  timeline_expand_fail, timeline_scroll_top, timeline_disconnect,
}
use mastodon.Timelines.{initial_timeline}
use mastodon.Reducers.Statuses.{Statuses}
use mastodon.Store.{Store}
use mastodon.Thunks.Message.{Message, Error, message, failure}
use mastodon.Thunks.Answers.{Kind, Method, request, Param, Fetched, status_of, Page, optional}
use mastodon.Thunks.Program.{Program, done, put, ask, dispatch, call, ◌>>◌}
use mastodon.Thunks.Importer.{import_fetched_status, import_fetched_statuses}

unfoldable pub update_timeline : Text → Fetched → Program
unfolding ◌>>◌ import_fetched_statuses
update_timeline timeline status =
    import_fetched_status status
    >> dispatch (message (codes "TIMELINE_UPDATE") (timeline_update timeline (status_of status)))

abbrev pub reblogs_of : Text → Option Status → List (Text × Text) → List (Text × Text)
reblogs_of id none rest = rest
reblogs_of id (some s) rest =
    if option_eq s.reblog (some id) then (s.id, s.account) ∷ rest else rest

-- The id and the account of each status that reblogs the given one.
unfoldable pub references_to : Text → Statuses → List (Text × Text)
references_to id [] = []
references_to id ((key, entry) ∷ statuses) = reblogs_of id entry.body (references_to id statuses)

abbrev pub field_of : (Status → Option Text) → Text → Statuses → Option Text
field_of field id statuses = elim (get id statuses) [
  | none ↦ none
  | some entry ↦ elim entry.body [ none ↦ none | some s ↦ field s ]
]

unfoldable pub deletion : Text → Store → Action
unfolding references_to
deletion id store =
    timeline_delete id (field_of (λ (s : Status). some s.account) id store.statuses_state)
      (references_to id store.statuses_state)
      (field_of (λ (s : Status). s.reblog) id store.statuses_state)

unfoldable pub delete_from_timelines : Text → Program
unfolding deletion
delete_from_timelines id =
    ask (λ store. dispatch (message (codes "TIMELINE_DELETE") (deletion id store)))

abbrev pub expand_timeline_request : Text → Message
expand_timeline_request timeline =
    message (codes "TIMELINE_EXPAND_REQUEST") (timeline_expand_request timeline)

abbrev pub expand_timeline_success : Text → List Fetched → Option Text → Bool → Message
expand_timeline_success timeline statuses next partial =
    message (codes "TIMELINE_EXPAND_SUCCESS")
      (timeline_expand_success timeline (map status_of statuses) next partial)

abbrev pub expand_timeline_fail : Text → Error → Message
expand_timeline_fail timeline error =
    failure (codes "TIMELINE_EXPAND_FAIL") error (timeline_expand_fail timeline)

abbrev pub scroll_top_timeline : Text → Bool → Message
scroll_top_timeline timeline top =
    message (codes "TIMELINE_SCROLL_TOP") (timeline_scroll_top timeline top)

abbrev pub disconnect_timeline : Text → Message
disconnect_timeline timeline = message (codes "TIMELINE_DISCONNECT") (timeline_disconnect timeline)

-- Whether a parameter passes JavaScript's test.
abbrev pub is_set : Option Param → Bool
is_set (some (Param.text t)) = not (is_empty t)
is_set (some (Param.flag b)) = b
is_set (some (Param.number n)) = not (n == 0)
is_set (some Param.null) = false
is_set (some (Param.texts ts)) = true
is_set (some Param.object) = true
is_set none = false

-- The first item is a status or, as null, a gap.
unfoldable pub since_first : List (Text × Param) → List (Option Text) → List (Text × Param)
since_first params [] = params
since_first params (item ∷ items) =
    if is_set (get (codes "max_id") params)
    then params
    else set (codes "since_id") (optional item) params

-- What happens once the page is there. A response of axios has no key `code`, so its comparison
-- with 206 fails.
unfoldable pub page_arrived : Text → Program → Page Fetched → Program
unfolding ◌>>◌ import_fetched_statuses
page_arrived timeline after_it page =
    import_fetched_statuses page.entries
    >> put (expand_timeline_success timeline page.entries page.next false) after_it

unfoldable pub page_failed : Text → Program → Error → Program
page_failed timeline after_it error = put (expand_timeline_fail timeline error) after_it

-- `after_it` is the callback `done`.
unfoldable pub expand_timeline : Text → Text → List (Text × Param) → Program → Program
unfolding since_first page_arrived page_failed
expand_timeline timeline path params after_it = ask (λ store.
    let t = get_or initial_timeline timeline store.timelines_state in
    if t.is_loading
    then after_it
    else put (expand_timeline_request timeline) (
        call (request Method.get path (since_first params t.items)) Kind.statuses
          (page_arrived timeline after_it) (page_failed timeline after_it)))

abbrev pub max_id : Option Text → Text × Param
max_id id = (codes "max_id", optional id)

abbrev pub media_suffix : Bool → Text
media_suffix only_media = if only_media then codes ":media" else []

unfoldable pub expand_home_timeline : Option Text → Program → Program
unfolding expand_timeline
expand_home_timeline id =
    expand_timeline (codes "home") (codes "/api/v1/timelines/home") (max_id id ∷ [])

unfoldable pub expand_public_timeline : Option Text → Bool → Program → Program
unfolding expand_timeline
expand_public_timeline id only_media =
    expand_timeline (codes "public" ++ media_suffix only_media) (codes "/api/v1/timelines/public")
      (max_id id ∷ (codes "only_media", Param.flag only_media) ∷ [])

unfoldable pub expand_community_timeline : Option Text → Bool → Program → Program
unfolding expand_timeline
expand_community_timeline id only_media =
    expand_timeline (codes "community" ++ media_suffix only_media)
      (codes "/api/v1/timelines/public")
      ((codes "local", Param.flag true)
        ∷ max_id id
        ∷ (codes "only_media", Param.flag only_media)
        ∷ [])

unfoldable pub expand_direct_timeline : Option Text → Program → Program
unfolding expand_timeline
expand_direct_timeline id =
    expand_timeline (codes "direct") (codes "/api/v1/timelines/direct") (max_id id ∷ [])

abbrev pub account_path : Text → Text
account_path id = codes "/api/v1/accounts/" ++ (id ++ codes "/statuses")

unfoldable pub expand_account_timeline : Text → Option Text → Bool → Program
unfolding expand_timeline
expand_account_timeline account id with_replies =
    expand_timeline
      (codes "account:" ++ (account ++ (if with_replies then codes ":with_replies" else [])))
      (account_path account)
      ((codes "exclude_replies", Param.flag (not with_replies)) ∷ max_id id ∷ []) done

unfoldable pub expand_account_featured_timeline : Text → Program
unfolding expand_timeline
expand_account_featured_timeline account =
    expand_timeline (codes "account:" ++ (account ++ codes ":pinned")) (account_path account)
      ((codes "pinned", Param.flag true) ∷ []) done

unfoldable pub expand_account_media_timeline : Text → Option Text → Program
unfolding expand_timeline
expand_account_media_timeline account id =
    expand_timeline (codes "account:" ++ (account ++ codes ":media")) (account_path account)
      (max_id id ∷ (codes "only_media", Param.flag true) ∷ []) done

unfoldable pub expand_hashtag_timeline : Text → Option Text → Program → Program
unfolding expand_timeline
expand_hashtag_timeline hashtag id =
    expand_timeline (codes "hashtag:" ++ hashtag) (codes "/api/v1/timelines/tag/" ++ hashtag)
      (max_id id ∷ [])

unfoldable pub expand_list_timeline : Text → Option Text → Program → Program
unfolding expand_timeline
expand_list_timeline list id =
    expand_timeline (codes "list:" ++ list) (codes "/api/v1/timelines/list/" ++ list)
      (max_id id ∷ [])
