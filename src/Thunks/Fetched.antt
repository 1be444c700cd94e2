-- ===== src/Thunks/Fetched.antt =====
-- app/javascript/mastodon/actions/trends.js, cards.js and filters.js.
use mastodon.Prelude.{Text, codes, List, [], ◌++◌, if◌then◌else◌, is_empty, has}
use mastodon.Actions.{Action}
use mastodon.Thunks.Message.{
  Message, Error, message, unread, failure, unread_failure, skipping_loading, skipping_alert,
}
use mastodon.Thunks.Answers.{Kind, Method, request}
use mastodon.Thunks.Program.{Program, done, put, ask, dispatch, call}

abbrev pub fetch_trends_request : Message
fetch_trends_request =
    skipping_loading (message (codes "TRENDS_FETCH_REQUEST") (Action.trends_fetch_request))

abbrev pub fetch_trends_success : List Text → Message
fetch_trends_success trends =
    skipping_loading (message (codes "TRENDS_FETCH_SUCCESS") (Action.trends_fetch_success trends))

abbrev pub fetch_trends_fail : Error → Message
fetch_trends_fail error =
    skipping_loading
      (skipping_alert (failure (codes "TRENDS_FETCH_FAIL") error (Action.trends_fetch_fail)))

abbrev pub fetch_status_card_request : Text → Message
fetch_status_card_request id = skipping_loading (unread (codes "STATUS_CARD_FETCH_REQUEST"))

abbrev pub fetch_status_card_success : Text → Text → Message
fetch_status_card_success id url =
    skipping_loading
      (message (codes "STATUS_CARD_FETCH_SUCCESS") (Action.status_card_fetch_success id url))

abbrev pub fetch_status_card_fail : Text → Error → Message
fetch_status_card_fail id error =
    skipping_loading (skipping_alert (unread_failure (codes "STATUS_CARD_FETCH_FAIL") error))

unfoldable pub fetch_trends : Program
fetch_trends = put fetch_trends_request (
    call (request Method.get (codes "/api/v1/trends") []) Kind.hashtags
      (λ trends. dispatch (fetch_trends_success trends))
      (λ error. dispatch (fetch_trends_fail error)))

-- A card without a URL is none.
unfoldable pub fetch_status_card : Text → Program
fetch_status_card id = ask (λ store.
    if has id store.cards_state
    then done
    else put (fetch_status_card_request id) (
        call (request Method.get (codes "/api/v1/statuses/" ++ (id ++ codes "/card")) []) Kind.card
          (λ url. if is_empty url then done else dispatch (fetch_status_card_success id url))
          (λ error. dispatch (fetch_status_card_fail id error))))

-- The failure carries its error under another key than the middleware reads, and no alert is wanted.
unfoldable pub fetch_filters : Program
fetch_filters = put (skipping_loading (unread (codes "FILTERS_FETCH_REQUEST"))) (
    call (request Method.get (codes "/api/v1/filters") []) Kind.phrases
      (λ phrases. dispatch (
        skipping_loading
          (message (codes "FILTERS_FETCH_SUCCESS") (Action.filters_fetch_success phrases))))
      (λ error. dispatch (skipping_loading (skipping_alert (unread (codes "FILTERS_FETCH_FAIL"))))))
