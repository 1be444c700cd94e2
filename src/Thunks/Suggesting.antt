-- ===== src/Thunks/Suggesting.antt =====
-- app/javascript/mastodon/actions/compose.js and emojis.js: the suggestions of the compose form.
use mastodon.Prelude.{
  ℕ, ◌-◌, Text, codes, false, Option, none, some, List, [], ◌∷◌, if◌then◌else◌, drop, is_empty, get,
}
use mastodon.Entities.{Emoji}
use mastodon.Actions.{Action}
use mastodon.Thunks.Message.{message}
use mastodon.Thunks.Answers.{Kind, Method, request, Param}
use mastodon.Thunks.Program.{Program, put, ask, dispatch, call, ◌>>◌}
use mastodon.Thunks.Importer.{import_fetched_accounts}
use mastodon.Thunks.Run.{Texts}
use mastodon.Entities.{Emoji}
use mastodon.ComposeText.{starts_with}
use mastodon.Compose.State.{Suggestion, word, picture}
use mastodon.Reducers.Accounts.{Profile}
use mastodon.Thunks.Alerts.{alert_for}
use mastodon.Thunks.Form.{
  ready_compose_suggestions_accounts, ready_compose_suggestions_emojis, update_suggestion_tags,
}

-- Throttling and cancelling are left out: the request that is made, and what its answer does.
unfoldable pub fetch_compose_suggestions_accounts : Texts → Text → Program
fetch_compose_suggestions_accounts texts token =
    call
      (request Method.get (codes "/api/v1/accounts/search") (
        (codes "q", Param.text (drop 1 token))
        ∷ (codes "resolve", Param.flag false)
        ∷ (codes "limit", Param.number 4)
        ∷ []))
      Kind.accounts
      (λ page.
        put (import_fetched_accounts page.entries)
          (dispatch (ready_compose_suggestions_accounts token page.entries)))
      (λ error. dispatch (alert_for texts error))

-- `search` is the emoji search, which gets the token without its first colon.
unfoldable pub fetch_compose_suggestions_emojis : (Text → List Emoji) → Text → Program
fetch_compose_suggestions_emojis search token =
    dispatch (ready_compose_suggestions_emojis token (search token))

unfoldable pub fetch_compose_suggestions_tags : Text → Program
fetch_compose_suggestions_tags token = dispatch (update_suggestion_tags token)

unfoldable pub fetch_compose_suggestions : Texts → (Text → List Emoji) → Text → Program
unfolding fetch_compose_suggestions_accounts fetch_compose_suggestions_emojis
    fetch_compose_suggestions_tags
fetch_compose_suggestions texts search token =
    if starts_with (codes ":") token
    then fetch_compose_suggestions_emojis search token
    else if starts_with (codes "#") token
    then fetch_compose_suggestions_tags token
    else fetch_compose_suggestions_accounts texts token

-- `save` is the debounced saving of the settings.
unfoldable pub use_emoji : Program → Emoji → Program
use_emoji save emoji = put (message (codes "EMOJI_USE") (Action.emoji_use emoji)) save

abbrev pub select : ℕ → Text → Text → Program
select position token completion = dispatch (
    message (codes "COMPOSE_SUGGESTION_SELECT")
      (Action.compose_suggestion_select position token completion))

-- The address of an account that the store does not have is undefined, which the reducer writes out.
abbrev pub acct_of : Option Profile → Text
acct_of none = codes "undefined"
acct_of (some account) = account.acct

-- `colons` is the text of an emoji that has no character of its own.
unfoldable pub select_compose_suggestion :
    Program → (Emoji → Text) → ℕ → Text → Suggestion → Program
unfolding use_emoji ◌>>◌
select_compose_suggestion save colons position token (picture emoji) =
    use_emoji save emoji
    >> select (position - 1) token (if is_empty emoji.native then colons emoji else emoji.native)
select_compose_suggestion save colons position token (word suggestion) =
    if starts_with (codes "#") suggestion
    then select (position - 1) token suggestion
    else ask (λ store. select position token (acct_of (get suggestion store.accounts_state)))
