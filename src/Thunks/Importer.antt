-- ===== src/Thunks/Importer.antt =====
-- app/javascript/mastodon/actions/importer: accounts and statuses that were fetched are put into the
-- store. Of normalizer.js the model has what it does with ids and with `hidden`.
use mastodon.Prelude.{
  Text, codes, text_eq, ◌||◌, not, Option, none, some, List, [], ◌∷◌, ◌++◌, if◌then◌else◌, any,
  is_empty, get,
}
use mastodon.Entities.{Account, StatusEntry}
use mastodon.Actions.{statuses_import, accounts_import}
use mastodon.Store.{Store}
use mastodon.Thunks.Message.{Message, message}
use mastodon.Thunks.Answers.{
  FetchedAccount, settled, moved, account_of, Fetched, original, reblog, post_of, status_of,
}
use mastodon.Thunks.Program.{Program, put, ask, dispatch}

-- An object is added unless one with its id is there.
unfoldable pub push_unique {ℓ} : {A : Type ℓ} → (A → Text) → List A → A → List A
push_unique id_of array object =
    if any (λ element. text_eq (id_of element) (id_of object)) array
    then array
    else array ++ (object ∷ [])

unfoldable pub process_account : List Account → FetchedAccount → List Account
unfolding push_unique
process_account accounts (settled account) = push_unique (λ (a : Account). a.id) accounts account
process_account accounts (moved account to) =
    process_account (push_unique (λ (a : Account). a.id) accounts account) to

unfoldable pub process_accounts : List Account → List FetchedAccount → List Account
unfolding process_account
process_accounts accounts [] = accounts
process_accounts accounts (a ∷ rest) = process_accounts (process_account accounts a) rest

unfoldable pub import_fetched_accounts : List FetchedAccount → Message
unfolding process_accounts
import_fetched_accounts accounts =
    message (codes "ACCOUNTS_IMPORT") (accounts_import (process_accounts [] accounts))

abbrev pub import_fetched_account : FetchedAccount → Message
import_fetched_account account = import_fetched_accounts (account ∷ [])

-- A status that the store knows keeps what was decided about hiding it.
unfoldable pub normalize_status : Fetched → Option StatusEntry → StatusEntry
normalize_status s old = record {
  body = some (status_of s);
  favourited = (post_of s).favourited;
  reblogged = (post_of s).reblogged;
  muted = (post_of s).muted;
  hidden = elim old [
    | none ↦ some (not (is_empty (post_of s).spoiler_text) || (post_of s).sensitive)
    | some entry ↦ entry.hidden
  ];
}

pub record Collected : Type 0 where
  pub accounts : List FetchedAccount
  pub statuses : List (Text × StatusEntry)

abbrev pub first_of : Text × StatusEntry → Text
first_of (id, entry) = id

abbrev pub collect : Store → Collected → Fetched → Collected
collect store c s = record {
  statuses =
      push_unique first_of c.statuses
        ((post_of s).id, normalize_status s (get (post_of s).id store.statuses_state));
  accounts = push_unique (λ a. (account_of a).id) c.accounts (post_of s).account;
}

-- A status and, if it reblogs one, that one.
unfoldable pub process_status : Store → Collected → Fetched → Collected
unfolding push_unique normalize_status
process_status store c (original post) = collect store c (original post)
process_status store c (reblog post inner) =
    let outer = collect store c (reblog post inner) in
    let both = process_status store outer inner in
    if is_empty (post_of inner).id then outer else both

unfoldable pub process_statuses : Store → Collected → List Fetched → Collected
unfolding process_status
process_statuses store c [] = c
process_statuses store c (s ∷ rest) = process_statuses store (process_status store c s) rest

abbrev pub nothing_collected : Collected
nothing_collected = record { accounts = []; statuses = [] }

unfoldable pub import_collected : Collected → Program
unfolding import_fetched_accounts
import_collected c =
    put (import_fetched_accounts c.accounts)
      (dispatch (message (codes "STATUSES_IMPORT") (statuses_import c.statuses)))

unfoldable pub import_fetched_statuses : List Fetched → Program
unfolding process_statuses import_collected
import_fetched_statuses statuses =
    ask (λ store. import_collected (process_statuses store nothing_collected statuses))

abbrev pub import_fetched_status : Fetched → Program
import_fetched_status status = import_fetched_statuses (status ∷ [])
