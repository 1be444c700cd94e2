-- ===== src/Streaming/Filter.antt =====
-- streaming/index.js: the listener of `streamFrom`, which decides what of a channel a client gets.
pub mod Query
pub mod Laws
mod Tests
use mathlib.Core.Option
use mastodon.Prelude.{
  ℕ, zero, suc, ◌+◌, ◌-◌, Text, codes, text_eq, option_eq, truthy, Bool, true, false, not, ◌&&◌,
  ◌||◌, Option, none, some, List, [], ◌∷◌, ◌++◌, ◌==◌, if◌then◌else◌, any, map, get_elem?,
}
use mastodon.Streaming.Database.{Database, Row}
use mastodon.Streaming.Auth.{Session}

-- The status in the payload of an `update`, with the fields that the filter reads.
pub record Update : Type 0 where
  pub id : Text
  pub author_id : Text
  pub author_acct : Text
  pub mentions : List Text
  pub language : Option Text

-- A payload is an object, which is sent as JSON, or a string.
pub data Payload : Type 0 where
  object : Update → Payload
  string : Text → Payload

pub record Message : Type 0 where
  pub event : Text
  pub payload : Payload

-- What the listener does with a message: hand it to `output`, nothing, or throw.
pub data Outcome : Type 0 where
  transmit : Text → Payload → Outcome
  skip throw : Outcome

-- `placeholders(arr, shift)`: the numbers of the parameters `$1`, `$2`, …, for each entry.
unfoldable pub placeholders {ℓ} : {A : Type ℓ} → List A → ℕ → List ℕ
placeholders [] shift = []
placeholders (x ∷ arr) shift = (1 + shift) ∷ placeholders arr (suc shift)

-- The entries of `acct.split('@')` from the second on: what stands behind each `@`, up to the next.
first_part : Text → Text
first_part [] = []
first_part (c ∷ s) = if c == b'@' then [] else c ∷ first_part s

unfoldable pub account_domain : Text → Option Text
unfolding first_part
account_domain [] = none
account_domain (c ∷ s) = elim (c == b'@') [ true ↦ some (first_part s) | false ↦ account_domain s ]

-- The parameter `$n` of a query is the n-th entry of its list of values.
unfoldable pub param : List Text → ℕ → Option Text
param values n = get_elem? values (n - 1)

unfoldable pub is_in : List Text → Text → List ℕ → Bool
unfolding param
is_in values target numbers = any (λ n. option_eq (param values n) (some target)) numbers

-- `account_id = $1 AND target_account_id IN (…)`.
unfoldable pub targets_one_of : List Row → List Text → List ℕ → Bool
unfolding is_in
targets_one_of rows values numbers =
    any
      (λ (r : Row). option_eq (param values 1) (some r.account_id) && is_in values r.target numbers)
      rows

-- `account_id = $2 AND target_account_id = $1`.
unfoldable pub targets_reader : List Row → List Text → Bool
unfolding param
targets_reader rows values =
    any
      (λ (r : Row).
        option_eq (param values 2) (some r.account_id)
        && option_eq (param values 1) (some r.target))
      rows

-- The query of blocks and mutes: whether it returns a row.
unfoldable pub blocks_query : Database → List Text → List ℕ → Bool
unfolding targets_one_of targets_reader
blocks_query db values numbers =
    targets_one_of db.blocks values numbers
    || (targets_reader db.blocks values || targets_one_of db.mutes values numbers)

-- The query of domain blocks: `account_id = $1 AND domain = $2`.
unfoldable pub domain_query : Database → Text → Text → Bool
domain_query db account domain =
    any (λ (r : Row). text_eq r.account_id account && text_eq r.target domain)
      db.account_domain_blocks

-- The test of `chosenLanguages`.
unfoldable pub language_refused : Option (List Text) → Option Text → Bool
language_refused none language = false
language_refused (some chosen) none = false
language_refused (some chosen) (some language) = not (any (λ c. text_eq c language) chosen)

unfoldable pub target_account_ids : Update → List Text
target_account_ids u = u.author_id ∷ u.mentions

-- The part of the listener that asks the database, for a reader who is logged in.
unfoldable pub check_database : Database → Text → Update → Text → Outcome
unfolding blocks_query domain_query placeholders account_domain target_account_ids
check_database db account u event =
    let targets = target_account_ids u in
    let domain = account_domain u.author_acct in
    let blocked = blocks_query db (account ∷ u.author_id ∷ targets) (placeholders targets 2) in
    let domain_blocked =
      truthy domain && domain_query db account (elim domain [ none ↦ [] | some d ↦ d ]) in
    if not db.connects
    then skip
    else (if not db.answers
        then skip
        else (if blocked || domain_blocked then skip else transmit event (object u)))

-- The part of the listener for an `update` that needs filtering.
unfoldable pub filter_update : Database → Session → Text → Payload → Outcome
unfolding check_database language_refused
filter_update db session event (string s) = throw
filter_update db session event (object u) =
    if language_refused session.chosen_languages u.language then skip else elim session.account_id [
      | none ↦ transmit event (object u)
      | some account ↦ check_database db account u event
    ]

unfoldable pub listener : Database → Session → Bool → Bool → Message → Outcome
unfolding filter_update
listener db session needs_filtering notification_only message =
    if notification_only && not (text_eq message.event (codes "notification"))
    then skip
    else (if not needs_filtering || not (text_eq message.event (codes "update"))
        then transmit message.event message.payload
        else filter_update db session message.event message.payload)
