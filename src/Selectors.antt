-- ===== src/Selectors.antt =====
-- app/javascript/mastodon/selectors/index.js: what the components are given of the store. The texts
-- that the filters are tried on are not kept by the model of the store: they are parameters.
pub mod Literal
pub mod Crashes
mod Tests
use mastodon.Prelude.{
  ℕ, Text, codes, text_eq, Bool, true, false, ◌&&◌, ◌||◌, not, leb, ltb, ◌==◌, Option, none, some,
  List, [], ◌∷◌, ◌++◌, any, map, keep_if, is_some, get, if◌then◌else◌,
}
use mastodon.Entities.{Status, StatusEntry}
use mastodon.ComposeText.{starts_with}
use mastodon.Reducers.Accounts.{Profile}
use mastodon.Reducers.Alerts.{Shown}
use mastodon.Store.{Store}

-- A filter as the server sends it; its expiry is a time in milliseconds.
pub record Filter : Type 0 where
  pub phrase : Text
  pub context : List Text
  pub expires_at : Option ℕ
  pub whole_word : Bool

-- `text.indexOf(part) > -1`.
unfoldable pub contains : Text → Text → Bool
contains part [] = starts_with part []
contains part (c ∷ s) = starts_with part (c ∷ s) || contains part s

unfoldable pub to_server_side_type : Text → Text
unfolding contains
to_server_side_type column_type =
    if any (text_eq column_type)
      (codes "home" ∷ codes "notifications" ∷ codes "public" ∷ codes "thread" ∷ [])
    then column_type
    else if contains (codes "list:") column_type
    then codes "home"
    else codes "public"

abbrev pub is_current : ℕ → Option ℕ → Bool
is_current now none = true
is_current now (some expiry) = ltb now expiry

-- A context type that is missing or empty lets no filter through.
abbrev pub applies : ℕ → Text → Filter → Bool
applies now context_type f =
    any (text_eq (to_server_side_type context_type)) f.context && is_current now f.expires_at

unfoldable pub get_filters : List Filter → ℕ → Option Text → List Filter
unfolding to_server_side_type
get_filters filters now none = []
get_filters filters now (some []) = []
get_filters filters now (some (c ∷ s)) = keep_if (applies now (c ∷ s)) filters

-- The characters `.*+?^${}()|[]\`.
abbrev pub is_special : ℕ → Bool
is_special c = any (λ d. d == c) (codes ".*+?^${}()|[]\\")

unfoldable pub escape_reg_exp : Text → Text
escape_reg_exp [] = []
escape_reg_exp (c ∷ s) =
    let rest = escape_reg_exp s in if is_special c then 92 ∷ c ∷ rest else c ∷ rest

-- `\w`.
abbrev pub is_word : ℕ → Bool
is_word c = leb 48 c && leb c 57 || leb 65 c && leb c 90 || leb 97 c && leb c 122 || c == 95

abbrev pub starts_with_word : Text → Bool
starts_with_word [] = false
starts_with_word (c ∷ s) = is_word c

abbrev pub ends_with_word : Text → Bool
ends_with_word [] = false
ends_with_word (c ∷ []) = is_word c
ends_with_word (c ∷ d ∷ s) = ends_with_word (d ∷ s)

abbrev pub with_start : Text → Text
with_start expr = if starts_with_word expr then codes "\\b" ++ expr else expr

abbrev pub with_end : Text → Text
with_end expr = if ends_with_word expr then expr ++ codes "\\b" else expr

unfoldable pub expr_of : Filter → Text
unfolding escape_reg_exp
expr_of f =
    let expr = escape_reg_exp f.phrase in if f.whole_word then with_end (with_start expr) else expr

unfoldable pub join_bars : List Text → Text
join_bars [] = []
join_bars (expr ∷ []) = expr
join_bars (expr ∷ next ∷ exprs) = expr ++ (124 ∷ join_bars (next ∷ exprs))

-- The source of the regular expression, which ignores case.
unfoldable pub regex_from_filters : List Filter → Option Text
unfolding expr_of join_bars
regex_from_filters [] = none
regex_from_filters (f ∷ filters) = some (join_bars (map expr_of (f ∷ filters)))

-- A status with what it refers to; `crashed` where the selector throws.
pub record Selected : Type 0 where
  pub base : StatusEntry
  pub reblog : Option StatusEntry
  pub reblog_account : Option Profile
  pub account : Option Profile
  pub filtered : Bool

pub data Selection : Type 0 where
  missing crashed : Selection
  selected : Selected → Selection

abbrev pub reblog_of : StatusEntry → Option Text
reblog_of entry = elim entry.body [ none ↦ none | some s ↦ s.reblog ]

abbrev pub lookup {ℓ} : {A : Type ℓ} → List (Text × A) → Option Text → Option A
lookup m none = none
lookup m (some id) = get id m

abbrev pub account_in : Store → Option StatusEntry → Option Profile
account_in store none = none
account_in store (some entry) = elim entry.body [
  | none ↦ none
  | some s ↦ get s.account store.accounts_state
]

-- Whose text the filters are tried on: a reblog that is not in the store has none.
abbrev pub filtered_by :
    (Text → Text → Bool)
    → (StatusEntry → Text)
    → Option Text
    → StatusEntry
    → Option Text
    → Option StatusEntry
    → Option Bool
filtered_by test index none base id reblog = some false
filtered_by test index (some regex) base none reblog = some (test regex (index base))
filtered_by test index (some regex) base (some id) none = none
filtered_by test index (some regex) base (some id) (some entry) = some (test regex (index entry))

abbrev pub selection : Store → StatusEntry → Option StatusEntry → Option Bool → Selection
selection store base reblog none = crashed
selection store base reblog (some filtered) = selected (record {
  base = base;
  reblog = reblog;
  reblog_account = account_in store reblog;
  account = account_in store (some base);
  filtered = filtered;
})

unfoldable pub get_status :
    (Text → Text → Bool) → (StatusEntry → Text) → Store → List Filter → Text → Selection
unfolding regex_from_filters
get_status test index store filters id = elim (get id store.statuses_state) [
  | none ↦ missing
  | some base ↦
      let reblog = lookup store.statuses_state (reblog_of base) in
      selection store base reblog
        (filtered_by test index (regex_from_filters filters) base (reblog_of base) reblog)
]

-- An alert as the notification stack shows it.
pub record AlertView : Type 0 where
  pub key : ℕ
  pub title : Text
  pub message : Text
  pub dismiss_after : ℕ
  pub z_index : ℕ

unfoldable pub get_alerts : List Shown → List AlertView
get_alerts = map (λ (item : Shown). record {
  key = item.key;
  title = item.title;
  message = item.message;
  dismiss_after = 5000;
  z_index = 200;
})
