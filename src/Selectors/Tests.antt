-- ===== src/Selectors/Tests.antt =====
-- A filtered phrase with a dot, and a status that the store has.
use mastodon.Prelude.{
  codes, text_eq, ◌≡◌, refl, true, false, ◌&&◌, not, none, some, [], ◌∷◌, is_empty, get,
}
use mastodon.Entities.{StatusEntry}
use mastodon.Store.Sample.{store, answer}
use mastodon.Selectors.{Filter, escape_reg_exp, get_status, reblog_of}
use mastodon.Selectors.Literal.{literal, literal-escape_reg_exp}
use mastodon.Selectors.Crashes.{is_crashed, is_missing, get_status-crashed}

literal-escape_reg_exp_example : literal (escape_reg_exp (codes "a.b")) ≡ some (codes "a.b")
literal-escape_reg_exp_example = literal-escape_reg_exp (codes "a.b")

abbrev spoilers : Filter
spoilers = record {
  phrase = codes "a.b";
  context = codes "home" ∷ [];
  expires_at = none;
  whole_word = true;
}

abbrev entry : StatusEntry
entry = record {
  body = some answer;
  favourited = none;
  reblogged = none;
  muted = none;
  hidden = none;
}

entry_found : get (codes "2") store.statuses_state ≡ some entry
unfolding get text_eq
entry_found = refl

get_status-crashed_example :
    is_crashed (get_status (λ regex s. false) (λ e. codes "text") store (spoilers ∷ []) (codes "2"))
    ≡ (not (is_empty (spoilers ∷ [])) && is_missing (reblog_of entry) store.statuses_state)
get_status-crashed_example =
    get_status-crashed (λ regex s. false) (λ e. codes "text") store (spoilers ∷ []) (codes "2")
      entry entry_found
