-- ===== src/Thunks/Program.antt =====
-- A thunk as a program: what it dispatches, where it reads the state, and what it does when an
-- answer arrives.
use mastodon.Prelude.{Bool, true, false}
use mastodon.Store.{Store}
use mastodon.Thunks.Message.{Message, Error}
use mastodon.Thunks.Answers.{Kind, Answer, Request}

-- `fetch r kind ok failed rest` sends a request; `rest` runs at once, and `ok` or `failed` once the
-- answer is there. `failed` also gets what `ok` throws.
pub data Program : Type 0 where
  done : Program
  put : Message → Program → Program
  ask : (Store → Program) → Program
  fetch : Request → (kind : Kind) → (Answer kind → Program) → (Error → Program) → Program → Program

-- One program after the other: `dispatch(thunk)` runs the thunk in place.
infixr 5 ◌>>◌
unfoldable pub ◌>>◌ : Program → Program → Program
done >> q = q
put m p >> q = put m (p >> q)
ask k >> q = ask (λ store. k store >> q)
fetch r kind ok failed p >> q = fetch r kind ok failed (p >> q)

-- One message.
abbrev pub dispatch : Message → Program
dispatch m = put m done

-- A request with which a program ends.
abbrev pub call : Request → (kind : Kind) → (Answer kind → Program) → (Error → Program) → Program
call r kind ok failed = fetch r kind ok failed done

abbrev pub when : Bool → Program → Program
when true p = p
when false p = done
