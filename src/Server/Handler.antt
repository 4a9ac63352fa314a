-- ===== src/Server/Handler.antt =====
-- `createHandler` of serve.go: the cascade of the filters of htauth/, htproc/ and htfile/, and who answers a
-- request. `spell` turns the name of a user into a text of the process store.
use Prim.Native.String.{String}
use tasked.Htproc.Filter.{Round, Filtered as Outcome, passed, handled as answered}
use tasked.Htproc.Filter.{filter as filter_procs}
use tasked.Htauth.Filter.{filter as htauth_filter}
use tasked.Base.{
  if◌then◌else◌, ℕ, Runes, is_empty, Bool, true, false, Option, none, some, List, [], ◌∷◌,
}
use tasked.Share.Filters.{Filtered, Filter, cascade, end_filter}
use tasked.Htauth.Request.{Request, Codec, Auth}
use tasked.Htauth.Filter.{Reply, pass}

-- Who has answered: the filter for the authentication, the process of a user, the filter for the processes,
-- with an error response, the handler for files, or the handler that is nil since there is no root. Nobody
-- has where the filter for the processes goes on to try.
pub data Answerer : Type 0 where
  nobody auth_filter file_handler nil_handler : Answerer
  user_process : (user : String) → Answerer
  proc_filter : (status : ℕ) → Answerer

-- What the filters hand on: what the authentication wrote, and who has answered.
pub record Response : Type 0 where
  pub reply : Reply
  pub who : Answerer

abbrev pub untouched : Response
untouched = record { reply = pass; who = nobody }

-- Who has answered by what the filter for the processes gives, for this user.
abbrev pub proc_answerer : (user : String) → Outcome → Answerer
proc_answerer user (answered none) = user_process user
proc_answerer user (answered (some status)) = proc_filter status
proc_answerer user _ = nobody

abbrev pub of_outcome :
    Response → Option Runes → (user : String) → Outcome → Filtered Response (Option Runes)
of_outcome w d user passed = record { response = w; d = d; handled = false }
of_outcome w d user out = record {
  response = record w { who = proc_answerer user out };
  d = d;
  handled = true;
}

-- The handler behind the filters.
unfoldable pub root_part : (root : Runes) → Filter Response (Option Runes)
root_part root =
    end_filter none λ w. record w { who = if is_empty root then nil_handler else file_handler }

module _ (codec : Codec) (auth : Auth) (allow_cookies : Bool) (spell : Runes → String) where
  -- The filter of htauth/: the user of its reply is the data for the filters behind.
  unfoldable pub auth_part : Request → Filter Response (Option Runes)
  auth_part r w d =
      let reply = htauth_filter codec auth allow_cookies r in
      record {
        response = record { reply = reply; who = if reply.handled then auth_filter else w.who };
        d = reply.user;
        handled = reply.handled;
      }

  abbrev pub user_text : Option Runes → String
  user_text none = ""
  user_text (some u) = spell u

  -- The filter of htproc/, which has a process of the user answer.
  unfoldable pub proc_part : List Round → Filter Response (Option Runes)
  proc_part rounds w d = of_outcome w d (user_text d) (filter_procs (user_text d) rounds)

  unfoldable pub create_handler :
      (authenticate : Bool) → (root : Runes) → Request → List Round → Filter Response (Option Runes)
  create_handler false root r rounds = root_part root
  create_handler true root r rounds = cascade (auth_part r ∷ proc_part rounds ∷ root_part root ∷ [])
