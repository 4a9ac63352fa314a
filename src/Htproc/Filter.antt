-- ===== src/Htproc/Filter.antt =====
-- `getCreate` of htproc/procStore.go and `Filter` of htproc/htproc.go. Each round of the filter finds the
-- store as the other requests have left it.
pub mod Statuses
use Prim.Native.String.{String}
use tasked.Base.{if◌then◌else◌, ℕ, Bool, true, false, Option, none, some, List, [], ◌∷◌}
use tasked.Htproc.Status.{Error, proc_closed, proc_store_closed, temporarily_banned}
use tasked.Htproc.Store.{Store, GetCreateResult, got, refused, get_create_proc}

-- What a round finds: the store, or none where it is closed, and the error that `serve` returns then.
pub record Round : Type 0 where
  pub store : Option Store
  pub now : ℕ
  pub served : Option Error

unfoldable pub get_create : String → Round → GetCreateResult
get_create user r = elim r.store [
  | none ↦ refused proc_store_closed
  | some ps ↦ (get_create_proc r.now user ps).1
]

abbrev pub is_gone : Error → Bool
is_gone proc_store_closed = true
is_gone temporarily_banned = true
is_gone _ = false

abbrev pub is_proc_closed : Error → Bool
is_proc_closed proc_closed = true
is_proc_closed _ = false

-- The request is passed on, or it is handled, with an error response of the filter or without, or the
-- filter goes on to try.
pub data Filtered : Type 0 where
  passed : Filtered
  handled : Option ℕ → Filtered
  trying : Filtered

-- One round, with the rounds to come behind it.
unfoldable pub filter_round : GetCreateResult → Option Error → Filtered → Filtered
filter_round (refused e) served later = handled (some (if is_gone e then 404 else 500))
filter_round (got p) none later = handled none
filter_round (got p) (some e) later = if is_proc_closed e then later else handled none

unfoldable pub filter_loop : String → List Round → Filtered
filter_loop user [] = trying
filter_loop user (r ∷ rs) = filter_round (get_create user r) r.served (filter_loop user rs)

-- `user` is empty where the data of the request are no text.
unfoldable pub filter : String → List Round → Filtered
filter String.[] rs = passed
filter (String.◌∷◌ c u) rs = filter_loop (String.◌∷◌ c u) rs
