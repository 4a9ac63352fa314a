-- ===== src/Htproc/Filter/Statuses.antt =====
-- How the filter of htproc/htproc.go ends.
use Prim.Native.String.{String}
use tasked.Base.{
  Bool-cases, Option-cases, All, ℕ, ◌≡◌, refl, sym, ap, ◌∙◌, ◌⊎◌, inl, inr, true, none, some, List,
  [], ◌∷◌, ◌++◌,
}
use tasked.Htproc.Status.{Error, proc_closed, proc_store_closed, temporarily_banned}
use tasked.Htproc.Store.{Store, GetCreateResult, got, refused}
use tasked.Htproc.Store.Answers.{get_create_proc-refused}
use tasked.Htproc.Filter.{
  Round, get_create, is_gone, is_proc_closed, Filtered, passed, handled, trying, filter_round,
  filter_loop, filter,
}

refused_inj : (e f : Error) → refused e ≡ refused f → e ≡ f
refused_inj e f h = cc

get_create_gone :
    (user : String) (r : Round) (e : Error) → get_create user r ≡ refused e → is_gone e ≡ true
unfolding get_create
get_create_gone user r e h = elim (Option-cases r.store) [
  | inl s ↦ ap is_gone (refused_inj e proc_store_closed (sym (rw (s, get_create) at h)))
  | inr (ps, s) ↦
      let h' = rw (s, get_create) at h in
      let k = (get_create_proc-refused r.now user ps e h').0 in
      ap is_gone
        (refused_inj e temporarily_banned (sym h' ∙ ap (λ (x : Store × GetCreateResult). x.1) k))
]

-- The filter has not written an error response of its own, but one: not found.
abbrev pub IsMild : Filtered → Type 0
IsMild passed = Unit {0}
IsMild (handled status) = (status ≡ none) ⊎ (status ≡ some 404)
IsMild trying = Unit {0}

round-IsMild :
    (user : String) (r : Round) (later : Filtered) (g : GetCreateResult)
    → get_create user r ≡ g
    → IsMild later
    → IsMild (filter_round g r.served later)
unfolding filter_round
round-IsMild user r later (refused e) h k = inr (rw (get_create_gone user r e h) refl)
round-IsMild user r later (got p) h k = elim (Option-cases r.served) [
  | inl s ↦ rw s (inl refl)
  | inr (e, s) ↦ elim (Bool-cases (is_proc_closed e)) [
    | inl c ↦ rw (s, c) k
    | inr c ↦ rw (s, c) (inl refl)
  ]
]

loop-IsMild : (user : String) (rs : List Round) → IsMild (filter_loop user rs)
unfolding filter_loop
loop-IsMild user [] = tt
loop-IsMild user (r ∷ rs) =
    round-IsMild user r (filter_loop user rs) (get_create user r) refl (loop-IsMild user rs)

-- Whatever the store and the processes do, in however many rounds, the only error response that the
-- filter itself writes is that nothing was found: never that of an error of the server.
pub filter-IsMild : (user : String) (rs : List Round) → IsMild (filter user rs)
unfolding filter
filter-IsMild String.[] rs = tt
filter-IsMild (String.◌∷◌ c u) rs = loop-IsMild (String.◌∷◌ c u) rs

-- A round in which the user has a process that was closed meanwhile.
abbrev pub IsLost : String → Round → Type 0
IsLost user r = ((p : ℕ) × (get_create user r ≡ got p)) × (r.served ≡ some proc_closed)

loop_skips :
    (user : String) (rs more : List Round)
    → All (IsLost user) rs
    → filter_loop user (rs ++ more) ≡ filter_loop user more
unfolding filter_loop filter_round
loop_skips user [] more h = refl
loop_skips user (r ∷ rs) more (((p, e), s), h) = rw (e, s) (loop_skips user rs more h)

-- The rounds in which the process was closed meanwhile do not count: the filter ends as it would if it
-- had begun behind them.
pub filter-append :
    (user : String) (rs more : List Round)
    → All (IsLost user) rs
    → filter user (rs ++ more) ≡ filter user more
unfolding filter
filter-append String.[] rs more h = refl
filter-append (String.◌∷◌ c u) rs more h = loop_skips (String.◌∷◌ c u) rs more h
