-- ===== src/Htproc/Store/Oldest.antt =====
-- Which runner `getCreateProc` of htproc/procStore.go evicts.
use Prim.Native.String.{String}
use mathlib.Core.Path.{subst}
use text.Mathlib.TextEquality.{eq_iff}
use tasked.Base.{
  ltb, Bool-cases, All, ℕ, ◌≤◌, ◌≡◌, refl, sym, ◌⊎◌, inl, inr, true, false, List, [], ◌∷◌, arith,
}
use tasked.Base.Dict.{has}
use tasked.Htproc.Store.{time_of, oldest_loop}

module _ (accessed : List (String × ℕ)) where
  oldest_loop-either :
      (us : List String) (ou : String) (oa : ℕ)
      → (has (oldest_loop accessed us ou oa) us ≡ true) ⊎ (oldest_loop accessed us ou oa ≡ ou)
  unfolding oldest_loop has
  oldest_loop-either [] ou oa = inr refl
  oldest_loop-either (u ∷ us) ou oa = ground (
    arith,
    oldest_loop-either us ou oa,
    oldest_loop-either us u (time_of u accessed),
    eq_iff u (oldest_loop accessed us u (time_of u accessed)),
  )

  oldest_later :
      (us : List String) (ou : String) (oa : ℕ) (u : String)
      → ltb oa (time_of u accessed) ≡ true
      → oldest_loop accessed (u ∷ us) ou oa ≡ oldest_loop accessed us ou oa
  unfolding oldest_loop
  oldest_later us ou oa u h = rw h

  oldest_sooner :
      (us : List String) (ou : String) (oa : ℕ) (u : String)
      → ltb oa (time_of u accessed) ≡ false
      → oldest_loop accessed (u ∷ us) ou oa ≡ oldest_loop accessed us u (time_of u accessed)
  unfolding oldest_loop
  oldest_sooner us ou oa u h = rw h

  -- No access of the users is before that of `r`.
  abbrev pub IsOldest : List String → String → Type 0
  IsOldest us r = All (λ v. time_of r accessed ≤ time_of v accessed) us

  abbrev IsMin : ℕ → List String → String → Type 0
  IsMin oa us r = (time_of r accessed ≤ oa) × IsOldest us r

  oldest_loop-IsMin :
      (us : List String) (ou : String) (oa : ℕ)
      → time_of ou accessed ≡ oa
      → IsMin oa us (oldest_loop accessed us ou oa)
  oldest_loop-IsMin [] ou oa h = unfold oldest_loop in (omega arith, tt)
  oldest_loop-IsMin (u ∷ us) ou oa h = elim (Bool-cases (ltb oa (time_of u accessed))) [
    | inl later ↦
        let ih = oldest_loop-IsMin us ou oa h in
        subst (IsMin oa (u ∷ us)) (sym (oldest_later us ou oa u later)) (ih.0, (ground arith, ih.1))
    | inr sooner ↦
        let ih = oldest_loop-IsMin us u (time_of u accessed) refl in
        subst (IsMin oa (u ∷ us)) (sym (oldest_sooner us ou oa u sooner))
          (ground arith, (ih.0, ih.1))
  ]

  -- Where no access is later than the start `oa`, the loop ends at one of the users, and at one that
  -- was away for at least as long as any.
  pub oldest_loop-IsOldest :
      (u : String) (us : List String) (ou : String) (oa : ℕ)
      → time_of u accessed ≤ oa
      → (has (oldest_loop accessed (u ∷ us) ou oa) (u ∷ us) ≡ true)
        × IsOldest (u ∷ us) (oldest_loop accessed (u ∷ us) ou oa)
  oldest_loop-IsOldest u us ou oa h =
      let ih = oldest_loop-IsMin us u (time_of u accessed) refl in
      subst (λ r. (has r (u ∷ us) ≡ true) × IsOldest (u ∷ us) r)
        (sym (oldest_sooner us ou oa u (ground arith))) (first, (ih.0, ih.1))
    where
      first : has (oldest_loop accessed us u (time_of u accessed)) (u ∷ us) ≡ true
      first =
          unfold has in
          ground (
            arith,
            oldest_loop-either us u (time_of u accessed),
            eq_iff u (oldest_loop accessed us u (time_of u accessed)),
          )
