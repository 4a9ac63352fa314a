-- ===== src/Share/Filters.antt =====
-- The filters of share/http.go and their cascade. What a filter does to the response is a state that it
-- passes on; with it go the data of the request.
use tasked.Base.{
  if◌then◌else◌, Bool-cases, ◌≡◌, refl, inl, inr, Bool, true, false, List, [], ◌∷◌, ◌++◌, arith,
}

-- What a filter leaves behind: the response, the data, and whether the request was handled.
pub record Filtered (W D : Type 0) : Type 0 where
  pub response : W
  pub d : D
  pub handled : Bool

abbrev pub Filter : (W D : Type 0) → Type 0
Filter W D = W → D → Filtered W D

module _ {W D : Type 0} where
  unfoldable pub cascade : List (Filter W D) → Filter W D
  cascade [] w d = record { response = w; d = d; handled = false }
  cascade (f ∷ fs) w d =
      let r = f w d in
      let later = cascade fs r.response r.d in
      if r.handled then record r { handled = true } else later

  -- `nothing` is the nil that the filter returns for its data.
  unfoldable pub end_filter : (nothing : D) → (W → W) → Filter W D
  end_filter nothing serve w d = record { response = serve w; d = nothing; handled = true }

  unfoldable pub select_filter : (D → Filter W D) → Filter W D
  select_filter sf w d = sf d w d

  -- The second filter goes on where the first has not handled the request.
  abbrev pub or_else : Filter W D → Filter W D → Filter W D
  or_else f g w d = let r = f w d in if r.handled then r else g r.response r.d

  -- A cascade of cascades is one cascade: the filters behind see what those before have left, and only
  -- where none of those has handled the request.
  pub cascade-append :
      (fs gs : List (Filter W D)) (w : W) (d : D)
      → cascade (fs ++ gs) w d ≡ or_else (cascade fs) (cascade gs) w d
  unfolding cascade
  cascade-append [] gs w d = refl
  cascade-append (f ∷ fs) gs w d = elim (Bool-cases (f w d).handled) [
    | inl h ↦ ground arith
    | inr h ↦ rw h (cascade-append fs gs (f w d).response (f w d).d)
  ]

  -- A cascade that ends in a handler handles every request, and calls the handler just where no filter
  -- before it has handled the request.
  pub cascade-end_filter :
      (fs : List (Filter W D)) (nothing : D) (serve : W → W) (w : W) (d : D)
      → ((cascade (fs ++ end_filter nothing serve ∷ []) w d).handled ≡ true)
        × ((cascade (fs ++ end_filter nothing serve ∷ []) w d).response ≡ (
            if (cascade fs w d).handled
            then (cascade fs w d).response
            else serve (cascade fs w d).response))
  cascade-end_filter fs nothing serve w d =
      rw (cascade-append fs (end_filter nothing serve ∷ []) w d)
        (unfold cascade end_filter in ground arith)
