-- ===== src/Htfile/Putting.antt =====
-- When `putf` of htfile/htfile.go answers with success.
use mathlib.Core.Path.{subst}
use tasked.Base.{
  leb, ◌==◌, Bool-cases, length, Runes, ℕ, zero, suc, ◌<◌, ◌≡◌, refl, sym, ap, ◌↔◌, ◌⊎◌, inl, inr,
  Bool, true, false, not, ◌&&◌, Option, none, some, [], ◌∷◌, arith,
}
use tasked.Share.Errors.{OsError}
use tasked.Htfile.Paths.{dir, get_path}
use tasked.Htfile.Io.{
  Written, all_written, write_fails, mkdir_all, create, write, Io, done, ◌>>=◌, ask,
}
use tasked.Htfile.Io.Run.{System, run}
use tasked.Htfile.Request.{Reply, empty, Body, Request, Handler, check, check_os}
use tasked.Htfile.Serve.{take, put_text, used_up, put_reply, put_path, putf}

-- A limit that is not positive is none.
abbrev pub Fits : ℕ → Runes → Type 0
Fits limit bytes = (limit ≡ 0) ⊎ (length bytes < limit)

take_all : (n : ℕ) (xs : Runes) → length xs < n → take n xs ≡ xs
take_all zero xs h = absurd (omega (arith, h))
take_all (suc n) [] h = refl
take_all (suc n) (x ∷ xs) h = ap (◌∷◌ x) (take_all n xs (omega (arith, h)))

used_up_iff :
    (limit : ℕ) (bytes : Runes) → (not (used_up limit (length bytes)) ≡ true) ↔ Fits limit bytes
unfolding used_up
used_up_iff zero bytes = (λ h. inl refl, λ h. refl)
used_up_iff (suc n) bytes = (λ h. inr (ground (arith, h)), fits n (length bytes))
  where
    fits : (n l : ℕ) → (suc n ≡ 0) ⊎ (l < suc n) → not (not (suc n == 0) && leb (suc n) l) ≡ true
    fits n l (inl e) = ground arith
    fits n l (inr h) = ground arith

put_text-Fits : (limit : ℕ) (bytes : Runes) → Fits limit bytes → put_text limit bytes ≡ bytes
unfolding put_text
put_text-Fits limit bytes (inl e) = rw e refl
put_text-Fits limit bytes (inr h) = elim (Bool-cases (limit == 0)) [
  | inl e ↦ rw e refl
  | inr e ↦ rw e (take_all limit bytes h)
]

module _ (S : System) where
  run-check_os :
      (e : Option OsError) (k : Io Reply) (s : S.State)
      → (run S (check_os e k) s).0 ≡ some empty
      → (e ≡ none) × ((run S k s).0 ≡ some empty)
  unfolding run
  run-check_os none k s h = (refl, h)
  run-check_os (some e) k s h = absurd (cc)

  run-check :
      (b : Bool) (status : ℕ) (k : Io Reply) (s : S.State)
      → (run S (check b status k) s).0 ≡ some empty
      → (b ≡ true) × ((run S k s).0 ≡ some empty)
  unfolding run
  run-check true status k s h = (refl, h)
  run-check false status k s h = absurd (cc)

  run-put_reply :
      (limit : ℕ) (body : Body) (w : Written) (s : S.State)
      → (run S (put_reply limit body w) s).0 ≡ some empty
      → (w ≡ all_written) × (body.broken ≡ false) × Fits limit body.bytes
  unfolding run put_reply
  run-put_reply limit body all_written s h =
      let (e, h1) = run-check (not (used_up limit (length body.bytes))) 413 _ s h in
      let (f, h2) = run-check (not body.broken) 500 _ s h1 in
      (refl, ground (arith, f), (used_up_iff limit body.bytes).0 e)
  run-put_reply limit body (write_fails n err) s h =
      let (e, h1) = run-check (not (used_up limit n)) 413 (check_os (some err) (done empty)) s h in
      absurd (cc)

  -- The system makes the directory and the file and writes these bytes, all of them.
  abbrev pub IsStored : Runes → Runes → S.State → Type 0
  IsStored p bytes s =
      let (e, t) = S.answer (mkdir_all (dir p)) s in
      let (e', u) = S.answer (create p) t in
      (e ≡ none) × (e' ≡ none) × ((S.answer (write p bytes) u).0 ≡ all_written)

  put_path-IsStored :
      (limit : ℕ) (p : Runes) (body : Body) (s : S.State)
      → (run S (put_path limit p body) s).0 ≡ some empty
      → IsStored p body.bytes s × (body.broken ≡ false) × Fits limit body.bytes
  unfolding put_path run ask ◌>>=◌
  put_path-IsStored limit p body s h =
      let t = (S.answer (mkdir_all (dir p)) s).1 in
      let u = (S.answer (create p) t).1 in
      let (e, h1) = run-check_os (S.answer (mkdir_all (dir p)) s).0 _ t h in
      let (e', h2) = run-check_os (S.answer (create p) t).0 _ u h1 in
      let (w, b, f) = run-put_reply limit body _ _ h2 in
      (
        (
          e,
          e',
          subst (λ bytes. (S.answer (write p bytes) u).0 ≡ all_written)
              (put_text-Fits limit body.bytes f) w,
        ),
        b,
        f,
      )

  check_os-run :
      (e : Option OsError) (k : Io Reply) (s : S.State)
      → e ≡ none
      → (run S k s).0 ≡ some empty
      → (run S (check_os e k) s).0 ≡ some empty
  check_os-run none k s e h = h
  check_os-run (some err) k s e h = absurd (cc)

  put_reply-run :
      (limit : ℕ) (body : Body) (w : Written) (s : S.State)
      → w ≡ all_written
      → body.broken ≡ false
      → Fits limit body.bytes
      → (run S (put_reply limit body w) s).0 ≡ some empty
  unfolding run put_reply
  put_reply-run limit body all_written s e b f = rw ((used_up_iff limit body.bytes).1 f, b) refl
  put_reply-run limit body (write_fails n err) s e b f = absurd (cc)

  stored-put_path :
      (limit : ℕ) (p : Runes) (body : Body) (s : S.State)
      → IsStored p body.bytes s
      → body.broken ≡ false
      → Fits limit body.bytes
      → (run S (put_path limit p body) s).0 ≡ some empty
  unfolding put_path put_reply run ask ◌>>=◌
  stored-put_path limit p body s (e, e', w) b f =
      let t = (S.answer (mkdir_all (dir p)) s).1 in
      let u = (S.answer (create p) t).1 in
      check_os-run (S.answer (mkdir_all (dir p)) s).0 _ t e (
        check_os-run (S.answer (create p) t).0 _ u e' (
          put_reply-run limit body _ _
            (subst (λ bytes. (S.answer (write p bytes) u).0 ≡ all_written)
              (sym (put_text-Fits limit body.bytes f)) w)
            b f))

  -- A put answers with success exactly when the directory and the file could be made, the whole body came
  -- in, all of it was written, and it is shorter than the limit, if there is one. So a body that has just
  -- the length of the limit is refused. The path is one that `getPath` gives.
  pub putf_iff :
      (h : Handler) (r : Request) (p : Runes) (s : S.State)
      → get_path h.dn r.path ≡ some p
      → ((run S (putf h r) s).0 ≡ some empty) ↔ (
          IsStored p r.body.bytes s
          × (r.body.broken ≡ false)
          × Fits h.max_request_body r.body.bytes)
  unfolding putf
  putf_iff h r p s e = (
    λ t. put_path-IsStored h.max_request_body p r.body s (rw e at t),
    λ k. rw e (stored-put_path h.max_request_body p r.body s k.0 k.1 k.2),
  )
