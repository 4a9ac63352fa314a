-- ===== src/Htfile/Io/Confined.antt =====
-- What holds of a handler of htfile/htfile.go whatever the system answers.
use tasked.Base.{if◌then◌else◌, ◌≡◌, refl, Bool, true, false, Option, none, some}
use tasked.Share.Errors.{OsError}
use tasked.Htfile.Io.{
  Stat, Result, ok, fails, Call, Answer, Io, done, call, stopped, ◌>>=◌, on_error, on_result,
  on_stat, ask,
}

-- A contract for handlers: `P` of each call that is made, `Q` of the answers that the system gives, `End`
-- for a recursion that is cut off.
pub record Contract : Type 1 where
  pub P : Call → Type 0
  pub Q : (c : Call) → Answer c → Type 0
  pub End : Type 0

-- The handler keeps to the contract, as long as the answers do, and `R` holds of its result.
abbrev pub Confined : {A : Type 0} → Contract → (A → Type 0) → Io A → Type 0
Confined C R (done a) = R a
Confined C R (call c k) = C.P c × ((a : Answer c) → C.Q c a → Confined C R (k a))
Confined C R stopped = C.End

module _ (C : Contract) where
  pub Confined-bind :
      {A B : Type 0} (R : A → Type 0) (S : B → Type 0) (m : Io A) (f : A → Io B)
      → Confined C R m
      → ((a : A) → R a → Confined C S (f a))
      → Confined C S (m >>= f)
  unfolding ◌>>=◌
  Confined-bind R S (done a) f h k = k a h
  Confined-bind R S (call c g) f h k = (h.0, λ a q. Confined-bind R S (g a) f (h.1 a q) k)
  Confined-bind R S stopped f h k = h

  pub Confined-ask :
      {B : Type 0} (S : B → Type 0) (c : Call) (f : Answer c → Io B)
      → C.P c
      → ((a : Answer c) → C.Q c a → Confined C S (f a))
      → Confined C S (ask c >>= f)
  unfolding ask ◌>>=◌
  Confined-ask S c f h k = (h, k)

  pub Confined-on_error :
      {A : Type 0} (S : A → Type 0) (e : Option OsError) (f : OsError → Io A) (m : Io A)
      → ((err : OsError) → Confined C S (f err))
      → Confined C S m
      → Confined C S (on_error e f m)
  Confined-on_error S none f m h k = k
  Confined-on_error S (some e) f m h k = h e

  pub Confined-on_result :
      {A B : Type 0} (S : B → Type 0) (r : Result A) (f : OsError → Io B) (k : A → Io B)
      → ((err : OsError) → Confined C S (f err))
      → ((a : A) → r ≡ ok a → Confined C S (k a))
      → Confined C S (on_result r f k)
  Confined-on_result S (ok a) f k h t = t a refl
  Confined-on_result S (fails e) f k h t = h e

  pub Confined-on_stat :
      {A : Type 0} (S : A → Type 0) (o : Option Stat) (m : Io A) (k : Stat → Io A)
      → Confined C S m
      → ((s : Stat) → Confined C S (k s))
      → Confined C S (on_stat o m k)
  Confined-on_stat S none m k h t = h
  Confined-on_stat S (some s) m k h t = t s

  pub Confined-if :
      {A : Type 0} (S : A → Type 0) (b : Bool) (m n : Io A)
      → Confined C S m
      → Confined C S n
      → Confined C S (if b then m else n)
  Confined-if S true m n h k = h
  Confined-if S false m n h k = k

  pub Confined-test :
      {A : Type 0} (S : A → Type 0) (b : Bool) (m n : Io A)
      → (b ≡ true → Confined C S m)
      → (b ≡ false → Confined C S n)
      → Confined C S (if b then m else n)
  Confined-test S true m n h k = h refl
  Confined-test S false m n h k = k refl

  pub Confined-weaken :
      {A : Type 0} (R S : A → Type 0) (m : Io A)
      → Confined C R m
      → ((a : A) → R a → S a)
      → Confined C S m
  Confined-weaken R S (done a) h k = k a h
  Confined-weaken R S (call c f) h k = (h.0, λ a q. Confined-weaken R S (f a) (h.1 a q) k)
  Confined-weaken R S stopped h k = h
