-- ===== src/Htfile/Io/Run.antt =====
-- A run of a handler of htfile/htfile.go in a system with a state.
use tasked.Base.{Option, none, some}
use tasked.Htfile.Io.{Call, Answer, Io, done, call, stopped}

pub record System : Type 1 where
  pub State : Type 0
  pub answer : (c : Call) → State → Answer c × State

module _ (S : System) where
  unfoldable pub run : {A : Type 0} → Io A → S.State → Option A × S.State
  run (done a) s = (some a, s)
  run (call c k) s = let (a, s') = S.answer c s in run (k a) s'
  run stopped s = (none, s)
