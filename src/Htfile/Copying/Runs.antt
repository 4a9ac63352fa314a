-- ===== src/Htfile/Copying/Runs.antt =====
-- Runs on a disk of the calls with which `copyTree` of htfile/htfile.go copies.
use mathlib.Core.Path.{fun_ext}
use tasked.Base.{if◌then◌else◌, Runes, ℕ, ◌≡◌, refl, ap, ◌∙◌, Bool, true, false, Option, none, some}
use tasked.Share.Errors.{OsError}
use tasked.Htfile.Io.{
  Call, mkdir, create, write, chmod, Answer, Io, done, call, stopped, ◌>>=◌, ask,
}
use tasked.Htfile.Io.Run.{System, run}
use tasked.Htfile.Files.{or_error, write_error}
use tasked.Htfile.Paths.{dir}
use tasked.Htfile.Copying.{
  Node, file_node, dir_node, with_mode, with_text, at, on_node, first, IsDirAt, IsNoDir, emptied,
  Disk,
}

-- The nodes that `g` has, and else those that were there.
abbrev pub overlay : (Runes → Option Node) → (Runes → Option Node) → Runes → Option Node
overlay g nodes p = first (g p) (nodes p)

pub first_assoc : (a b c : Option Node) → first a (first b c) ≡ first (first a b) c
first_assoc none b c = refl
first_assoc (some n) b c = refl

module _ (S : System) (D : Disk S) where
  pub run-bind :
      {A B : Type 0} (m : Io A) (f : A → Io B) (s t : S.State) (a : A)
      → run S m s ≡ (some a, t)
      → run S (m >>= f) s ≡ run S (f a) t
  unfolding run ◌>>=◌
  run-bind (done b) f s t a h = cc
  run-bind (call c k) f s t a h = run-bind (k (S.answer c s).0) f (S.answer c s).1 t a h
  run-bind stopped f s t a h = absurd (cc)

  -- From this state, the tree of calls ends without an error, and changes the disk in this way.
  abbrev pub Does :
      S.State → ((Runes → Option Node) → Runes → Option Node) → Io (Option OsError) → Type 0
  Does s T m = (t : S.State) × (run S m s ≡ (some none, t)) × (D.nodes t ≡ T (D.nodes s))

  pub Does-seq :
      (s : S.State) (T U : (Runes → Option Node) → Runes → Option Node) (m k : Io (Option OsError))
      → Does s T m
      → ((t : S.State) → D.nodes t ≡ T (D.nodes s) → Does t U k)
      → Does s (λ n. U (T n)) (m >>= λ e. or_error e k)
  Does-seq s T U m k (t, e, f) i =
      let (u, e', f') = i t f in (u, run-bind m (λ e. or_error e k) s t none e ∙ e', f' ∙ ap U f)

  -- A call that only reads, and the answer.
  pub Does-read :
      (s : S.State) (T : (Runes → Option Node) → Runes → Option Node) (c : Call) (a : Answer c)
      (k : Answer c → Io (Option OsError))
      → ((s : S.State) → (S.answer c s).0 ≡ a)
      → D.nodes (S.answer c s).1 ≡ D.nodes s
      → ((t : S.State) → D.nodes t ≡ D.nodes s → Does t T (k a))
      → Does s T (ask c >>= k)
  unfolding run ◌>>=◌ ask
  Does-read s T c a k h i j =
      let (t, e, f) = j (S.answer c s).1 i in
      (t, ap (λ b. run S (k b) (S.answer c s).1) (h s) ∙ e, f ∙ ap T i)

  answered_none :
      {t : S.State} (o : Option OsError)
      → o ≡ none
      → ◌≡◌ {A = Option (Option OsError) × S.State} (some o, t) (some none, t)
  answered_none {t = t} o h = ap (λ e. (some e, t)) h

  pub Does-mkdir :
      (s : S.State) (p : Runes)
      → IsDirAt (D.nodes s) (dir p)
      → D.nodes s p ≡ none
      → Does s (at p (λ n. some (dir_node D.dir_mode))) (ask (mkdir p))
  unfolding run ◌>>=◌ ask
  Does-mkdir s p d n =
      let (e, f) = D.makes s p d n in ((S.answer (mkdir p) s).1, answered_none _ e, fun_ext f)

  pub Does-create :
      (s : S.State) (p : Runes)
      → IsDirAt (D.nodes s) (dir p)
      → IsNoDir (D.nodes s p)
      → Does s (at p (emptied D.file_mode)) (ask (create p))
  unfolding run ◌>>=◌ ask
  Does-create s p d n =
      let (e, f) = D.creates s p d n in ((S.answer (create p) s).1, answered_none _ e, fun_ext f)

  pub Does-chmod :
      (s : S.State) (p : Runes) (m : ℕ) (n : Node)
      → D.nodes s p ≡ some n
      → Does s (at p (on_node (with_mode m))) (ask (chmod p m))
  unfolding run ◌>>=◌ ask
  Does-chmod s p m n h =
      let (e, f) = D.changes s p m n h in ((S.answer (chmod p m) s).1, answered_none _ e, fun_ext f)

  pub Does-write :
      (s : S.State) (p text : Runes) (m : ℕ) (old : Runes)
      → D.nodes s p ≡ some (file_node m old)
      → Does s (at p (on_node (with_text text))) (ask (write p text) >>= λ w. done (write_error w))
  unfolding run ◌>>=◌ ask
  Does-write s p text m old h =
      let (e, f) = D.writes s p text m old h in
      (
        (S.answer (write p text) s).1,
        ap (λ w. (some (write_error w), (S.answer (write p text) s).1)) e,
        fun_ext f,
      )

  pub Does-else :
      (s : S.State) (T : (Runes → Option Node) → Runes → Option Node) (b : Bool)
      (m k : Io (Option OsError))
      → b ≡ false
      → Does s T k
      → Does s T (if b then m else k)
  Does-else s T true m k h j = absurd (cc)
  Does-else s T false m k h j = j

  pub Does-then :
      (s : S.State) (T : (Runes → Option Node) → Runes → Option Node) (b : Bool)
      (m k : Io (Option OsError))
      → b ≡ true
      → Does s T m
      → Does s T (if b then m else k)
  Does-then s T true m k h j = j
  Does-then s T false m k h j = absurd (cc)
