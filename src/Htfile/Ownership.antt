-- ===== src/Htfile/Ownership.antt =====
-- Which changes `modpropsf` of htfile/htfile.go makes.
use mathlib.Core.Path.{subst}
use tasked.Base.{
  ◌==◌, Bool-cases, Option-cases, All, Runes, codes, same_text, same_text_iff, is_empty, ℕ, ◌/◌,
  ◌%◌, ◌^◌, ◌≡◌, refl, sym, ◌⊎◌, inl, inr, true, false, ◌&&◌, Option, none, some, List, [], ◌∷◌,
  arith,
}
use tasked.Htfile.Paths.{get_path}
use tasked.Htfile.Io.{
  FileInfo, Result, ok, fails, Call, lstat, chmod, chown, current_user, Answer, Io, done, ask,
}
use tasked.Htfile.Io.Confined.{
  Contract, Confined, Confined-ask, Confined-on_stat, Confined-if, Confined-test,
}
use tasked.Htfile.Request.{
  Reply, error_response, no_int, negative, natural, Json, number, text, other, members, Request,
  Handler, replace_mode,
}
use tasked.Htfile.Properties.{is_owner}
use tasked.Base.Options.{bind-eq-some}
use tasked.Htfile.Members.{Changes, no_changes, on_number, on_text, add_member, add_members}
use tasked.Htfile.Changes.{
  look_up, or_else, change_mode, set_owner, change_owner, apply_changes, change_path, modpropsf,
}
use tasked.Htfile.Confinement.{
  IsReading, Anything, Confined-on_some, Confined-check, Confined-on_none, Confined-on_ok,
  Confined-bind-any,
}

-- A member that a change may have: a mode that is a natural number, or a text for owner or group.
abbrev pub IsChange : Runes → Json → Type 0
IsChange k v =
    ((k ≡ codes "mode") × ((n : ℕ) × (v ≡ number (natural n))))
    ⊎ (((k ≡ codes "owner") ⊎ (k ≡ codes "group")) × ((t : Runes) × (v ≡ text t)))

on_number-some :
    (v : Json) (k : ℕ → Option Changes) (c : Changes)
    → on_number v k ≡ some c
    → (n : ℕ) × (v ≡ number (natural n))
on_number-some (number (natural n)) k c h = (n, refl)
on_number-some (number no_int) k c h = absurd (cc)
on_number-some (number negative) k c h = absurd (cc)
on_number-some (text t) k c h = absurd (cc)
on_number-some other k c h = absurd (cc)

on_text-some :
    (v : Json) (k : Runes → Option Changes) (c : Changes)
    → on_text v k ≡ some c
    → (t : Runes) × (v ≡ text t)
on_text-some (text t) k c h = (t, refl)
on_text-some (number n) k c h = absurd (cc)
on_text-some other k c h = absurd (cc)

add_member-IsChange :
    (k : Runes) (v : Json) (c c' : Changes) → add_member k v c ≡ some c' → IsChange k v
unfolding add_member
add_member-IsChange k v c c' h = elim (Bool-cases (same_text k (codes "mode"))) [
  | inl e ↦ inl ((same_text_iff k (codes "mode")).0 e, on_number-some v _ c' (rw e at h))
  | inr e ↦ elim (Bool-cases (same_text k (codes "owner"))) [
    | inl f ↦
        inr (inl ((same_text_iff k (codes "owner")).0 f), on_text-some v _ c' (rw (e, f) at h))
    | inr f ↦ elim (Bool-cases (same_text k (codes "group"))) [
      | inl g ↦
          inr (inr ((same_text_iff k (codes "group")).0 g), on_text-some v _ c' (rw (e, f, g) at h))
      | inr g ↦ absurd (none_some c' (rw (e, f, g) at h))
    ]
  ]
]
  where
    none_some : (c : Changes) → ◌≡◌ {A = Option Changes} none (some c) → ⊥
    none_some c e = absurd (cc)

add_members-IsChange :
    (ms : List (Runes × Json)) (c c' : Changes)
    → add_members ms c ≡ some c'
    → All (λ m. IsChange m.0 m.1) ms
unfolding add_members
add_members-IsChange [] c c' h = tt
add_members-IsChange ((k, v) ∷ ms) c c' h =
    let (d, e, f) = bind-eq-some (add_member k v c) (λ d. add_members ms d) h in
    (add_member-IsChange k v c d e, add_members-IsChange ms d c' f)

-- A request that names anything but a mode, an owner and a group, or gives one of them a value of the wrong
-- type, or a negative mode, is refused as a bad request before any call of the system.
pub modpropsf_refused :
    (h : Handler) (r : Request) (ms : List (Runes × Json))
    → r.json ≡ members ms
    → ¬ All (λ m. IsChange m.0 m.1) ms
    → modpropsf h r ≡ done (error_response 400)
unfolding modpropsf
modpropsf_refused h r ms e bad = elim (Option-cases (add_members ms no_changes)) [
  | inl f ↦ rw (e, f) refl
  | inr (c, f) ↦ absurd (bad (add_members-IsChange ms no_changes c f))
]

replace_mode-high : (n m : ℕ) → replace_mode n m / 512 ≡ n / 512
unfolding replace_mode
replace_mode-high n m = omega arith

replace_mode-low : (n m : ℕ) → replace_mode n (m % 2 ^ 32) % 512 ≡ m % 512
unfolding replace_mode
replace_mode-low n m = omega arith

-- The calls that `modpropsf` may make for the file `fi` at the path `p` and the user's number: it reads, or
-- it changes that file. The user owns the file then, or is root.
abbrev pub IsOwn : Runes → FileInfo → ℕ → Changes → Call → Type 0
IsOwn p fi user c (chmod q m) =
    (q ≡ p)
    × (is_owner user fi ≡ true)
    × (m / 512 ≡ fi.mode / 512)
    × ((n : ℕ) × (c.mode ≡ some n) × (m % 512 ≡ n % 512))
IsOwn p fi user c (chown q uid gid) =
    (q ≡ p) × (is_owner user fi ≡ true) × ((is_empty c.owner ≡ false) ⊎ (is_empty c.group ≡ false))
IsOwn p fi user c rest = IsReading rest

abbrev pub IsFile : FileInfo → Result FileInfo → Type 0
IsFile fi (fails e) = Unit {0}
IsFile fi (ok fi') = fi' ≡ fi

-- The system answers with that file and that user.
abbrev pub IsOf : FileInfo → ℕ → (c : Call) → Answer c → Type 0
IsOf fi user (lstat p) a = IsFile fi a
IsOf fi user current_user a = (n : ℕ) → a ≡ some n → n ≡ user
IsOf fi user _ a = Unit {0}

module _ (p : Runes) (fi : FileInfo) (user : ℕ) (c : Changes) where
  abbrev pub own : Contract
  own = record { P = IsOwn p fi user c; Q = IsOf fi user; End = Unit {0} }

  module _ (owns : is_owner user fi ≡ true) where
    change_mode-IsOwn :
        (mode : Option ℕ) (k : Io Reply)
        → c.mode ≡ mode
        → Confined own Anything k
        → Confined own Anything (change_mode p fi mode k)
    unfolding change_mode
    change_mode-IsOwn none k e h = h
    change_mode-IsOwn (some n) k e h =
        let m = replace_mode fi.mode (n % 2 ^ 32) in
        Confined-if own Anything (m == fi.mode) _ _ h (
          Confined-ask own Anything (chmod p m) _
            (refl, owns, replace_mode-high fi.mode (n % 2 ^ 32), (n, e, replace_mode-low fi.mode n))
            λ err q. Confined-on_none own err 404 k h)

    set_owner-IsOwn :
        (uid gid : Option ℕ)
        → (is_empty c.owner ≡ false) ⊎ (is_empty c.group ≡ false)
        → Confined own Anything (set_owner p fi uid gid)
    unfolding set_owner
    set_owner-IsOwn uid gid h = Confined-on_stat own Anything fi.stat _ _ tt λ s.
        Confined-if own Anything (or_else uid s.uid == s.uid && or_else gid s.gid == s.gid) _ _ tt (
          Confined-ask own Anything (chown p (or_else uid s.uid) (or_else gid s.gid)) _
            (refl, owns, h) λ e q. Confined-on_none own e 404 _ tt)

    -- A number was looked up just where a name was given.
    IsGiven : Runes → Option ℕ → Type 0
    IsGiven name none = Unit
    IsGiven name (some n) = is_empty name ≡ false

    change_owner-IsOwn :
        (uid gid : Option ℕ)
        → IsGiven c.owner uid
        → IsGiven c.group gid
        → Confined own Anything (change_owner p fi uid gid)
    unfolding change_owner IsGiven
    change_owner-IsOwn none none h k = tt
    change_owner-IsOwn none (some g) h k = set_owner-IsOwn none (some g) (inr k)
    change_owner-IsOwn (some u) gid h k = set_owner-IsOwn (some u) gid (inl h)

    look_up-IsOwn :
        (name : Runes) (found : Io (Option ℕ)) (k : Option ℕ → Io Reply)
        → Confined own Anything found
        → ((n : Option ℕ) → IsGiven name n → Confined own Anything (k n))
        → Confined own Anything (look_up name found k)
    unfolding look_up IsGiven
    look_up-IsOwn name found k h t =
        Confined-test own Anything (is_empty name) _ _ (λ e. t none tt)
          λ e. Confined-bind-any own _ _ h λ r. Confined-on_some own r 404 _ λ n f. t (some n) e

    apply_changes-IsOwn : Confined own Anything (apply_changes p fi c)
    unfolding apply_changes ask
    apply_changes-IsOwn =
        look_up-IsOwn c.owner _ _ (tt, λ a q. tt)
          λ uid h.
            look_up-IsOwn c.group _ _ (tt, λ a q. tt)
              λ gid k. change_mode-IsOwn c.mode _ refl (change_owner-IsOwn uid gid h k)

  change_path-IsOwn : Confined own Anything (change_path p c)
  unfolding change_path
  change_path-IsOwn = Confined-ask own Anything (lstat p) _ tt λ r q.
      Confined-on_ok own r _ λ fi' e. Confined-ask own Anything current_user _ tt λ u s.
        Confined-on_some own u 500 _ λ n f. Confined-check own (is_owner n fi') 404 _ λ t.
          let same = subst (IsFile fi) e q in
          subst (λ v. Confined own Anything (apply_changes p v c)) (sym same)
            (apply_changes-IsOwn (rw (s n f, same) at t))

-- A change of properties asks only for changes of the one file that the path names, and only where the
-- user of the process owns it or is root: the mode changes in its 9 lowest bits alone, which are those of
-- the mode that was asked for, and the owner only where an owner or a group was given. Everything else only
-- reads. `fi` and `user` are what the system says of the file and the user.
pub modpropsf-IsOwn :
    (h : Handler) (r : Request) (ms : List (Runes × Json)) (c : Changes) (p : Runes) (fi : FileInfo)
    (user : ℕ)
    → r.json ≡ members ms
    → add_members ms no_changes ≡ some c
    → get_path h.dn r.path ≡ some p
    → Confined (own p fi user c) Anything (modpropsf h r)
unfolding modpropsf
modpropsf-IsOwn h r ms c p fi user e f g = rw (e, f, g) (change_path-IsOwn p fi user c)
