-- ===== src/Htfile/Confinement/Handlers.antt =====
-- The calls of the handlers of htfile/htfile.go that change files.
use tasked.Base.{
  ◌==◌, length, All, Runes, is_empty, ℕ, ◌%◌, ◌^◌, ◌≡◌, ap, ◌⊎◌, inl, inr, Bool, not, ◌&&◌, ◌||◌,
  Option, none, some, List, [], ◌∷◌,
}
use tasked.Share.Errors.{OsError}
use tasked.Htfile.Paths.{rooted_text, dir, path_intersect, get_path}
use tasked.Htfile.Paths.Cleaning.{IsProper}
use tasked.Htfile.Paths.Below.{IsBelow, dir-IsBelow}
use tasked.Htfile.Io.{
  FileInfo, Written, all_written, write_fails, Call, lstat, mkdir_all, create, write, chmod, chown,
  current_user, lookup_user, lookup_group, Io, done, ask,
}
use tasked.Htfile.Io.Confined.{Contract, Confined, Confined-ask, Confined-on_stat, Confined-if}
use tasked.Htfile.Members.{Changes}
use tasked.Htfile.Request.{Reply, empty, Body, Query, Request, Handler, replace_mode, check_os}
use tasked.Htfile.Properties.{is_owner}
use tasked.Htfile.Changes.{
  look_up, or_else, change_mode, set_owner, change_owner, apply_changes, change_path,
}
use tasked.Htfile.Serve.{
  put_text, used_up, put_reply, put_path, is_no_match, copy_rename_all, copy_rename,
}
use tasked.Htfile.Confinement.{
  IsCallBelow, Anything, Confined-on_some, Confined-check, Confined-check_os, Confined-on_none,
  Confined-on_ok, Confined-bind-any,
}

module _ (ds : List Runes) (C : Contract) (calls : (c : Call) → IsCallBelow ds c → C.P c) where
  change_mode-Confined :
      (p : Runes) (fi : FileInfo) (mode : Option ℕ) (k : Io Reply)
      → IsBelow ds p
      → Confined C Anything k
      → Confined C Anything (change_mode p fi mode k)
  unfolding change_mode
  change_mode-Confined p fi none k h t = t
  change_mode-Confined p fi (some mode) k h t =
      let rmode = replace_mode fi.mode (mode % 2 ^ 32) in
      Confined-if C Anything (rmode == fi.mode) _ _ t (
        Confined-ask C Anything (chmod p rmode) _ (calls (chmod p rmode) h)
          λ e q. Confined-on_none C e 404 k t)

  look_up-Confined :
      (name : Runes) (found : Io (Option ℕ)) (k : Option ℕ → Io Reply)
      → Confined C Anything found
      → ((n : Option ℕ) → Confined C Anything (k n))
      → Confined C Anything (look_up name found k)
  unfolding look_up
  look_up-Confined name found k h t =
      Confined-if C Anything (is_empty name) _ _ (t none)
        (Confined-bind-any C _ _ h λ r. Confined-on_some C r 404 _ λ n e. t (some n))

  set_owner-Confined :
      (p : Runes) (fi : FileInfo) (uid gid : Option ℕ)
      → IsBelow ds p
      → Confined C Anything (set_owner p fi uid gid)
  unfolding set_owner
  set_owner-Confined p fi uid gid h = Confined-on_stat C Anything fi.stat _ _ tt λ s.
      Confined-if C Anything (or_else uid s.uid == s.uid && or_else gid s.gid == s.gid) _ _ tt (
        Confined-ask C Anything (chown p (or_else uid s.uid) (or_else gid s.gid)) _
          (calls (chown p (or_else uid s.uid) (or_else gid s.gid)) h)
          λ e q. Confined-on_none C e 404 _ tt)

  change_owner-Confined :
      (p : Runes) (fi : FileInfo) (uid gid : Option ℕ)
      → IsBelow ds p
      → Confined C Anything (change_owner p fi uid gid)
  unfolding change_owner
  change_owner-Confined p fi none none h = tt
  change_owner-Confined p fi none (some g) h = set_owner-Confined p fi none (some g) h
  change_owner-Confined p fi (some u) gid h = set_owner-Confined p fi (some u) gid h

  apply_changes-Confined :
      (p : Runes) (fi : FileInfo) (c : Changes)
      → IsBelow ds p
      → Confined C Anything (apply_changes p fi c)
  unfolding apply_changes ask
  apply_changes-Confined p fi c h =
      look_up-Confined c.owner _ _ (calls (lookup_user c.owner) tt, λ a q. tt)
        λ uid.
          look_up-Confined c.group _ _ (calls (lookup_group c.group) tt, λ a q. tt)
            λ gid. change_mode-Confined p fi c.mode _ h (change_owner-Confined p fi uid gid h)

  pub change_path-Confined :
      (p : Runes) (c : Changes) → IsBelow ds p → Confined C Anything (change_path p c)
  unfolding change_path
  change_path-Confined p c h = Confined-ask C Anything (lstat p) _ (calls (lstat p) h) λ r q.
      Confined-on_ok C r _ λ fi e.
        Confined-ask C Anything current_user _ (calls current_user tt) λ u s.
          Confined-on_some C u 500 _ λ user e'.
            Confined-check C (is_owner user fi) 404 _ λ t. apply_changes-Confined p fi c h

  put_reply-Confined :
      (limit : ℕ) (body : Body) (w : Written) → Confined C Anything (put_reply limit body w)
  unfolding put_reply
  put_reply-Confined limit body all_written =
      Confined-check C (not (used_up limit (length body.bytes))) 413 _
        λ e. Confined-check C (not body.broken) 500 _ λ e'. tt
  put_reply-Confined limit body (write_fails n err) =
      Confined-check C (not (used_up limit n)) 413 (check_os (some err) (done empty)) λ e. tt

  module _ (proper : All IsProper ds) where
    pub put_path-Confined :
        (limit : ℕ) (p : Runes) (body : Body)
        → IsBelow ds p
        → Confined C Anything (put_path limit p body)
    unfolding put_path
    put_path-Confined limit p body h =
        Confined-ask C Anything (mkdir_all (dir p)) _ (calls (mkdir_all (dir p)) dir_below) λ e q.
          Confined-check_os C e _ (
            Confined-ask C Anything (create p) _ (calls (create p) h) λ e' q'.
              Confined-check_os C e' _ (
                Confined-ask C Anything (write p (put_text limit body.bytes)) _
                  (calls (write p (put_text limit body.bytes)) h)
                  λ w s. put_reply-Confined limit body w))
      where
        dir_below : IsBelow ds (dir p) ⊎ (dir p ≡ dir (rooted_text ds))
        dir_below = elim (dir-IsBelow ds p proper h) [ inl b ↦ inl b | inr e ↦ inr (ap dir e) ]

    module _ (f : Runes → Runes → Io (Option OsError))
        (asks : (from to : Runes)
          → IsBelow ds from
          → IsBelow ds to
          → Confined C Anything (f from to))
        (h : Handler) (paths : (p q : Runes) → get_path h.dn p ≡ some q → IsBelow ds q) where
      copy_rename_all-Confined :
          (from : Runes) (tos : List Runes)
          → IsBelow ds from
          → Confined C Anything (copy_rename_all f h from tos)
      unfolding copy_rename_all
      copy_rename_all-Confined from [] k = tt
      copy_rename_all-Confined from (to ∷ tos) k =
          Confined-on_some C (get_path h.dn to) 404 _ λ p e.
            Confined-check C (is_no_match (path_intersect from p)) 400 _ λ t.
              Confined-bind-any C _ _ (asks from p k (paths to p e))
                λ err. Confined-check_os C err _ (copy_rename_all-Confined from tos k)

      pub copy_rename-Confined :
          (multi : Bool) (r : Request) (qry : Query)
          → Confined C Anything (copy_rename multi f h r qry)
      unfolding copy_rename
      copy_rename-Confined multi r qry = Confined-on_some C qry.to 400 _ λ tos e.
          Confined-check C (multi || length tos == 1) 400 _ λ t.
            Confined-on_some C (get_path h.dn r.path) 404 _
              λ from e'. copy_rename_all-Confined from tos (paths r.path from e')
