-- ===== src/Htfile/Changes.antt =====
-- `modpropsf` of htfile/htfile.go: new properties of a file.
use tasked.Base.{◌==◌, if◌then◌else◌, Runes, is_empty, ℕ, ◌%◌, ◌^◌, ◌&&◌, Option, none, some, List}
use tasked.Htfile.Paths.{get_path}
use tasked.Htfile.Io.{
  FileInfo, lstat, chmod, chown, current_user, lookup_user, lookup_group, Io, done, ◌>>=◌, on_stat,
  ask,
}
use tasked.Htfile.Members.{Changes, no_changes, add_members}
use tasked.Htfile.Request.{
  Reply, empty, error_response, Json, JsonBody, too_large, invalid, members, Request, Handler,
  replace_mode, check, on_some, on_none, on_ok,
}
use tasked.Htfile.Properties.{is_owner}

-- The number of the user or the group of a name, if one is given; one that is not known is not found.
unfoldable pub look_up : Runes → Io (Option ℕ) → (Option ℕ → Io Reply) → Io Reply
look_up name found k =
    if is_empty name then k none else found >>= λ r. on_some r 404 λ n. k (some n)

abbrev pub or_else : Option ℕ → ℕ → ℕ
or_else none d = d
or_else (some n) d = n

unfoldable pub change_mode : Runes → FileInfo → Option ℕ → Io Reply → Io Reply
change_mode p fi none k = k
change_mode p fi (some mode) k =
    let rmode = replace_mode fi.mode (mode % 2 ^ 32) in
    if rmode == fi.mode then k else ask (chmod p rmode) >>= λ e. on_none e 404 k

-- The owner and the group, where one of them was given; what was not given stays as it is.
unfoldable pub set_owner : Runes → FileInfo → Option ℕ → Option ℕ → Io Reply
set_owner p fi uid gid = on_stat fi.stat (done (error_response 404)) λ s.
    let u = or_else uid s.uid in
    let g = or_else gid s.gid in
    if u == s.uid && g == s.gid
    then done empty
    else ask (chown p u g) >>= λ e. on_none e 404 (done empty)

unfoldable pub change_owner : Runes → FileInfo → Option ℕ → Option ℕ → Io Reply
change_owner p fi none none = done empty
change_owner p fi uid gid = set_owner p fi uid gid

-- What `modpropsf` does when it has the changes, and the file is the user's own.
unfoldable pub apply_changes : Runes → FileInfo → Changes → Io Reply
apply_changes p fi c = look_up c.owner (ask (lookup_user c.owner)) λ uid.
    look_up c.group (ask (lookup_group c.group))
      λ gid. change_mode p fi c.mode (change_owner p fi uid gid)

unfoldable pub change_path : Runes → Changes → Io Reply
change_path p c = ask (lstat p) >>= λ r. on_ok r λ fi. ask current_user >>= λ u.
    on_some u 500 λ user. check (is_owner user fi) 404 (apply_changes p fi c)

-- The checks behind `ReadJsonRequest`.
abbrev pub on_json : JsonBody → (List (Runes × Json) → Io Reply) → Io Reply
on_json too_large k = done (error_response 413)
on_json invalid k = done (error_response 400)
on_json (members ms) k = k ms

unfoldable pub modpropsf : Handler → Request → Io Reply
modpropsf h r = on_json r.json λ ms.
    on_some (add_members ms no_changes) 400
      λ c. on_some (get_path h.dn r.path) 404 λ p. change_path p c
