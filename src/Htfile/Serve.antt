-- ===== src/Htfile/Serve.antt =====
-- Putting, copying and renaming files, and `ServeHTTP` of htfile/htfile.go.
use tasked.Base.{
  leb, ◌==◌, if◌then◌else◌, length, Runes, codes, same_text, ℕ, zero, suc, Bool, true, false, not,
  ◌&&◌, ◌||◌, Option, some, List, [], ◌∷◌,
}
use tasked.Share.Errors.{OsError}
use tasked.Share.Query.{get_qry_values_cmd}
use tasked.Htfile.Paths.{dir, PathMatch, no_match, path_intersect, get_path}
use tasked.Htfile.Io.{
  Written, all_written, write_fails, mkdir_all, create, write, rename, Io, done, ◌>>=◌, ask,
}
use tasked.Htfile.Files.{copy_tree}
use tasked.Htfile.Request.{
  Reply, empty, error_response, Body, Query, Request, Libraries, Handler, check, on_some, check_os,
}
use tasked.Htfile.Changes.{modpropsf}
use tasked.Htfile.Handlers.{searchf, propsf, get_path_content, deletef, mkdirf}

abbrev pub take {ℓ} : {A : Type ℓ} → ℕ → List A → List A
take zero xs = []
take (suc n) [] = []
take (suc n) (x ∷ xs) = x ∷ take n xs

-- The bytes of the body that `MaxReader` lets through.
unfoldable pub put_text : ℕ → Runes → Runes
put_text limit bytes = if limit == 0 then bytes else take limit bytes

-- Behind the copying of the body, where so many bytes were read: whether the count is used up.
unfoldable pub used_up : (limit : ℕ) → (seen : ℕ) → Bool
used_up limit seen = not (limit == 0) && leb limit seen

-- The error of a body that breaks off is none of the system's.
unfoldable pub put_reply : ℕ → Body → Written → Io Reply
put_reply limit body all_written =
    check (not (used_up limit (length body.bytes))) 413 (check (not body.broken) 500 (done empty))
put_reply limit body (write_fails n err) =
    check (not (used_up limit n)) 413 (check_os (some err) (done empty))

unfoldable pub put_path : ℕ → Runes → Body → Io Reply
put_path limit p body = ask (mkdir_all (dir p)) >>= λ e. check_os e (
    ask (create p) >>= λ e'.
    check_os e' (ask (write p (put_text limit body.bytes)) >>= λ w. put_reply limit body w))

unfoldable pub putf : Handler → Request → Io Reply
putf h r = on_some (get_path h.dn r.path) 404 λ p. put_path h.max_request_body p r.body

abbrev pub is_no_match : PathMatch → Bool
is_no_match no_match = true
is_no_match _ = false

-- The loop of `copyRename`.
unfoldable pub copy_rename_all :
    (f : Runes → Runes → Io (Option OsError)) → Handler → Runes → List Runes → Io Reply
copy_rename_all f h from [] = done empty
copy_rename_all f h from (to ∷ tos) = on_some (get_path h.dn to) 404 λ p.
    check (is_no_match (path_intersect from p)) 400
      (f from p >>= λ e. check_os e (copy_rename_all f h from tos))

unfoldable pub copy_rename :
    (multi : Bool)
    → (f : Runes → Runes → Io (Option OsError)) → Handler
    → Request
    → Query
    → Io Reply
copy_rename multi f h r qry = on_some qry.to 400 λ tos.
    check (multi || length tos == 1) 400
      (on_some (get_path h.dn r.path) 404 λ from. copy_rename_all f h from tos)

unfoldable pub copyf : ℕ → Handler → Request → Query → Io Reply
copyf fuel = copy_rename true (copy_tree fuel)

unfoldable pub renamef : Handler → Request → Query → Io Reply
renamef = copy_rename false λ from to. ask (rename from to)

-- `CheckQryValuesCmd` behind `url.ParseQuery`, for a handler that takes the command.
abbrev pub with_cmd : Request → List Runes → (Query → Runes → Io Reply) → Io Reply
with_cmd r allowed k =
    on_some r.qry 400 λ qry. on_some (get_qry_values_cmd qry.cmds allowed) 400 λ cmd. k qry cmd

-- `noCmd` and `queryNoCmd`
unfoldable pub no_cmd : Request → Io Reply → Io Reply
no_cmd r f = with_cmd r [] λ qry cmd. f

unfoldable pub query_no_cmd : Request → (Query → Io Reply) → Io Reply
query_no_cmd r f = with_cmd r [] λ qry cmd. f qry

module _ (lib : Libraries) (fuel : ℕ) (h : Handler) (r : Request) where
  unfoldable pub get_cmd : Query → Runes → Io Reply
  get_cmd qry cmd =
      if same_text cmd (codes "props")
      then propsf h r
      else if same_text cmd (codes "search")
      then searchf lib fuel h r qry
      else get_path_content lib.types h r

  unfoldable pub get : Io Reply
  get = with_cmd r (codes "props" ∷ codes "search" ∷ []) get_cmd

  unfoldable pub post_cmd : Query → Runes → Io Reply
  post_cmd qry cmd =
      if same_text cmd (codes "modprops")
      then modpropsf h r
      else if same_text cmd (codes "delete")
      then deletef h r
      else if same_text cmd (codes "mkdir")
      then mkdirf h r
      else if same_text cmd (codes "copy")
      then copyf fuel h r qry
      else if same_text cmd (codes "rename")
      then renamef h r qry
      else putf h r

  unfoldable pub post : Io Reply
  post =
      with_cmd r
        (codes "modprops" ∷ codes "delete" ∷ codes "mkdir" ∷ codes "copy" ∷ codes "rename" ∷ [])
        post_cmd

  -- `ServeHTTP`
  unfoldable pub serve_http : Io Reply
  serve_http =
      if same_text r.method (codes "OPTIONS")
      then no_cmd r (done empty)
      else if same_text r.method (codes "HEAD")
      then get
      else if same_text r.method (codes "SEARCH")
      then query_no_cmd r (searchf lib fuel h r)
      else if same_text r.method (codes "GET")
      then get
      else if same_text r.method (codes "PROPS")
      then no_cmd r (propsf h r)
      else if same_text r.method (codes "MODPROPS")
      then no_cmd r (modpropsf h r)
      else if same_text r.method (codes "PUT")
      then no_cmd r (putf h r)
      else if same_text r.method (codes "COPY")
      then query_no_cmd r (copyf fuel h r)
      else if same_text r.method (codes "RENAME")
      then query_no_cmd r (renamef h r)
      else if same_text r.method (codes "DELETE")
      then no_cmd r (deletef h r)
      else if same_text r.method (codes "MKDIR")
      then no_cmd r (mkdirf h r)
      else if same_text r.method (codes "POST")
      then post
      else done (error_response 405)
