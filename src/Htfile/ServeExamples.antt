-- ===== src/Htfile/ServeExamples.antt =====
-- Requests to the file handler of htfile/htfile.go in a small system.
use tasked.Base.{
  if◌then◌else◌, Bool-cases, Runes, codes, same_text, same_text_iff, contains, split, is_empty, ℕ,
  ◌+◌, ◌<◌, ◌≡◌, refl, ◌↔◌, inl, inr, Bool, true, false, none, some, List, [], ◌∷◌, arith,
}
use tasked.Share.Errors.{errno, path_error, OsError, enoent}
use tasked.Share.Query.{filtered, expand_allowed, all_found, get_qry_values_cmd}
use tasked.Htfile.Paths.{
  pop, push, resolve, clean, up_to_slash, dir, join_path, clean_dir_path, is_under, path_intersect,
  get_path,
}
use tasked.Htfile.Paths.Cleaning.{words}
use tasked.Htfile.Io.{
  FileInfo, ok, fails, all_written, Call, lstat, open_file, readdir, read, read_head, seek, mkdir,
  mkdir_all, create, remove_all, matches, write, chmod, chown, rename, current_user, lookup_user,
  lookup_group, user_name, group_name, Answer, done, ◌>>=◌, ask,
}
use tasked.Htfile.Io.Confined.{Confined}
use tasked.Htfile.Io.Run.{System, run}
use tasked.Htfile.Files.{found_in, search_entries, search_dir, search_files}
use tasked.Htfile.Request.{
  Reply, empty, error_response, property_maps, natural, number, members, Query, Request, Libraries,
  Handler,
}
use tasked.Htfile.Properties.{found_props, get_qry_num, get_qry_expression, search_query}
use tasked.Htfile.Members.{Changes, add_member, add_members}
use tasked.Htfile.Changes.{modpropsf}
use tasked.Htfile.Handlers.{search_limit, search_path, searchf}
use tasked.Htfile.Serve.{
  put_text, used_up, put_reply, put_path, putf, no_cmd, query_no_cmd, get_cmd, get, serve_http,
}
use tasked.Htfile.Confinement.{sane, below, IsReading, Anything}
use tasked.Htfile.Confinement.Serve.{serve_http-Confined, serve_http-IsReading}
use tasked.Htfile.Termination.{AreCounted, IsFinite}
use tasked.Htfile.Termination.Search.{IsFoundAtMost, searchf_lem}
use tasked.Htfile.Termination.Serve.{serve_http_answers}
use tasked.Htfile.Putting.{Fits, IsStored, putf_iff}
use tasked.Htfile.Ownership.{IsChange, modpropsf_refused, own, modpropsf-IsOwn}

abbrev root : Runes
root = codes "/srv"

abbrev info : Runes → Bool → FileInfo
info n d = record {
  name = n;
  size = 3;
  mode = 420;
  mod_time = 0;
  is_dir = d;
  stat = some record { uid = 7; gid = 7; access_time = 0; change_time = 0 };
}

abbrev missing : OsError
missing = record { wrapper = path_error; cause = errno enoent }

-- The root holds two files; no other path is there. Every call that changes something succeeds, and is
-- kept in the state.
abbrev answer_of : (c : Call) → Answer c
answer_of (lstat p) =
    if same_text p root then ok (info (codes "srv") true) else ok (info (codes "a") false)
answer_of (open_file p) = none
answer_of (Call.stat p) =
    if same_text p root then ok (info (codes "srv") true) else ok (info (codes "a") false)
answer_of (readdir p) =
    if same_text p root
    then ok (info (codes "a") false ∷ info (codes "b") false ∷ [])
    else fails missing
answer_of (read p) = ok (codes "abc")
answer_of (read_head p) = ok (codes "abc")
answer_of (seek p) = none
answer_of (mkdir p) = none
answer_of (mkdir_all p) = none
answer_of (create p) = none
answer_of (remove_all p) = some missing
answer_of (matches p e) = true
answer_of (write p t) = all_written
answer_of (chmod p m) = none
answer_of (chown p u g) = none
answer_of (rename from to) = none
answer_of current_user = some 7
answer_of (lookup_user n) = none
answer_of (lookup_group n) = none
answer_of (user_name n) = some (codes "u")
answer_of (group_name n) = none

abbrev small : System
small = record { State = List Call; answer = λ c s. (answer_of c, c ∷ s) }

abbrev size : Runes → ℕ
size p = if same_text p root then 2 else 0

small-IsFinite : (c : Call) (t : List Call) → IsFinite size c (small.answer c t).0
small-IsFinite (readdir p) t = elim (Bool-cases (same_text p root)) [
  | inl e ↦ rw e (of_root p ((same_text_iff p root).0 e))
  | inr e ↦ rw e tt
]
  where
    of_root :
        (p : Runes)
        → p ≡ root
        → AreCounted size p (ok (info (codes "a") false ∷ info (codes "b") false ∷ []))
    of_root p e = rw e (unfold join_path clean resolve push split same_text in omega arith)
small-IsFinite (lstat p) t = tt
small-IsFinite _ t = tt

size_bounded : (p : Runes) → size p + 1 < 9
size_bounded p = ground arith

abbrev libraries : Libraries
libraries = record {
  atoi = λ n. if same_text n (codes "1") then some 1 else none;
  compiles = λ e. true;
  match_string = λ e n. same_text e n;
  types = record { by_extension = λ e. codes "text/plain; charset=utf-8"; detect = λ t. [] };
}

abbrev handler : Handler
handler = record { dn = root; max_request_body = 4; max_search_results = 5 }

abbrev query_of : Runes → Query
query_of c = record {
  cmds = if is_empty c then [] else c ∷ [];
  to = none;
  max = some (codes "1" ∷ []);
  name = [];
  content = [];
}

abbrev request : Runes → Runes → Request
request m p = record {
  method = codes "GET";
  path = p;
  qry = some (query_of m);
  json = members ((codes "mode", number (natural 384)) ∷ []);
  body = record { bytes = codes "abc"; broken = false };
}

search_lem :
    (run small (serve_http libraries 9 handler (request (codes "search") (codes "/"))) []).0
    ≡ some (property_maps (found_props (found_in root (info (codes "a") false)) ∷ []))
unfolding run serve_http no_cmd query_no_cmd get get_cmd searchf search_limit search_path
    search_files search_dir search_entries search_query get_qry_num get_qry_expression get_path
    path_intersect is_under clean_dir_path join_path dir up_to_slash clean resolve push pop split
    same_text contains get_qry_values_cmd all_found expand_allowed filtered ask ◌>>=◌ putf put_path
    put_text put_reply used_up
search_lem = refl

put_lem : run small (putf handler (request [] (codes "/c"))) [] ≡ (
  some empty,
  write (codes "/srv/c") (codes "abc") ∷ create (codes "/srv/c") ∷ mkdir_all root ∷ [],
)
unfolding run serve_http no_cmd query_no_cmd get get_cmd searchf search_limit search_path
    search_files search_dir search_entries search_query get_qry_num get_qry_expression get_path
    path_intersect is_under clean_dir_path join_path dir up_to_slash clean resolve push pop split
    same_text contains get_qry_values_cmd all_found expand_allowed filtered ask ◌>>=◌ putf put_path
    put_text put_reply used_up
put_lem = refl

abbrev search : Request
search = request (codes "search") (codes "/")

serve_http-Confined_example :
    Confined (below (words (codes "srv"))) Anything (serve_http libraries 9 handler search)
serve_http-Confined_example = serve_http-Confined libraries 9 handler (codes "srv") search refl

serve_http-IsReading_example :
    Confined (sane IsReading) Anything (serve_http libraries 9 handler search)
serve_http-IsReading_example =
    serve_http-IsReading libraries 9 handler (codes "srv") search refl
      (unfold contains same_text in refl)

serve_http_answers_example :
    (reply : Reply) × ((run small (serve_http libraries 9 handler search) []).0 ≡ some reply)
serve_http_answers_example =
    serve_http_answers small size libraries 9 handler (codes "srv") search [] refl small-IsFinite
      size_bounded

searchf_lem_example :
    (reply : Reply) × ((run small (searchf libraries 9 handler search (query_of [])) []).0
      ≡ some reply)
    × IsFoundAtMost 5 reply
searchf_lem_example =
    searchf_lem small size libraries 9 handler search (query_of []) [] small-IsFinite size_bounded

abbrev put : Request
put = request [] (codes "/c")

path_lem : get_path root (codes "/c") ≡ some (codes "/srv/c")
unfolding get_path path_intersect is_under clean_dir_path join_path clean resolve push pop split
    same_text
path_lem = refl

putf_iff_example : ((run small (putf handler put) []).0 ≡ some empty) ↔ (
    IsStored small (codes "/srv/c") (codes "abc") []
    × (put.body.broken ≡ false)
    × Fits 4 (codes "abc"))
putf_iff_example = putf_iff small handler put (codes "/srv/c") [] path_lem

abbrev mode_only : Changes
mode_only = record { mode = some 384; owner = []; group = [] }

modpropsf-IsOwn_example :
    Confined
      (own (codes "/srv/c") (info (codes "c") false) 7 mode_only)
      Anything
      (modpropsf handler put)
modpropsf-IsOwn_example =
    modpropsf-IsOwn handler put ((codes "mode", number (natural 384)) ∷ []) mode_only
      (codes "/srv/c") (info (codes "c") false) 7 refl
      (unfold add_members add_member same_text in refl) path_lem

abbrev sized : Request
sized = record put { json = members ((codes "size", number (natural 1)) ∷ []) }

size-ne-IsChange : ¬ IsChange (codes "size") (number (natural 1))
size-ne-IsChange (inl (e, f)) = absurd (ground arith)
size-ne-IsChange (inr (e, (t, f))) = absurd (cc)

modpropsf_refused_example : modpropsf handler sized ≡ done (error_response 400)
modpropsf_refused_example =
    modpropsf_refused handler sized ((codes "size", number (natural 1)) ∷ []) refl
      (λ h. size-ne-IsChange h.0)
