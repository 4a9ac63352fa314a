-- ===== src/Htfile/Files.antt =====
-- Searching and copying files: `searchFiles`, `detectContentType` and `copyTree` of htfile/htfile.go. A
-- closed file and the log of its errors are left out. Fuel bounds the depth of a recursion.
use tasked.Base.{
  ◌==◌, if◌then◌else◌, Runes, same_text, is_empty, ℕ, zero, suc, ◌-◌, Bool, not, ◌&&◌, Option, none,
  some, List, [], ◌∷◌, ◌++◌,
}
use tasked.Share.Errors.{OsError}
use tasked.Htfile.Paths.{join_path}
use tasked.Htfile.Io.{
  FileInfo, Result, ok, fails, Written, all_written, write_fails, lstat, open_file, readdir, read,
  read_head, seek, mkdir, create, write, chmod, Io, done, stopped, ◌>>=◌, on_error, on_result, ask,
}

-- `fileInfo`, with the directory.
pub record Found : Type 0 where
  pub sys : FileInfo
  pub dirname : Runes

abbrev pub path_of : Found → Runes
path_of fi = join_path fi.dirname fi.sys.name

abbrev pub found_in : Runes → FileInfo → Found
found_in p fi = record { sys = fi; dirname = p }

-- The loop over the entries of directory `p`: what was found, the directories to search, and how many more
-- files may be found.
unfoldable pub search_entries :
    (query : Found → Io Bool)
    → Runes
    → List FileInfo
    → List Found
    → ℕ
    → Io (List Found × List Found × ℕ)
search_entries query p [] dirs max = done ([], dirs, max)
search_entries query p (fi ∷ fis) dirs max =
    let fii = found_in p fi in
    let dirs' = if fi.is_dir then dirs ++ fii ∷ [] else dirs in
    query fii >>= λ hit.
    if hit
    then (if max == 1
        then done (fii ∷ [], dirs, 0)
        else search_entries query p fis dirs' (max - 1) >>= λ (res, ds, m). done (fii ∷ res, ds, m))
    else search_entries query p fis dirs' max

-- The function that `searchFiles` calls at once, for the directory `di`, with `dirs` behind it.
unfoldable pub search_dir :
    (query : Found → Io Bool) → Found → List Found → ℕ → Io (List Found × List Found × ℕ)
unfolding search_entries
search_dir query di dirs max =
    let p = path_of di in
    ask (open_file p) >>= λ e.
    on_error e (λ err. done ([], dirs, max))
      (ask (readdir p) >>= λ r.
        on_result r (λ err. done ([], dirs, max)) λ fis. search_entries query p fis dirs max)

unfoldable pub search_files :
    (fuel : ℕ) → (query : Found → Io Bool) → List Found → ℕ → Io (List Found)
search_files zero query dirs max = stopped
search_files (suc fuel) query [] max = done []
search_files (suc fuel) query (di ∷ dirs) max =
    if max == 0
    then done []
    else (search_dir query di dirs max >>= λ (res, ds, m).
        search_files fuel query ds m >>= λ more. done (res ++ more))

-- The error of a step, or the next step.
abbrev pub or_error : Option OsError → Io (Option OsError) → Io (Option OsError)
or_error e k = on_error e (λ err. done (some err)) k

-- The loop of `copyTree` over the entries of a directory; `recur` is the recursive call.
unfoldable pub copy_entries :
    (recur : Runes → Runes → Io (Option OsError))
    → Runes
    → Runes
    → List FileInfo
    → Io (Option OsError)
copy_entries recur from to [] = done none
copy_entries recur from to (fi ∷ fis) =
    recur (join_path from fi.name) (join_path to fi.name) >>= λ e.
    or_error e (copy_entries recur from to fis)

unfoldable pub copy_dir :
    (recur : Runes → Runes → Io (Option OsError)) → Runes → Runes → Io (Option OsError)
copy_dir recur from to = ask (mkdir to) >>= λ e. or_error e (
    ask (readdir from) >>= λ r.
    on_result r (λ err. done (some err)) λ fis. copy_entries recur from to fis)

abbrev pub write_error : Written → Option OsError
write_error all_written = none
write_error (write_fails n err) = some err

unfoldable pub copy_file : Runes → Runes → Io (Option OsError)
copy_file from to = ask (create to) >>= λ e. or_error e (
    ask (read from) >>= λ r.
    on_result r (λ err. done (some err)) λ text. ask (write to text) >>= λ w. done (write_error w))

unfoldable pub copy_tree : (fuel : ℕ) → Runes → Runes → Io (Option OsError)
copy_tree zero from to = stopped
copy_tree (suc fuel) from to =
    if same_text from to
    then done none
    else (ask (lstat from) >>= λ r.
        on_result r (λ err. done (some err))
          λ fi. ask (open_file from) >>= λ e. or_error e (
            (if fi.is_dir then copy_dir (copy_tree fuel) from to else copy_file from to) >>= λ e'.
            or_error e' (ask (chmod to fi.mode))))

-- `mime.TypeByExtension` and `http.DetectContentType`.
pub record Types : Type 0 where
  pub by_extension : Runes → Runes
  pub detect : Runes → Runes

-- The extension of a name: what stands behind its last dot, with the dot.
unfoldable pub ext : Runes → Runes
ext [] = []
ext (c ∷ cs) = let rest = ext cs in if is_empty rest && c == b'.' then c ∷ cs else rest

unfoldable pub detect_content_type : Types → Runes → Runes → Io (Result Runes)
detect_content_type types name p =
    let ct = types.by_extension (ext name) in
    if not (is_empty ct)
    then done (ok ct)
    else (ask (read_head p) >>= λ r.
        on_result r (λ err. done (fails err))
          λ head. ask (seek p) >>= λ e.
            on_error e (λ err. done (fails err)) (done (ok (types.detect head))))
