-- ===== src/Htfile/CopyExamples.antt =====
-- A request to copy, of htfile/htfile.go, at a concrete disk.
use tasked.Base.{
  if◌then◌else◌, Runes, codes, same_text, ℕ, ◌≡◌, refl, Bool, true, false, Option, none, some, [],
  ◌∷◌,
}
use tasked.Share.Errors.{OsError, errno, enoent, path_error}
use tasked.Htfile.Paths.{up_to_slash, up_to_slash, dir}
use tasked.Htfile.Io.{
  FileInfo, ok, fails, Written, all_written, write_fails, Call, lstat, open_file, readdir, read,
  read_head, seek, mkdir, mkdir_all, create, remove_all, matches, write, chmod, chown, rename,
  current_user, lookup_user, lookup_group, user_name, group_name, Answer,
}
use tasked.Htfile.Io.Run.{System}
use tasked.Htfile.Request.{invalid, Query, Request, Handler}
use tasked.Htfile.Copying.{
  Tree, file, folder, nil, grow, Node, file_node, dir_node, with_mode, with_text, at, on_node,
  IsNoDir, emptied, Disk,
}

abbrev info_of : Runes → Bool → FileInfo
info_of n d = record { name = n; size = 2; mode = 420; mod_time = 0; is_dir = d; stat = none }

-- A directory with a file in it.
abbrev tree : Tree
tree = folder (info_of (codes "a") true) (grow (file (info_of (codes "f") false) (codes "hi")) nil)

abbrev source : Runes
source = codes "/srv/a"

abbrev missing : OsError
missing = record { wrapper = path_error; cause = errno enoent }

abbrev Nodes : Type 0
Nodes = Runes → Option Node

-- The calls that copy, by what is at the directory of the path and at the path.
abbrev make : (above here : Option Node) → Runes → Nodes → Option OsError × Nodes
make (some (dir_node m)) none p s = (none, at p (λ n. some (dir_node 493)) s)
make _ _ p s = (some missing, s)

abbrev create_at : (above here : Option Node) → Runes → Nodes → Option OsError × Nodes
create_at (some (dir_node m)) none p s = (none, at p (emptied 438) s)
create_at (some (dir_node m)) (some (file_node k t)) p s = (none, at p (emptied 438) s)
create_at _ _ p s = (some missing, s)

abbrev write_at : (here : Option Node) → (p t : Runes) → Nodes → Written × Nodes
write_at (some (file_node m old)) p t s = (all_written, at p (on_node (with_text t)) s)
write_at _ p t s = (write_fails 0 missing, s)

abbrev change_at : (here : Option Node) → Runes → ℕ → Nodes → Option OsError × Nodes
change_at (some n) p m s = (none, at p (on_node (with_mode m)) s)
change_at none p m s = (some missing, s)

-- The tree is at the source, whatever was done; the state is what the copies have left at each path.
abbrev respond : (c : Call) → (Runes → Option Node) → Answer c × (Runes → Option Node)
respond (lstat p) s = (
  if same_text p source then ok (info_of (codes "a") true) else ok (info_of (codes "f") false),
  s,
)
respond (open_file p) s = (none, s)
respond (readdir p) s = (ok (info_of (codes "f") false ∷ []), s)
respond (read p) s = (ok (codes "hi"), s)
respond (mkdir p) s = make (s (dir p)) (s p) p s
respond (create p) s = create_at (s (dir p)) (s p) p s
respond (write p t) s = write_at (s p) p t s
respond (chmod p m) s = change_at (s p) p m s
respond (Call.stat p) s = (fails missing, s)
respond (read_head p) s = (fails missing, s)
respond (seek p) s = (some missing, s)
respond (mkdir_all p) s = (some missing, s)
respond (remove_all p) s = (some missing, s)
respond (matches p expr) s = (false, s)
respond (chown p uid gid) s = (some missing, s)
respond (rename from to) s = (some missing, s)
respond current_user s = (none, s)
respond (lookup_user n) s = (none, s)
respond (lookup_group n) s = (none, s)
respond (user_name n) s = (none, s)
respond (group_name n) s = (none, s)

abbrev machine : System
machine = record { State = Runes → Option Node; answer = respond }

creates_lem :
    (s : Nodes) (p : Runes) (here : Option Node) (m : ℕ)
    → IsNoDir here
    → ((create_at (some (dir_node m)) here p s).0 ≡ none)
      × ((q : Runes) → (create_at (some (dir_node m)) here p s).1 q ≡ at p (emptied 438) s q)
creates_lem s p none m h = (refl, λ q. refl)
creates_lem s p (some (file_node k t)) m h = (refl, λ q. refl)
creates_lem s p (some (dir_node k)) m h = absurd h

abbrev disk : Disk machine
disk = record {
  nodes = λ s. s;
  dir_mode = 493;
  file_mode = 438;
  reads = λ s p. (refl, refl, refl, refl);
  makes = λ s p (m, e) f. (rw (e, f) refl, λ q. rw (e, f) refl);
  creates = λ s p (m, e) f. rw e (creates_lem s p (s p) m f);
  writes = λ s p t m old e. (rw e refl, λ q. rw e refl);
  changes = λ s p m n e. (rw e refl, λ q. rw e refl);
}

abbrev copying : Query
copying = record {
  cmds = codes "copy" ∷ [];
  to = some (codes "/b" ∷ []);
  max = none;
  name = [];
  content = [];
}

abbrev files : Handler
files = record { dn = codes "/srv"; max_request_body = 4; max_search_results = 5 }

abbrev copy_request : Request
copy_request = record {
  method = codes "POST";
  path = codes "/a";
  qry = some copying;
  json = invalid;
  body = record { bytes = []; broken = false };
}

abbrev target : Runes
target = codes "/srv/b"

-- There is only the root.
abbrev root_only : Nodes
root_only p = if same_text p (codes "/srv") then some (dir_node 493) else none
