-- ===== src/Htfile/Confinement/Reading.antt =====
-- The calls of the handlers of htfile/htfile.go that change no files.
use tasked.Base.{
  if◌then◌else◌, Runes, codes, same_text, ℕ, ◌≡◌, Bool, true, false, Option, some, List, [], ◌∷◌,
}
use tasked.Htfile.Confinement.{
  IsCallBelow, IsReading, Anything, Confined-on_some, Confined-check_os, Confined-on_ok,
  Confined-bind-any,
}
use tasked.Htfile.Confinement.Search.{detect_content_type-Confined}
use tasked.Htfile.Files.{Types}
use tasked.Htfile.Handlers.{
  search_limit, search_path, searchf, propsf, get_dir, get_file, get_path_content,
}
use tasked.Htfile.Io.{
  FileInfo, Call, lstat, open_file, stat, readdir, read, read_head, seek, matches, current_user,
  user_name, group_name, Io,
}
use tasked.Htfile.Io.Confined.{
  Contract, Confined, Confined-ask, Confined-on_result, Confined-on_stat, Confined-if,
}
use tasked.Htfile.Paths.{get_path}
use tasked.Htfile.Paths.Below.{IsBelow}
use tasked.Htfile.Properties.{
  is_owner, to_property_map, property_map_all, get_qry_num, get_qry_expression,
}
use tasked.Htfile.Request.{Reply, Query, Request, Libraries, Handler, on_some}
use tasked.Htfile.Serve.{with_cmd, no_cmd, query_no_cmd, get_cmd, get}
use tasked.Share.Query.{get_qry_values_cmd}

module _ (ds : List Runes) (C : Contract)
    (reads : (c : Call) → IsReading c → IsCallBelow ds c → C.P c) where
  pub to_property_map-Confined :
      (fi : FileInfo) (own : Bool) → Confined C Anything (to_property_map fi own)
  unfolding to_property_map
  to_property_map-Confined fi false = tt
  to_property_map-Confined fi true = Confined-on_stat C Anything fi.stat _ _ tt λ s.
      Confined-ask C Anything (user_name s.uid) _ (reads (user_name s.uid) tt tt) λ u q.
        Confined-ask C Anything (group_name s.gid) _ (reads (group_name s.gid) tt tt) λ g q'. tt

  property_map_all-Confined :
      (u : ℕ) (fis : List FileInfo) → Confined C Anything (property_map_all u fis)
  unfolding property_map_all
  property_map_all-Confined u [] = tt
  property_map_all-Confined u (fi ∷ fis) =
      Confined-bind-any C _ _ (to_property_map-Confined fi (is_owner u fi))
        λ m. Confined-bind-any C _ _ (property_map_all-Confined u fis) λ ms. tt

  pub get_dir-Confined : (p : Runes) → IsBelow ds p → Confined C Anything (get_dir p)
  unfolding get_dir
  get_dir-Confined p h = Confined-ask C Anything (readdir p) _ (reads (readdir p) tt h) λ r q.
      Confined-on_ok C r _ λ fis e.
        Confined-ask C Anything current_user _ (reads current_user tt tt) λ u s.
          Confined-on_some C u 500 _
            λ user e'. Confined-bind-any C _ _ (property_map_all-Confined user fis) λ ms. tt

  file_calls :
      (p e : Runes)
      → IsBelow ds p
      → C.P (open_file p) × C.P (read_head p) × C.P (seek p) × C.P (matches p e)
  file_calls p e h = (
    reads (open_file p) tt h,
    reads (read_head p) tt h,
    reads (seek p) tt h,
    reads (matches p e) tt h,
  )

  pub get_file-Confined :
      (types : Types) (r : Request) (p : Runes) (fi : FileInfo)
      → IsBelow ds p
      → Confined C Anything (get_file types r p fi)
  unfolding get_file
  get_file-Confined types r p fi h =
      Confined-bind-any C _ _
        (detect_content_type-Confined C (IsBelow ds) file_calls types fi.name p h)
        λ res.
          Confined-on_result C Anything res _ _ (λ e. tt)
            λ ct e.
              Confined-if C Anything (same_text r.method (codes "HEAD")) _ _ tt
                (Confined-ask C Anything (read p) _ (reads (read p) tt h) λ t q. tt)

pub on_path :
    (h : Handler) (ds : List Runes)
    → ((p q : Runes) → get_path h.dn p ≡ some q → IsBelow ds q)
    → (C : Contract) (r : Request) (k : Runes → Io Reply)
    → ((p : Runes) → IsBelow ds p → Confined C Anything (k p))
    → Confined C Anything (on_some (get_path h.dn r.path) 404 k)
on_path h ds paths C r k t =
    Confined-on_some C (get_path h.dn r.path) 404 k λ p e. t p (paths r.path p e)

module _ (C : Contract) (r : Request) where
  pub with_cmd-Confined :
      (allowed : List Runes) (k : Query → Runes → Io Reply)
      → ((qry : Query) (cmd : Runes) → Confined C Anything (k qry cmd))
      → Confined C Anything (with_cmd r allowed k)
  with_cmd-Confined allowed k t =
      Confined-on_some C r.qry 400 _
        λ qry e. Confined-on_some C (get_qry_values_cmd qry.cmds allowed) 400 _ λ cmd e'. t qry cmd

  pub no_cmd-Confined : (f : Io Reply) → Confined C Anything f → Confined C Anything (no_cmd r f)
  unfolding no_cmd
  no_cmd-Confined f t = with_cmd-Confined [] (λ qry cmd. f) λ qry cmd. t

  pub query_no_cmd-Confined :
      (f : Query → Io Reply)
      → ((qry : Query) → Confined C Anything (f qry))
      → Confined C Anything (query_no_cmd r f)
  unfolding query_no_cmd
  query_no_cmd-Confined f t = with_cmd-Confined [] (λ qry cmd. f qry) λ qry cmd. t qry

  pub by_method :
      (m : Runes) (f k : Io Reply)
      → Confined C Anything f
      → Confined C Anything k
      → Confined C Anything (if same_text r.method m then f else k)
  by_method m f k t u = Confined-if C Anything (same_text r.method m) f k t u

module _ (lib : Libraries) (fuel : ℕ) (h : Handler) (ds : List Runes)
    (paths : (p q : Runes) → get_path h.dn p ≡ some q → IsBelow ds q) (C : Contract)
    (reads : (c : Call) → IsReading c → IsCallBelow ds c → C.P c) (r : Request)
    (searches : (p : Runes) (max : ℕ) (rxn rxc : Option Runes)
      → IsBelow ds p
      → Confined C Anything (search_path lib fuel p max rxn rxc)) where
  pub searchf-Confined : (qry : Query) → Confined C Anything (searchf lib fuel h r qry)
  unfolding searchf
  searchf-Confined qry = on_path h ds paths C r _ λ p b.
      Confined-on_some C (get_qry_num lib qry.max) 400 _ λ max e.
        Confined-on_some C (get_qry_expression lib qry.name) 400 _ λ rxn e'.
          Confined-on_some C (get_qry_expression lib qry.content) 400 _
            λ rxc e''. searches p (search_limit h.max_search_results max) rxn rxc b

  pub propsf-Confined : Confined C Anything (propsf h r)
  unfolding propsf
  propsf-Confined = on_path h ds paths C r _ λ p b.
      Confined-ask C Anything (lstat p) _ (reads (lstat p) tt b) λ res q.
        Confined-on_ok C res _ λ fi e.
          Confined-ask C Anything current_user _ (reads current_user tt tt) λ u s.
            Confined-on_some C u 500 _ λ user e'.
              Confined-bind-any C _ _ (to_property_map-Confined ds C reads fi (is_owner user fi))
                λ m. tt

  get_path_content-Confined : Confined C Anything (get_path_content lib.types h r)
  unfolding get_path_content
  get_path_content-Confined = on_path h ds paths C r _ λ p b.
      Confined-ask C Anything (open_file p) _ (reads (open_file p) tt b) λ e q.
        Confined-check_os C e _ (
          Confined-ask C Anything (stat p) _ (reads (stat p) tt b) λ res s.
            Confined-on_ok C res _ λ fi e'.
              Confined-if C Anything fi.is_dir _ _ (get_dir-Confined ds C reads p b)
                (get_file-Confined ds C reads lib.types r p fi b))

  pub get-Confined : Confined C Anything (get lib fuel h r)
  unfolding get get_cmd
  get-Confined =
      with_cmd-Confined C r (codes "props" ∷ codes "search" ∷ []) (get_cmd lib fuel h r) λ qry cmd.
        Confined-if C Anything (same_text cmd (codes "props")) _ _ propsf-Confined (
          Confined-if C Anything (same_text cmd (codes "search")) _ _ (searchf-Confined qry)
            get_path_content-Confined)
