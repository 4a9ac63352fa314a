-- ===== src/Htfile/Confinement/Serve.antt =====
-- The calls of `ServeHTTP`, of htfile/htfile.go.
use mathlib.Core.Path.{subst}
use tasked.Base.{
  All, Runes, codes, same_text, contains, ℕ, ◌≡◌, ◌≢◌, inl, true, false, Option, some, List, [],
  ◌∷◌, arith,
}
use tasked.Share.Errors.{is_not_exist}
use tasked.Htfile.Paths.{get_path}
use tasked.Htfile.Paths.Cleaning.{IsProper, words, words-IsProper}
use tasked.Htfile.Paths.Below.{IsBelow, get_path-IsBelow, join_path-IsBelow}
use tasked.Htfile.Io.{Call, mkdir_all, remove_all, rename, ask}
use tasked.Htfile.Io.Confined.{
  Contract, Confined, Confined-ask, Confined-on_error, Confined-if, Confined-test,
}
use tasked.Htfile.Files.{copy_tree}
use tasked.Htfile.Members.{no_changes, add_members}
use tasked.Htfile.Request.{
  JsonBody, too_large, invalid, members, Query, Request, Libraries, Handler, on_some,
}
use tasked.Htfile.Changes.{change_path, on_json, modpropsf}
use tasked.Htfile.Handlers.{search_path, deletef, mkdirf}
use tasked.Htfile.Serve.{putf, copyf, renamef, post_cmd, post, serve_http}
use tasked.Htfile.Confinement.{
  IsCallBelow, sane, below, IsReading, Anything, Confined-on_some, Confined-check_os,
}
use tasked.Htfile.Confinement.Search.{search_path-Confined}
use tasked.Htfile.Confinement.Copy.{copy_tree-Confined}
use tasked.Htfile.Confinement.Handlers.{
  change_path-Confined, put_path-Confined, copy_rename-Confined,
}
use tasked.Htfile.Confinement.Reading.{
  on_path, with_cmd-Confined, no_cmd-Confined, query_no_cmd-Confined, by_method, searchf-Confined,
  propsf-Confined, get-Confined,
}

module _ (lib : Libraries) (fuel : ℕ) (h : Handler) (ds : List Runes) (proper : All IsProper ds)
    (paths : (p q : Runes) → get_path h.dn p ≡ some q → IsBelow ds q) (C : Contract)
    (calls : (c : Call) → IsCallBelow ds c → C.P c) (r : Request)
    (searches : (p : Runes) (max : ℕ) (rxn rxc : Option Runes)
      → IsBelow ds p
      → Confined C Anything (search_path lib fuel p max rxn rxc))
    (copies : (from to : Runes)
      → IsBelow ds from
      → IsBelow ds to
      → Confined C Anything (copy_tree fuel from to)) where
  reads : (c : Call) → IsReading c → IsCallBelow ds c → C.P c
  reads c t b = calls c b

  modpropsf-Confined : Confined C Anything (modpropsf h r)
  unfolding modpropsf
  modpropsf-Confined = on_members r.json
    where
      on_members :
          (j : JsonBody)
          → Confined C Anything (
              on_json j λ ms.
                on_some
                  (add_members ms no_changes)
                  400
                  λ c. on_some (get_path h.dn r.path) 404 λ p. change_path p c)
      on_members too_large = tt
      on_members invalid = tt
      on_members (members ms) =
          Confined-on_some C (add_members ms no_changes) 400 _
            λ c e. on_path h ds paths C r _ λ p b. change_path-Confined ds C calls p c b

  deletef-Confined : Confined C Anything (deletef h r)
  unfolding deletef
  deletef-Confined = on_path h ds paths C r _ λ p b.
      Confined-ask C Anything (remove_all p) _ (calls (remove_all p) b) λ e q.
        Confined-on_error C Anything e _ _
          (λ err. Confined-if C Anything (is_not_exist err.cause) _ _ tt tt) tt

  mkdirf-Confined : Confined C Anything (mkdirf h r)
  unfolding mkdirf
  mkdirf-Confined = on_path h ds paths C r _ λ p b.
      Confined-ask C Anything (mkdir_all p) _ (calls (mkdir_all p) (inl b))
        λ e q. Confined-check_os C e _ tt

  putf-Confined : Confined C Anything (putf h r)
  unfolding putf
  putf-Confined =
      on_path h ds paths C r _
        λ p b. put_path-Confined ds C calls proper h.max_request_body p r.body b

  copyf-Confined : (qry : Query) → Confined C Anything (copyf fuel h r qry)
  unfolding copyf
  copyf-Confined = copy_rename-Confined ds C calls proper (copy_tree fuel) copies h paths true r

  renamef-Confined : (qry : Query) → Confined C Anything (renamef h r qry)
  unfolding renamef ask
  renamef-Confined =
      copy_rename-Confined ds C calls proper (λ from to. ask (rename from to))
        (λ from to k t. (calls (rename from to) (k, t), λ a q. tt)) h paths false r

  post-Confined : Confined C Anything (post lib fuel h r)
  unfolding post post_cmd
  post-Confined =
      with_cmd-Confined C r
        (codes "modprops" ∷ codes "delete" ∷ codes "mkdir" ∷ codes "copy" ∷ codes "rename" ∷ [])
        (post_cmd lib fuel h r)
        λ qry cmd.
          Confined-if C Anything (same_text cmd (codes "modprops")) _ _ modpropsf-Confined (
            Confined-if C Anything (same_text cmd (codes "delete")) _ _ deletef-Confined (
              Confined-if C Anything (same_text cmd (codes "mkdir")) _ _ mkdirf-Confined (
                Confined-if C Anything (same_text cmd (codes "copy")) _ _ (copyf-Confined qry) (
                  Confined-if C Anything (same_text cmd (codes "rename")) _ _ (renamef-Confined qry)
                    putf-Confined))))

  pub serve_http-keeps : Confined C Anything (serve_http lib fuel h r)
  unfolding serve_http
  serve_http-keeps = by_method C r (codes "OPTIONS") _ _ (no_cmd-Confined C r _ tt) (
      by_method C r (codes "HEAD") _ _ (get-Confined lib fuel h ds paths C reads r searches) (
        by_method C r (codes "SEARCH") _ _
          (query_no_cmd-Confined C r _ (searchf-Confined lib fuel h ds paths C reads r searches))
          (by_method C r (codes "GET") _ _ (get-Confined lib fuel h ds paths C reads r searches) (
            by_method C r (codes "PROPS") _ _
              (no_cmd-Confined C r _ (propsf-Confined lib fuel h ds paths C reads r searches))
              (by_method C r (codes "MODPROPS") _ _ (no_cmd-Confined C r _ modpropsf-Confined) (
                by_method C r (codes "PUT") _ _ (no_cmd-Confined C r _ putf-Confined) (
                  by_method C r (codes "COPY") _ _ (query_no_cmd-Confined C r _ copyf-Confined) (
                    by_method C r (codes "RENAME") _ _
                      (query_no_cmd-Confined C r _ renamef-Confined)
                      (by_method C r (codes "DELETE") _ _ (no_cmd-Confined C r _ deletef-Confined) (
                        by_method C r (codes "MKDIR") _ _ (no_cmd-Confined C r _ mkdirf-Confined)
                          (by_method C r (codes "POST") _ _ post-Confined tt)))))))))))

root_paths :
    (h : Handler) (d : Runes)
    → h.dn ≡ b'/' ∷ d
    → (p q : Runes) → get_path h.dn p ≡ some q
    → IsBelow (words d) q
root_paths h d e p q t = get_path-IsBelow d p q (subst (λ dn. get_path dn p ≡ some q) e t)

-- Whatever is requested, and whatever the system answers, each path that the file handler hands to the
-- system is its root or lies below it, by names that are no steps back; so with files that it searches,
-- copies or changes. The only exception is the directory of the root, which it may make. The root is an
-- absolute path; `Lstat` gives the last name of a path, and `Readdir` gives names with no slash in them
-- that are not `.` or `..`.
pub serve_http-Confined :
    (lib : Libraries) (fuel : ℕ) (h : Handler) (d : Runes) (r : Request)
    → h.dn ≡ b'/' ∷ d
    → Confined (below (words d)) Anything (serve_http lib fuel h r)
serve_http-Confined lib fuel h d r e =
    let ds = words d in
    serve_http-keeps lib fuel h ds (words-IsProper d) (root_paths h d e) (below ds) (λ c k. k) r
      (search_path-Confined (IsCallBelow ds) (IsBelow ds) (λ p e k. (k, k, k, k)) (λ p k. (k, k))
        (λ p name b t. join_path-IsBelow ds p name (words-IsProper d) b t) lib fuel)
      (copy_tree-Confined ds (words-IsProper d) fuel)

-- The methods that only read.
abbrev pub reading_methods : List Runes
reading_methods = codes "OPTIONS" ∷ codes "HEAD" ∷ codes "SEARCH" ∷ codes "GET" ∷ codes "PROPS" ∷ []

not_reading :
    (m : Runes)
    → same_text m (codes "OPTIONS") ≡ false
    → same_text m (codes "HEAD") ≡ false
    → same_text m (codes "SEARCH") ≡ false
    → same_text m (codes "GET") ≡ false
    → same_text m (codes "PROPS") ≡ false
    → contains m reading_methods ≢ true
unfolding contains
not_reading m e0 e1 e2 e3 e4 h = absurd (ground (arith, e0, e1, e2, e3, e4, h))

-- A request with the method OPTIONS, HEAD, SEARCH, GET or PROPS changes no file, whatever command and
-- parameters stand in its query: the file handler makes no call that could. The root is an absolute path.
pub serve_http-IsReading :
    (lib : Libraries) (fuel : ℕ) (h : Handler) (d : Runes) (r : Request)
    → h.dn ≡ b'/' ∷ d
    → contains r.method reading_methods ≡ true
    → Confined (sane IsReading) Anything (serve_http lib fuel h r)
unfolding serve_http contains
serve_http-IsReading lib fuel h d r e m =
    let C = sane IsReading in
    let paths = root_paths h d e in
    let reads = λ (c : Call) (t : IsReading c) (b : IsCallBelow (words d) c). t in
    let searches : (p : Runes) (max : ℕ) (rxn rxc : Option Runes)
        → IsBelow (words d) p
        → Confined C Anything (search_path lib fuel p max rxn rxc) =
      λ p max rxn rxc b.
        search_path-Confined IsReading Anything (λ p e k. (tt, tt, tt, tt)) (λ p k. (tt, tt))
          (λ p name b t. tt) lib fuel p max rxn rxc tt in
    Confined-test C Anything (same_text r.method (codes "OPTIONS")) _ _
      (λ t. no_cmd-Confined C r _ tt)
      λ e0.
        Confined-test C Anything (same_text r.method (codes "HEAD")) _ _
          (λ t. get-Confined lib fuel h (words d) paths C reads r searches)
          λ e1.
            Confined-test C Anything (same_text r.method (codes "SEARCH")) _ _
              (λ t.
                query_no_cmd-Confined C r _
                  (searchf-Confined lib fuel h (words d) paths C reads r searches))
              λ e2.
                Confined-test C Anything (same_text r.method (codes "GET")) _ _
                  (λ t. get-Confined lib fuel h (words d) paths C reads r searches)
                  λ e3.
                    Confined-test C Anything (same_text r.method (codes "PROPS")) _ _
                      (λ t.
                        no_cmd-Confined C r _
                          (propsf-Confined lib fuel h (words d) paths C reads r searches))
                      λ e4. absurd (not_reading r.method e0 e1 e2 e3 e4 m)
