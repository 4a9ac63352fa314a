-- ===== src/Htproc/Proxy.antt =====
-- `proxy.serve` of htproc/proxy.go. What the HTTP client does is an argument: the error of making the request,
-- the error of the connection, and the response of the process or an error.
use tasked.Base.{
  if◌then◌else◌, Runes, codes, same_text, ℕ, ◌≡◌, refl, Option, none, some, List, [], ◌∷◌,
}
use tasked.Htproc.Status.{Error}

-- `http.Header`: the values of each key that is there.
abbrev pub Header : Type 0
Header = Runes → Option (List Runes)

pub record ProcResponse : Type 0 where
  pub status_code : ℕ
  pub header : List (Runes × List Runes)
  pub body : Runes

pub data Answered : Type 0 where
  request_fails : Error → Answered
  responds : ProcResponse → Answered

-- What is written to the client, and the error that `serve` returns.
pub record Proxied : Type 0 where
  pub status : ℕ
  pub header : Header
  pub body : Runes
  pub err : Option Error

abbrev pub set_header : Runes → List Runes → Header → Header
set_header key vals h q = if same_text key q then some vals else h q

-- The loop over the headers of the response.
unfoldable pub copy_header : List (Runes × List Runes) → Header → Header
copy_header [] h = h
copy_header ((key, vals) ∷ hs) h = copy_header hs (set_header key vals h)

-- `CheckHandle` with the status 404.
abbrev pub not_found : Header → Error → Proxied
not_found h e = record { status = 404; header = h; body = codes "Not Found"; err = some e }

unfoldable pub of_answered : Header → Answered → Proxied
of_answered h (request_fails e) = not_found h e
of_answered h (responds rsp) = record {
  status = rsp.status_code;
  header = copy_header rsp.header h;
  body = rsp.body;
  err = none;
}

unfoldable pub serve_proxy :
    (new_request : Option Error) → (dial : Option Error) → Answered → Header → Proxied
serve_proxy (some e) dial answer h = not_found h e
serve_proxy none (some e) answer h = not_found h e
serve_proxy none none answer h = of_answered h answer

-- The last value of a key in a list, and else what was there.
unfoldable pub last_value :
    Runes → List (Runes × List Runes) → Option (List Runes) → Option (List Runes)
last_value q [] v = v
last_value q ((key, vals) ∷ hs) v = last_value q hs (if same_text key q then some vals else v)

copy_header-last_value :
    (q : Runes) (hs : List (Runes × List Runes)) (h : Header)
    → copy_header hs h q ≡ last_value q hs (h q)
unfolding copy_header last_value
copy_header-last_value q [] h = refl
copy_header-last_value q ((key, vals) ∷ hs) h = copy_header-last_value q hs (set_header key vals h)

-- The client gets the status, the headers and the body of the process, where there is a response; a header
-- that the response does not have stays as it was.
pub serve_proxy_lem :
    (rsp : ProcResponse) (h : Header) (q : Runes)
    → ((serve_proxy none none (responds rsp) h).status ≡ rsp.status_code)
      × ((serve_proxy none none (responds rsp) h).body ≡ rsp.body)
      × ((serve_proxy none none (responds rsp) h).header q ≡ last_value q rsp.header (h q))
unfolding serve_proxy of_answered
serve_proxy_lem rsp h q = (refl, refl, copy_header-last_value q rsp.header h)
