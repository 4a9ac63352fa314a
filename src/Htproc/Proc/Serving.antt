-- ===== src/Htproc/Proc/Serving.antt =====
-- What `serve` of htproc/proc.go does for the requests of a process.
use tasked.Base.{◌≡◌, refl, Bool, true, false, Option, none, some, List, [], ◌∷◌, map, arith}
use tasked.Htproc.Status.{Error}
use tasked.Htproc.Proc.{Channels, Served, answered, panics, serve}

-- The requests that come to a process, one after the other, with the errors of the proxy.
unfoldable pub serve_all : List (Option Error) → Channels → Channels × List Served
serve_all [] ch = (ch, [])
serve_all (proxy ∷ rest) ch =
    let (ch', s) = serve proxy ch in let (last, ss) = serve_all rest ch' in (last, s ∷ ss)

abbrev pub is_failed : Option Error → Bool
is_failed none = false
is_failed (some e) = true

-- What the requests get where the process has failed before.
abbrev pub after_failure : Option Error → Served
after_failure none = answered none
after_failure (some e) = panics

serve_all-failed :
    (proxies : List (Option Error)) (ch : Channels)
    → ch.ready ≡ true
    → ch.exit ≡ false
    → ch.failure ≡ true
    → (serve_all proxies ch).1 ≡ map after_failure proxies
unfolding serve_all serve
serve_all-failed [] ch r x f = refl
serve_all-failed (none ∷ proxies) ch r x f = ground (arith, serve_all-failed proxies ch r x f)
serve_all-failed (some e ∷ proxies) ch r x f = ground (arith, serve_all-failed proxies ch r x f)

-- While a process is ready and not closed, the first request on which the proxy fails gets the error, and
-- reports the failure. From then on until the close, each request on which the proxy fails panics,
-- since it closes a channel that is closed.
pub serve_all_fails :
    (e : Error) (proxies : List (Option Error)) (ch : Channels)
    → ch.ready ≡ true
    → ch.exit ≡ false
    → ch.failure ≡ false
    → (serve_all (some e ∷ proxies) ch).1 ≡ answered (some e) ∷ map after_failure proxies
unfolding serve_all serve
serve_all_fails e proxies ch r x f =
    ground (arith, serve_all-failed proxies (record ch { failure = true }) r x refl)
