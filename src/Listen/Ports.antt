-- ===== src/Listen/Ports.antt =====
-- Which port listen.go listens at.
use mathlib.Core.Path.{subst}
use mathlib.Core.Option
use tasked.Base.{
  ◌==◌, if◌then◌else◌, All, Runes, codes, is_empty, ℕ, ◌%◌, ◌^◌, ◌<◌, ◌≡◌, refl, ap, Bool, true,
  false, not, Option, none, some, [], ◌∷◌, ◌++◌, arith,
}
use tasked.Listen.Address.{
  schema_http, schema_https, Address, strip_prefix, all_digits, port_of, before_colon, drop_slashes,
  authority, scheme_of, Match, find_submatch, is_unix, Strconv, tcp_address, address_of,
  parse_address, get_listener_params,
}

-- The port of an address fits in 16 bits.
abbrev IsPorted : Option Address → Type 0
IsPorted none = Unit
IsPorted (some a) = a.port < 65536

IsPorted-if :
    (b : Bool) (x y : Option Address) → IsPorted x → IsPorted y → IsPorted (if b then x else y)
IsPorted-if true x y h k = h
IsPorted-if false x y h k = k

tcp_address-IsPorted : (conv : Strconv) (m : Match) → IsPorted (tcp_address conv m)
unfolding tcp_address
tcp_address-IsPorted conv m =
    IsPorted-if (is_empty m.tcp_port) _ _ (omega arith) (of_port (conv.atoi m.tcp_port))
  where
    of_port :
        (o : Option ℕ)
        → IsPorted
            (Option.map (λ p. record { schema = m.sch; val = m.tcp_addr; port = p % 2 ^ 16 }) o)
    of_port none = tt
    of_port (some n) = omega arith

parse_address-IsPorted : (conv : Strconv) (s : Runes) → IsPorted (parse_address conv s)
unfolding parse_address address_of
parse_address-IsPorted conv s = of_match (find_submatch s)
  where
    of_match : (o : Option Match) → IsPorted (elim o [ none ↦ none | some m ↦ address_of conv m ])
    of_match none = tt
    of_match (some m) =
        IsPorted-if (is_unix m.sch) _ _ (omega arith)
          (IsPorted-if (not (is_empty m.unix_addr)) _ _ (omega arith) (tcp_address-IsPorted conv m))

-- Whatever the address says, the server listens at the host with a port between 1 and 65535, where it does
-- not listen at a unix socket; a port that is 0 or missing is the default one.
pub get_listener_params-parse_address :
    (conv : Strconv) (pid : ℕ) (s : Runes) (a : Address)
    → parse_address conv s ≡ some a
    → is_unix a.schema ≡ false
    → (p : ℕ) × (0 < p)
      × (p < 65536)
      × (p ≡ (if a.port == 0 then 9090 else a.port))
      × (get_listener_params conv pid a ≡ (codes "tcp", a.val ++ b':' ∷ conv.format_uint p))
unfolding get_listener_params
get_listener_params-parse_address conv pid s a h u =
    let q = subst IsPorted h (parse_address-IsPorted conv s) in
    (if a.port == 0 then 9090 else a.port, ground arith, ground (arith, q), refl, rw u refl)

before_colon-append :
    (w rest : Runes)
    → All (λ c. (c == b':') ≡ false) w
    → before_colon (w ++ b':' ∷ rest) ≡ (w, b':' ∷ rest)
unfolding before_colon
before_colon-append [] rest h = refl
before_colon-append (c ∷ w) rest (h, hs) = rw (h, before_colon-append w rest hs) refl

port_of-digits :
    (ds : Runes) → is_empty ds ≡ false → all_digits ds ≡ true → port_of (b':' ∷ ds) ≡ some ds
unfolding port_of
port_of-digits ds h k = rw (h, k) refl

authority-host :
    (host ds : Runes)
    → All (λ c. (c == b':') ≡ false) host
    → is_empty ds ≡ false
    → all_digits ds ≡ true
    → authority (b'/' ∷ b'/' ∷ (host ++ b':' ∷ ds)) ≡ some (host, ds)
unfolding authority drop_slashes
authority-host host ds h k d =
    rw (before_colon-append host ds h, port_of-digits ds k d, authority)
      (ap (λ (r : Runes × Runes). some (r.0, ds)) (before_colon-append host ds h))

-- The text of a URL for this host and this port.
abbrev pub url : (secure : Bool) → (host digits : Runes) → Runes
url secure host digits =
    (if secure then codes "https:" else codes "http:") ++ b'/' ∷ b'/' ∷ (host ++ b':' ∷ digits)

-- A URL is taken apart into its schema, its host and its port, where the host has no colon in it. Of the
-- port only the remainder by 65536 is kept, so that a port that is too large stands for another one, and
-- 65536 for none.
pub parse_address-url :
    (conv : Strconv) (secure : Bool) (host digits : Runes) (n : ℕ)
    → All (λ c. (c == b':') ≡ false) host
    → is_empty digits ≡ false
    → all_digits digits ≡ true
    → conv.atoi digits ≡ some n
    → parse_address conv (url secure host digits)
      ≡ some record {
        schema = if secure then schema_https else schema_http;
        val = host;
        port = n % 65536;
      }
unfolding parse_address find_submatch scheme_of strip_prefix address_of tcp_address
parse_address-url conv true host digits n h k d e =
    rw
      (
        authority-host host digits h k d,
        k,
        e,
        find_submatch,
        parse_address,
        address_of,
        tcp_address,
      )
      refl
parse_address-url conv false host digits n h k d e =
    rw
      (
        authority-host host digits h k d,
        k,
        e,
        find_submatch,
        parse_address,
        address_of,
        tcp_address,
      )
      refl
