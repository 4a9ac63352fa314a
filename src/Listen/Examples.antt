-- ===== src/Listen/Examples.antt =====
-- Addresses of listen.go at concrete inputs.
use tasked.Base.{Runes, codes, ℕ, ◌+◌, ◌-◌, ◌*◌, ◌≡◌, refl, true, none, some, [], ◌∷◌, ◌++◌}
use tasked.Listen.Address.{
  no_schema, schema_https, schema_unix, Address, strip_prefix, all_digits, port_of, before_colon,
  to_bracket, bracketed, drop_slashes, authority, scheme_of, unix_anywhere, match_plain,
  find_submatch, Strconv, tcp_address, address_of, parse_address,
}
use tasked.Options.Fields.{field_or_file}
use tasked.Listen.Tls.{
  name_host, System, ListenerOptions, private_mode, write_then, before_last, inside, write_cached,
  self_cert, host_of, tls_texts, listen,
}
use tasked.Listen.Secure.{IsTls, listen-IsTls}
use tasked.Listen.Ports.{parse_address-url}

-- The value of decimal digits, and the digits of a number below 10.
abbrev value_from : ℕ → Runes → ℕ
value_from n [] = n
value_from n (c ∷ cs) = value_from (n * 10 + (c - b'0')) cs

abbrev decimal : Strconv
decimal = record { atoi = λ ds. some (value_from 0 ds); format_uint = λ n. (b'0' + n) ∷ [] }

parse_address_lem :
    (parse_address decimal (codes ":9091")
      ≡ some record { schema = no_schema; val = []; port = 9091 })
    × (parse_address decimal (codes "https://[::1]:443")
        ≡ some record { schema = schema_https; val = codes "[::1]"; port = 443 })
    × (parse_address decimal (codes "unix:/run/a:b")
        ≡ some record { schema = schema_unix; val = codes "/run/a:b"; port = 0 })
    × (parse_address decimal (codes "tcp:x:unix:y")
        ≡ some record { schema = schema_unix; val = codes "y"; port = 0 })
    × (parse_address decimal (codes "a:b") ≡ none)
    × (parse_address decimal (codes "localhost:65616")
        ≡ some record { schema = no_schema; val = codes "localhost"; port = 80 })
unfolding parse_address find_submatch match_plain scheme_of strip_prefix authority drop_slashes
    before_colon port_of all_digits bracketed to_bracket unix_anywhere address_of tcp_address
parse_address_lem = (refl, refl, refl, refl, refl, refl)

parse_address-url_example :
    parse_address decimal (codes "https://h:65616")
    ≡ some record { schema = schema_https; val = codes "h"; port = 80 }
parse_address-url_example =
    parse_address-url decimal true (codes "h") (codes "65616") 65616 (refl, tt) refl
      (unfold all_digits in refl) refl

-- A system in which a key fits each certificate, and the file of keys is /k.
abbrev system : System ℕ ℕ
system = record {
  conv = decimal;
  pid = 3;
  listen_net = λ n a. true;
  parse_ip = λ s. none;
  generate_key = some (codes "K");
  create_certificate = λ k host. elim host [ name_host n ↦ some n | _ ↦ some (codes "any") ];
  x509_key_pair = λ cert key. some 1;
  read_file = λ fn. none;
  write_file = λ fn bytes. true;
  join = λ a b. a ++ b'/' ∷ b;
}

abbrev secure_options : ListenerOptions
secure_options = record {
  address = codes "https://h:9";
  cachedir = codes "/c";
  tls_key = [];
  tls_key_file = [];
  tls_cert = [];
  tls_cert_file = [];
}

abbrev secure_address : Address
secure_address = record { schema = schema_https; val = codes "h"; port = 9 }

self_cert_lem : tls_texts system secure_options (codes "h") ≡ record {
  written =
      record { file = codes "/c/key.pem"; data_of = codes "K"; mode = private_mode }
      ∷ record { file = codes "/c/cert.pem"; data_of = codes "h"; mode = private_mode }
      ∷ [];
  pair = some (codes "K", codes "h");
}
unfolding tls_texts field_or_file self_cert host_of inside before_last write_cached write_then
self_cert_lem = refl

listen-IsTls_example :
    IsTls system secure_options secure_address
      (listen system secure_options).written
      (listen system secure_options).listener
listen-IsTls_example =
    (listen-IsTls system secure_options secure_address
      (unfold parse_address find_submatch scheme_of strip_prefix authority drop_slashes before_colon
          port_of all_digits address_of tcp_address in
        refl)
      refl).0
