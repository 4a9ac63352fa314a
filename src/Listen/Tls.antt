-- ===== src/Listen/Tls.antt =====
-- `listen` and `listenTls` of listen.go, with `selfCert` of crypt.go. The cryptography, the sockets and the
-- files are a record of functions; an error is none, or false.
use mathlib.Core.Option
use tasked.Base.{
  ◌==◌, if◌then◌else◌, Runes, codes, is_empty, ℕ, Bool, true, false, ◌&&◌, Option, none, some, List,
  [], ◌∷◌,
}
use tasked.Base.Options.{◌>>=◌}
use tasked.Options.Fields.{field_or_file}
use tasked.Listen.Address.{
  Schema, schema_https, Address, Strconv, parse_address, get_listener_params,
}

-- What the certificate is for.
pub data Host (Ip : Type 0) : Type 0 where
  any_host : Host Ip
  name_host : Runes → Host Ip
  ip_host : Ip → Host Ip

-- The system and its libraries. `generate_key` and `create_certificate` give the PEM texts.
pub record System (Ip Pair : Type 0) : Type 0 where
  pub conv : Strconv
  pub pid : ℕ
  pub listen_net : Runes → Runes → Bool
  pub parse_ip : Runes → Option Ip
  pub generate_key : Option Runes
  pub create_certificate : Runes → Host Ip → Option Runes
  pub x509_key_pair : (cert key : Runes) → Option Pair
  pub read_file : Runes → Option Runes
  pub write_file : Runes → Runes → Bool
  pub join : Runes → Runes → Runes

pub record ListenerOptions : Type 0 where
  pub address : Runes
  pub cachedir : Runes
  pub tls_key : Runes
  pub tls_key_file : Runes
  pub tls_cert : Runes
  pub tls_cert_file : Runes

-- A file that was to be written, with its mode.
pub record Written : Type 0 where
  pub file : Runes
  pub data_of : Runes
  pub mode : ℕ

-- The mode 0600.
abbrev pub private_mode : ℕ
private_mode = 384

-- What comes of the keys: the files that were to be written, and a key and a certificate.
pub record SelfCert : Type 0 where
  pub written : List Written
  pub pair : Option (Runes × Runes)

abbrev pub no_cert : SelfCert
no_cert = record { written = []; pair = none }

-- A file of the cache, with what comes where it is written.
unfoldable pub write_then : (Runes → Runes → Bool) → Runes → Runes → SelfCert → SelfCert
write_then write_file fn bytes rest =
    let w : Written = record { file = fn; data_of = bytes; mode = private_mode } in
    if write_file fn bytes
    then record { written = w ∷ rest.written; pair = rest.pair }
    else record { written = w ∷ []; pair = none }

-- The text before a bracket that ends it.
unfoldable pub before_last : Runes → Option Runes
before_last [] = none
before_last (c ∷ cs) =
    let later = before_last cs in
    if is_empty cs then (if c == b']' then some [] else none) else Option.map (λ w. c ∷ w) later

unfoldable pub inside : Runes → Option Runes
inside [] = none
inside (c ∷ cs) = if c == b'[' then before_last cs else none

-- A listener of package net, and one of package tls around it.
pub data Listener (Pair : Type 0) : Type 0 where
  plain_listener : (network address : Runes) → Listener Pair
  tls_listener : (network address : Runes) → Pair → Listener Pair

-- What `listen` returns, whether it has closed the listener of package net, and what it wrote.
pub record Listening (Pair : Type 0) : Type 0 where
  pub written : List Written
  pub closed : Bool
  pub listener : Option (Listener Pair)

abbrev pub no_listening : {Pair : Type 0} → Listening Pair
no_listening = record { written = []; closed = false; listener = none }

-- `listen` has closed the listener of package net.
abbrev pub closed_listening : {Pair : Type 0} → List Written → Listening Pair
closed_listening ws = record { written = ws; closed = true; listener = none }

abbrev pub open_listening : {Pair : Type 0} → List Written → Listener Pair → Listening Pair
open_listening ws l = record { written = ws; closed = false; listener = some l }

abbrev pub is_https : Schema → Bool
is_https schema_https = true
is_https _ = false

module _ {Ip Pair : Type 0} (sys : System Ip Pair) (o : ListenerOptions) where
  -- The files of the cache.
  unfoldable pub write_cached : Runes → Runes → SelfCert
  write_cached key cert =
      if is_empty o.cachedir
      then record { written = []; pair = some (key, cert) }
      else write_then sys.write_file (sys.join o.cachedir (codes "key.pem")) key (
          write_then sys.write_file (sys.join o.cachedir (codes "cert.pem")) cert
            record { written = []; pair = some (key, cert) })

  abbrev pub of_certificate : (key : Runes) → Option Runes → SelfCert
  of_certificate key none = no_cert
  of_certificate key (some cert) = write_cached key cert

  abbrev pub of_key : Host Ip → Option Runes → SelfCert
  of_key host none = no_cert
  of_key host (some key) = of_certificate key (sys.create_certificate key host)

  unfoldable pub self_cert : Host Ip → SelfCert
  self_cert host = of_key host sys.generate_key

  -- By what the text, and the text in its brackets, are as addresses of the internet.
  abbrev pub of_ips : (val : Runes) → (whole inner : Option Ip) → Host Ip
  of_ips val (some ip) inner = ip_host ip
  of_ips val none (some ip) = ip_host ip
  of_ips val none none = name_host val

  -- An address of the internet, in brackets or not, or a name.
  unfoldable pub host_of : Runes → Host Ip
  host_of val =
      if is_empty val then any_host else of_ips val (sys.parse_ip val) (inside val >>= sys.parse_ip)

  -- Behind the texts of the options, where none is an error.
  abbrev pub of_texts : (val : Runes) → (key cert : Option Runes) → SelfCert
  of_texts val none cert = no_cert
  of_texts val (some key) none = no_cert
  of_texts val (some key) (some cert) =
      if is_empty key && is_empty cert
      then self_cert (host_of val)
      else record { written = []; pair = some (key, cert) }

  -- The key and the certificate for TLS, from the options or new ones.
  unfoldable pub tls_texts : (val : Runes) → SelfCert
  tls_texts val =
      of_texts val (field_or_file sys.read_file o.tls_key o.tls_key_file)
        (field_or_file sys.read_file o.tls_cert o.tls_cert_file)

  -- Behind the key pair; where there is none, `listen` closes the listener of package net.
  abbrev pub of_pair : (network address : Runes) → List Written → Option Pair → Listening Pair
  of_pair network address ws none = closed_listening ws
  of_pair network address ws (some pair) = open_listening ws (tls_listener network address pair)

  -- Behind the texts.
  unfoldable pub listen_tls : (network address : Runes) → SelfCert → Listening Pair
  listen_tls network address made =
      of_pair network address made.written (made.pair >>= λ (key, cert). sys.x509_key_pair cert key)

  -- Behind the address.
  unfoldable pub listen_address : Address → Listening Pair
  listen_address addr =
      let (network, a) = get_listener_params sys.conv sys.pid addr in
      if sys.listen_net network a
      then if is_https addr.schema
        then listen_tls network a (tls_texts addr.val)
        else open_listening [] (plain_listener network a)
      else no_listening

  abbrev pub of_address : Option Address → Listening Pair
  of_address none = no_listening
  of_address (some addr) = listen_address addr

  unfoldable pub listen : Listening Pair
  listen = of_address (parse_address sys.conv o.address)
