-- ===== src/Listen/Pair.antt =====
-- Which key and certificate listen.go takes for TLS.
use mathlib.Core.Option
use tasked.Base.{
  ◌==◌, if◌then◌else◌, ==_iff, Bool-cases, Runes, codes, is_empty, ℕ, ◌≡◌, refl, sym, ap, ◌∙◌, ◌⊎◌,
  inl, inr, Bool, true, false, ◌&&◌, Option, none, some, List, [], ◌∷◌, ◌++◌,
}
use tasked.Base.Options.{◌>>=◌, bind-eq-some}
use tasked.Options.Fields.{field_or_file}
use tasked.Listen.Tls.{
  Host, any_host, name_host, ip_host, System, ListenerOptions, Written, SelfCert, write_then,
  before_last, inside, write_cached, of_certificate, of_key, self_cert, of_ips, host_of, of_texts,
  tls_texts,
}

-- A text in brackets.
abbrev pub bracketed_text : Runes → Runes
bracketed_text w = b'[' ∷ (w ++ b']' ∷ [])

some_injective : {A : Type 0} {a b : A} → ◌≡◌ {A = Option A} (some a) (some b) → a ≡ b
some_injective h = cc

before_last-append : (w : Runes) → before_last (w ++ b']' ∷ []) ≡ some w
unfolding before_last
before_last-append [] = refl
before_last-append (c ∷ []) = refl
before_last-append (c ∷ d ∷ w) = rw (before_last-append (d ∷ w)) refl

before_last_lem : (s w : Runes) → before_last s ≡ some w → s ≡ w ++ b']' ∷ []
unfolding before_last
before_last_lem [] w h = absurd (cc)
before_last_lem (c ∷ []) w h = elim (Bool-cases (c == b']')) [
  | inl e ↦ last c w ((==_iff c b']').0 e) (rw e at h)
  | inr e ↦ absurd (none-ne-some w (rw e at h))
]
  where
    none-ne-some : (v : Runes) → ◌≡◌ {A = Option Runes} none (some v) → ⊥
    none-ne-some v k = absurd (cc)

    last :
        (d : ℕ) (v : Runes)
        → d ≡ b']'
        → ◌≡◌ {A = Option Runes} (some []) (some v)
        → ◌≡◌ {A = Runes} (d ∷ []) (v ++ b']' ∷ [])
    last d v k e = rw k (ap (λ u. u ++ b']' ∷ []) (some_injective e))
before_last_lem (c ∷ d ∷ s) w h = more (before_last (d ∷ s)) (before_last_lem (d ∷ s)) h
  where
    more :
        (out : Option Runes)
        → ((v : Runes) → out ≡ some v → ◌≡◌ {A = Runes} (d ∷ s) (v ++ b']' ∷ []))
        → Option.map (λ v. c ∷ v) out ≡ some w
        → ◌≡◌ {A = Runes} (c ∷ d ∷ s) (w ++ b']' ∷ [])
    more none e k = absurd (cc)
    more (some v) e k = ap (λ u. c ∷ u) (e v refl) ∙ ap (λ u. u ++ b']' ∷ []) (some_injective k)

module _ {Ip Pair : Type 0} (sys : System Ip Pair) (o : ListenerOptions) where
  -- The text of a setting, or else of the file that another setting names, or else none.
  abbrev pub IsText : (field fn text : Runes) → Type 0
  IsText field fn text =
      ((is_empty field ≡ false) × (text ≡ field))
      ⊎ ((is_empty field ≡ true) × (is_empty fn ≡ false) × (sys.read_file fn ≡ some text))
      ⊎ ((is_empty field ≡ true) × (is_empty fn ≡ true) × (text ≡ []))

  field_or_file-IsText :
      (field fn text : Runes)
      → field_or_file sys.read_file field fn ≡ some text
      → IsText field fn text
  unfolding field_or_file
  field_or_file-IsText [] [] text h = inr (inr (refl, refl, sym (some_injective h)))
  field_or_file-IsText [] (c ∷ fn) text h = inr (inl (refl, refl, h))
  field_or_file-IsText (c ∷ field) fn text h = inl (refl, sym (some_injective h))

  -- The host of a certificate: any, where the address has none; the address of the internet that the text
  -- is, or that is in its brackets; and else the text as a name.
  abbrev pub IsHostOf : Runes → Host Ip → Type 0
  IsHostOf val any_host = is_empty val ≡ true
  IsHostOf val (ip_host ip) =
      (is_empty val ≡ false)
      × ((sys.parse_ip val ≡ some ip)
          ⊎ ((sys.parse_ip val ≡ none)
              × ((w : Runes) × (val ≡ bracketed_text w) × (sys.parse_ip w ≡ some ip))))
  IsHostOf val (name_host name) =
      (is_empty val ≡ false)
      × (name ≡ val)
      × (sys.parse_ip val ≡ none)
      × ((w : Runes) → val ≡ bracketed_text w → sys.parse_ip w ≡ none)

  inside-bracketed_text : (val w : Runes) → inside val ≡ some w → val ≡ bracketed_text w
  unfolding inside
  inside-bracketed_text [] w h = absurd (cc)
  inside-bracketed_text (c ∷ cs) w h = elim (Bool-cases (c == b'[')) [
    | inl e ↦
        ap (λ d. d ∷ cs) ((==_iff c b'[').0 e)
        ∙ ap (λ u. b'[' ∷ u) (before_last_lem cs w (rw e at h))
    | inr e ↦ absurd (unequal (rw e at h))
  ]
    where
      unequal : ◌≡◌ {A = Option Runes} none (some w) → ⊥
      unequal k = absurd (cc)

  inside_brackets : (w : Runes) → inside (bracketed_text w) ≡ some w
  unfolding inside
  inside_brackets w = before_last-append w

  of_ips-IsHostOf :
      (val : Runes) (whole inner : Option Ip)
      → is_empty val ≡ false
      → sys.parse_ip val ≡ whole
      → (inside val >>= sys.parse_ip) ≡ inner
      → IsHostOf val (of_ips sys o val whole inner)
  of_ips-IsHostOf val (some ip) inner n e f = (n, inl e)
  of_ips-IsHostOf val none (some ip) n e f =
      let (w, g, k) = bind-eq-some (inside val) sys.parse_ip f in
      (n, inr (e, (w, inside-bracketed_text val w g, k)))
  of_ips-IsHostOf val none none n e f =
      (n, refl, e, λ w g. outside w (ap inside g ∙ inside_brackets w))
    where
      outside : (w : Runes) → inside val ≡ some w → sys.parse_ip w ≡ none
      outside w g = sym (ap (λ u. u >>= sys.parse_ip) g) ∙ f

  host_of-IsHostOf : (val : Runes) → IsHostOf val (host_of sys o val)
  unfolding host_of
  host_of-IsHostOf [] = refl
  host_of-IsHostOf (c ∷ val) = of_ips-IsHostOf (c ∷ val) _ _ refl refl refl

  -- The files of the cache, where there is one: first the key and then the certificate, both only for the
  -- user of the server, and both written.
  abbrev pub IsCached : List Written → (key cert : Runes) → Type 0
  IsCached ws key cert =
      let key_file = sys.join o.cachedir (codes "key.pem") in
      let cert_file = sys.join o.cachedir (codes "cert.pem") in
      ((is_empty o.cachedir ≡ true) × (ws ≡ []))
      ⊎ ((is_empty o.cachedir ≡ false)
          × (sys.write_file key_file key ≡ true)
          × (sys.write_file cert_file cert ≡ true)
          × (ws
              ≡ record { file = key_file; data_of = key; mode = 384 }
                ∷ record { file = cert_file; data_of = cert; mode = 384 }
                ∷ []))

  -- The key and the certificate for an address, and the files that were written: those of the options, where
  -- these have one of the two, and else new ones.
  abbrev pub IsPair : Runes → List Written → (key cert : Runes) → Type 0
  IsPair val ws key cert =
      (k c : Runes) × IsText o.tls_key o.tls_key_file k
      × IsText o.tls_cert o.tls_cert_file c
      × (((is_empty k && is_empty c ≡ false) × (key ≡ k) × (cert ≡ c) × (ws ≡ []))
          ⊎ ((is_empty k ≡ true)
              × (is_empty c ≡ true)
              × (sys.generate_key ≡ some key)
              × ((host : Host Ip) × IsHostOf val host
                  × (sys.create_certificate key host ≡ some cert))
              × IsCached ws key cert))

  -- No pair was made, or one of which this holds, with the files that were written.
  abbrev pub IsMade : (Runes → Runes → List Written → Type 0) → SelfCert → Type 0
  IsMade P made =
      (made.pair ≡ none)
      ⊎ ((key cert : Runes) × (made.pair ≡ some (key, cert)) × P key cert made.written)

  write_then-IsMade :
      (key cert : Runes) (b c : Bool)
      → is_empty o.cachedir ≡ false
      → sys.write_file (sys.join o.cachedir (codes "key.pem")) key ≡ b
      → sys.write_file (sys.join o.cachedir (codes "cert.pem")) cert ≡ c
      → IsMade
          (λ k d ws. (k ≡ key) × (d ≡ cert) × IsCached ws k d)
          (write_then sys.write_file (sys.join o.cachedir (codes "key.pem")) key (
            write_then sys.write_file
              (sys.join o.cachedir (codes "cert.pem"))
              cert
              record { written = []; pair = some (key, cert) }))
  unfolding write_then
  write_then-IsMade key cert true true n e f =
      inr (key, cert, (rw (e, f) refl), (refl, refl, inr (n, e, f, (rw (e, f) refl))))
  write_then-IsMade key cert true false n e f = inl (rw (e, f) refl)
  write_then-IsMade key cert false c n e f = inl (rw e refl)

  write_cached-IsMade :
      (key cert : Runes)
      → IsMade (λ k c ws. (k ≡ key) × (c ≡ cert) × IsCached ws k c) (write_cached sys o key cert)
  unfolding write_cached
  write_cached-IsMade key cert = cached (is_empty o.cachedir) refl
    where
      cached :
          (b : Bool)
          → is_empty o.cachedir ≡ b
          → IsMade
              (λ k c ws. (k ≡ key) × (c ≡ cert) × IsCached ws k c)
              (if b
                then record { written = []; pair = some (key, cert) }
                else write_then sys.write_file (sys.join o.cachedir (codes "key.pem")) key (
                    write_then sys.write_file
                      (sys.join o.cachedir (codes "cert.pem"))
                      cert
                      record { written = []; pair = some (key, cert) }))
      cached true e = inr (key, cert, refl, (refl, refl, inl (e, refl)))
      cached false e = write_then-IsMade key cert _ _ e refl refl

  -- A new pair.
  abbrev IsNew : Runes → (key cert : Runes) → List Written → Type 0
  IsNew val key cert ws =
      (sys.generate_key ≡ some key)
      × ((host : Host Ip) × IsHostOf val host × (sys.create_certificate key host ≡ some cert))
      × IsCached ws key cert

  of_key-IsMade :
      (val : Runes) (host : Host Ip) (generated : Option Runes)
      → IsHostOf val host
      → sys.generate_key ≡ generated
      → IsMade (IsNew val) (of_key sys o host generated)
  of_key-IsMade val host none i e = inl refl
  of_key-IsMade val host (some key) i e = certified (sys.create_certificate key host) refl
    where
      certified :
          (cert : Option Runes)
          → sys.create_certificate key host ≡ cert
          → IsMade (IsNew val) (of_certificate sys o key cert)
      certified none f = inl refl
      certified (some cert) f = elim (write_cached-IsMade key cert) [
        | inl g ↦ inl g
        | inr (k, c, g, (a, b, j)) ↦ inr (
          k,
          c,
          g,
          (
            e ∙ ap some (sym a),
            (host, i, ap (λ u. sys.create_certificate u host) a ∙ f ∙ ap some (sym b)),
            j,
          ),
        )
      ]

  new-IsMade :
      (val k c : Runes)
      → IsText o.tls_key o.tls_key_file k
      → IsText o.tls_cert o.tls_cert_file c
      → is_empty k ≡ true
      → is_empty c ≡ true
      → IsMade (λ key cert ws. IsPair val ws key cert) (self_cert sys o (host_of sys o val))
  unfolding self_cert
  new-IsMade val k c h i e f =
      elim (of_key-IsMade val (host_of sys o val) sys.generate_key (host_of-IsHostOf val) refl) [
        | inl g ↦ inl g
        | inr (key, cert, g, (a, b, j)) ↦ inr (key, cert, g, (k, c, h, i, inr (e, f, a, b, j)))
      ]

  of_texts-IsMade :
      (val : Runes) (key cert : Option Runes)
      → ((k : Runes) → key ≡ some k → IsText o.tls_key o.tls_key_file k)
      → ((c : Runes) → cert ≡ some c → IsText o.tls_cert o.tls_cert_file c)
      → IsMade (λ k c ws. IsPair val ws k c) (of_texts sys o val key cert)
  of_texts-IsMade val none cert h i = inl refl
  of_texts-IsMade val (some k) none h i = inl refl
  of_texts-IsMade val (some k) (some c) h i = choose (is_empty k) (is_empty c) refl refl
    where
      choose :
          (a b : Bool)
          → is_empty k ≡ a
          → is_empty c ≡ b
          → IsMade
              (λ k' c' ws. IsPair val ws k' c')
              (if a && b
                then self_cert sys o (host_of sys o val)
                else record { written = []; pair = some (k, c) })
      choose true true e f = new-IsMade val k c (h k refl) (i c refl) e f
      choose true false e f =
          inr (k, c, refl, (k, c, h k refl, i c refl, inl (rw (e, f) refl, refl, refl, refl)))
      choose false b e f =
          inr (k, c, refl, (k, c, h k refl, i c refl, inl (rw e refl, refl, refl, refl)))

  pub tls_texts-IsMade : (val : Runes) → IsMade (λ k c ws. IsPair val ws k c) (tls_texts sys o val)
  unfolding tls_texts
  tls_texts-IsMade val =
      of_texts-IsMade val _ _ (field_or_file-IsText o.tls_key o.tls_key_file)
        (field_or_file-IsText o.tls_cert o.tls_cert_file)
