-- ===== src/Listen/Secure.antt =====
-- What listen.go listens with, when the address has the schema https.
use mathlib.Core.Path.{subst}
use tasked.Base.{
  Bool-cases, Option-cases, Runes, ◌≡◌, refl, sym, ap, ◌∙◌, inl, inr, Bool, true, false, ◌&&◌,
  Option, none, some, List,
}
use tasked.Base.Options.{◌>>=◌}
use tasked.Listen.Address.{Address, parse_address, get_listener_params}
use tasked.Listen.Pair.{IsPair, IsMade, tls_texts-IsMade}
use tasked.Listen.Tls.{
  Written, System, ListenerOptions, Listener, plain_listener, tls_listener, Listening, no_listening,
  closed_listening, is_https, tls_texts, of_pair, listen_tls, listen_address, of_address, listen,
}

module _ {Ip Pair : Type 0} (sys : System Ip Pair) (o : ListenerOptions) where
  -- The listener that package net was asked for.
  abbrev pub network_of : Address → Runes
  network_of addr = (get_listener_params sys.conv sys.pid addr).0

  abbrev pub address_text : Address → Runes
  address_text addr = (get_listener_params sys.conv sys.pid addr).1

  -- A listener for this address, with TLS, by a key and a certificate that fit.
  abbrev pub IsTls : Address → List Written → Option (Listener Pair) → Type 0
  IsTls addr ws none = Unit
  IsTls addr ws (some (plain_listener network a)) = ⊥
  IsTls addr ws (some (tls_listener network a pair)) =
      (network ≡ network_of addr)
      × (a ≡ address_text addr)
      × ((key cert : Runes) × IsPair sys o addr.val ws key cert
          × (sys.x509_key_pair cert key ≡ some pair))

  abbrev pub is_none : {A : Type 0} → Option A → Bool
  is_none none = true
  is_none (some a) = false

  -- What `listen` gives for this address, where package net does what `opened` says.
  abbrev IsSecure : Address → (opened : Bool) → Listening Pair → Type 0
  IsSecure addr opened l =
      IsTls addr l.written l.listener × (l.closed ≡ (opened && is_none l.listener))

  none-ne-some : {pair : Pair} → ◌≡◌ {A = Option Pair} none (some pair) → ⊥
  none-ne-some h = absurd (cc)

  listen_tls-fits :
      (addr : Address) (pair : Pair)
      → ((tls_texts sys o addr.val).pair >>= λ (key, cert). sys.x509_key_pair cert key) ≡ some pair
      → IsMade sys o (λ key cert ws. IsPair sys o addr.val ws key cert) (tls_texts sys o addr.val)
      → IsSecure addr true
          (listen_tls sys o (network_of addr) (address_text addr) (tls_texts sys o addr.val))
  unfolding listen_tls
  listen_tls-fits addr pair f (inl m) =
      absurd (none-ne-some (sym (ap (λ u. u >>= λ (key, cert). sys.x509_key_pair cert key) m) ∙ f))
  listen_tls-fits addr pair f (inr (key, cert, m, p)) =
      let made = tls_texts sys o addr.val in
      let k = sym (ap (λ u. u >>= λ (key, cert). sys.x509_key_pair cert key) m) ∙ f in
      subst (IsSecure addr true)
        (sym (ap (of_pair sys o (network_of addr) (address_text addr) made.written) f))
        ((refl, refl, (key, cert, p, k)), refl)

  listen_tls-IsSecure :
      (addr : Address)
      → IsSecure addr true
          (listen_tls sys o (network_of addr) (address_text addr) (tls_texts sys o addr.val))
  listen_tls-IsSecure addr =
      let made = tls_texts sys o addr.val in
      elim (Option-cases (made.pair >>= λ (key, cert). sys.x509_key_pair cert key)) [
        | inl f ↦
            let e : listen_tls sys o (network_of addr) (address_text addr) made
                ≡ closed_listening made.written =
              unfold listen_tls in ap (of_pair sys o _ _ made.written) f in
            subst (IsSecure addr true) (sym e) (tt, refl)
        | inr (pair, f) ↦ listen_tls-fits addr pair f (tls_texts-IsMade sys o addr.val)
      ]

  listen_address-IsSecure :
      (addr : Address)
      → is_https addr.schema ≡ true
      → IsSecure addr
          (sys.listen_net (network_of addr) (address_text addr))
          (listen_address sys o addr)
  listen_address-IsSecure addr h =
      elim (Bool-cases (sys.listen_net (network_of addr) (address_text addr))) [
        | inl e ↦
            let opens : listen_address sys o addr
                ≡ listen_tls sys o (network_of addr) (address_text addr)
                    (tls_texts sys o addr.val) =
              unfold listen_address in rw (e, h) refl in
            subst (λ b. IsSecure addr b (listen_address sys o addr)) (sym e)
              (subst (IsSecure addr true) (sym opens) (listen_tls-IsSecure addr))
        | inr e ↦ subst (λ b. IsSecure addr b (listen_address sys o addr)) (sym e) (closes addr e)
      ]
    where
      closes :
          (a : Address)
          → sys.listen_net (network_of a) (address_text a) ≡ false
          → IsSecure a false (listen_address sys o a)
      closes a g =
          let f : listen_address sys o a ≡ no_listening = unfold listen_address in rw g refl in
          subst (IsSecure a false) (sym f) (tt, refl)

  -- A server whose address has the schema https never listens without TLS: where there is a listener, it is
  -- one of TLS at this address, with a key and a certificate that fit. These are the texts of the options, each
  -- from its setting or else from the file of its other setting, where one of the two is not empty. Else they
  -- are a new key and a certificate of it for the host of the address, and where there is a cache both were
  -- written to it, for nobody else to read; no other file is written. Where there is no listener after all, the
  -- one of package net is closed.
  pub listen-IsTls :
      (addr : Address)
      → parse_address sys.conv o.address ≡ some addr
      → is_https addr.schema ≡ true
      → IsTls addr (listen sys o).written (listen sys o).listener
        × ((listen sys o).closed ≡ (
            sys.listen_net (network_of addr) (address_text addr)
            && is_none (listen sys o).listener))
  listen-IsTls addr p h =
      let e : listen sys o ≡ listen_address sys o addr = unfold listen in ap (of_address sys o) p in
      subst (IsSecure addr (sys.listen_net (network_of addr) (address_text addr))) (sym e)
        (listen_address-IsSecure addr h)
