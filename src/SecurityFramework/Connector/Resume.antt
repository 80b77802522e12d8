-- ===== src/SecurityFramework/Connector/Resume.antt =====
-- Handshakes of src/imp/security_framework.rs that are interrupted and resumed any number of times.
use rust_native_tls.Prelude.{ℕ, ◌≡◌, refl, Option, none, some, List, Result, ok, err, panic, ◌>>=◌}
use rust_native_tls.Protocol.{Protocol, sslv3, tlsv10, tlsv11, tlsv12, non_exhaustive}
use rust_native_tls.SecurityFramework.Library.{Library, LibraryHandshakeError, failure, interrupted}
use rust_native_tls.SecurityFramework.Connector.{
  MidHandshakeTlsStream, server, client, blocked, failed, TlsStream, TlsConnector, TlsAcceptor,
  Handshaken, client_stream, server_stream, handshake, connect, accept, try, convert_protocol,
  set_bound, use_bound, client_options,
}
use rust_native_tls.SecurityFramework.Stream.{mid_handshake_get_mut}

-- `last` is the outcome after some resumptions of interrupted handshakes, starting from `first`.
-- Between two of them the inner stream may be changed through `get_mut`.
pub data Resumed (L : Library) : Handshaken L → Handshaken L → Type 0 where
  here : {first : Handshaken L} → Resumed L first first
  again :
      {last : Handshaken L} (mid : MidHandshakeTlsStream L)
      → Resumed L (handshake L mid) last
      → Resumed L (err (blocked mid)) last
  changed :
      {last : Handshaken L} (mid : MidHandshakeTlsStream L) (socket : L.Socket)
      → Resumed L (err (blocked ((mid_handshake_get_mut L mid).1 socket))) last
      → Resumed L (err (blocked mid)) last

module _ (L : Library) where
  -- The certificate of a stream, or of a handshake that may become one, has the property.
  abbrev Carries : (Option L.SecCertificate → Type 0) → Handshaken L → Type 0
  Carries P (ok s) = P s.cert
  Carries P (err (blocked (server mid cert))) = P cert
  Carries P (err (blocked (client mid))) = P none
  Carries P (err (failed e)) = Unit
  Carries P panic = Unit

  module _ (P : Option L.SecCertificate → Type 0) where
    server_stream-Carries :
        (cert : Option L.SecCertificate)
        (r : Result (LibraryHandshakeError L.transport L.MidHandshakeSslStream) L.SslStream)
        → P cert
        → Carries P (server_stream L cert r)
    unfolding server_stream
    server_stream-Carries cert (ok s) h = h
    server_stream-Carries cert (err (failure e)) h = tt
    server_stream-Carries cert (err (interrupted mid)) h = h
    server_stream-Carries cert panic h = tt

    client_stream-Carries :
        (r : Result (LibraryHandshakeError L.transport L.MidHandshakeClientBuilder) L.SslStream)
        → P none
        → Carries P (client_stream L r)
    unfolding client_stream
    client_stream-Carries (ok s) h = h
    client_stream-Carries (err (failure e)) h = tt
    client_stream-Carries (err (interrupted mid)) h = h
    client_stream-Carries panic h = tt

    handshake-Carries :
        (mid : MidHandshakeTlsStream L)
        → Carries P (err (blocked mid))
        → Carries P (handshake L mid)
    unfolding handshake
    handshake-Carries (server mid cert) h = server_stream-Carries cert (L.resume_server mid) h
    handshake-Carries (client mid) h = client_stream-Carries (L.resume_client mid) h

    get_mut-Carries :
        (mid : MidHandshakeTlsStream L) (socket : L.Socket)
        → Carries P (err (blocked mid))
        → Carries P (err (blocked ((mid_handshake_get_mut L mid).1 socket)))
    unfolding mid_handshake_get_mut
    get_mut-Carries (server mid cert) socket h = h
    get_mut-Carries (client mid) socket h = h

    Resumed-Carries :
        {first last : Handshaken L} → Resumed L first last → Carries P first → Carries P last
    Resumed-Carries here h = h
    Resumed-Carries (again mid rest) h = Resumed-Carries rest (handshake-Carries mid h)
    Resumed-Carries (changed mid socket rest) h =
        Resumed-Carries rest (get_mut-Carries mid socket h)

    try-Carries :
        {A : Type 0} (r : Result L.BaseError A) (f : A → Handshaken L)
        → ((a : A) → r ≡ ok a → Carries P (f a))
        → Carries P (try L r >>= f)
    try-Carries (ok a) f h = h a refl
    try-Carries (err e) f h = tt
    try-Carries panic f h = tt

    set_bound-Carries :
        (set : L.SslContext → L.SslProtocol → Result L.BaseError L.SslContext) (ctx : L.SslContext)
        (p : Option Protocol) (f : L.SslContext → Handshaken L)
        → ((c : L.SslContext) → Carries P (f c))
        → Carries P (set_bound L set ctx p >>= f)
    unfolding set_bound convert_protocol
    set_bound-Carries set ctx none f h = h ctx
    set_bound-Carries set ctx (some sslv3) f h = try-Carries (set ctx L.ssl3) f (λ c e. h c)
    set_bound-Carries set ctx (some tlsv10) f h = try-Carries (set ctx L.tls1) f (λ c e. h c)
    set_bound-Carries set ctx (some tlsv11) f h = try-Carries (set ctx L.tls11) f (λ c e. h c)
    set_bound-Carries set ctx (some tlsv12) f h = try-Carries (set ctx L.tls12) f (λ c e. h c)
    set_bound-Carries set ctx (some non_exhaustive) f h = tt

    use_bound-Carries :
        (set : L.ClientBuilder → L.SslProtocol → L.ClientBuilder) (b : L.ClientBuilder)
        (p : Option Protocol) (f : L.ClientBuilder → Handshaken L)
        → ((c : L.ClientBuilder) → Carries P (f c))
        → Carries P (use_bound L set b p >>= f)
    unfolding use_bound convert_protocol
    use_bound-Carries set b none f h = h b
    use_bound-Carries set b (some sslv3) f h = h _
    use_bound-Carries set b (some tlsv10) f h = h _
    use_bound-Carries set b (some tlsv11) f h = h _
    use_bound-Carries set b (some tlsv12) f h = h _
    use_bound-Carries set b (some non_exhaustive) f h = tt

  -- However often the handshake of an acceptor is interrupted and resumed, and its inner stream
  -- changed in between, the stream that it ends with keeps the certificate of the acceptor's
  -- identity.
  pub accept-Resumed :
      (self : TlsAcceptor L) (stream : L.Socket) {s : TlsStream L}
      → Resumed L (accept L self stream) (ok s)
      → (cert : L.SecCertificate) × (L.identity_certificate self.identity.identity ≡ ok cert)
        × (s.cert ≡ some cert)
  unfolding accept
  accept-Resumed self stream r =
      let P : Option L.SecCertificate → Type 0 = λ c.
        (cert : L.SecCertificate) × (L.identity_certificate self.identity.identity ≡ ok cert)
        × (c ≡ some cert) in
      Resumed-Carries P r (
        try-Carries P L.context_new _ (λ ctx₁ e₁.
          set_bound-Carries P L.set_protocol_version_min ctx₁ self.min_protocol _ (λ ctx₂.
            set_bound-Carries P L.set_protocol_version_max ctx₂ self.max_protocol _ (λ ctx₃.
              try-Carries P (L.set_certificate ctx₃ self.identity.identity self.identity.chain) _
                (λ ctx₄ e₄.
                  try-Carries P (L.identity_certificate self.identity.identity) _ (λ cert e₅.
                    server_stream-Carries P (some cert) (L.server_handshake ctx₄ stream)
                      (cert, e₅, refl)))))))

  -- However often the handshake of a connector is interrupted and resumed, the stream that it ends
  -- with has no certificate of its own.
  pub connect-Resumed :
      (self : TlsConnector L) (domain : List ℕ) (stream : L.Socket) {s : TlsStream L}
      → Resumed L (connect L self domain stream) (ok s)
      → s.cert ≡ none
  unfolding connect
  connect-Resumed self domain stream r =
      let P : Option L.SecCertificate → Type 0 = λ c. c ≡ none in
      Resumed-Carries P r (
        use_bound-Carries P L.protocol_min L.client_builder_new self.min_protocol _ (λ b₁.
          use_bound-Carries P L.protocol_max b₁ self.max_protocol _ (λ b₂.
            client_stream-Carries P (L.client_handshake (client_options L self b₂) domain stream)
              refl)))
