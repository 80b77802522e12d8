-- ===== src/Examples/Tests/Toy.antt =====
-- A small backend whose streams are two lists of bytes: a call of `write` takes one byte, and a
-- call of `read` all that is ahead and has room.
use rust_native_tls.Prelude.{
  ℕ, zero, suc, ◌≡◌, refl, sym, ap, subst, none, List, [], ◌∷◌, ◌++◌, false, ◌==◌, length, take,
  zeros, codes, arith, Result, ok, err, panic, append-nil, ok-injective,
}
use rust_native_tls.Prelude.State.{pure}
use rust_native_tls.Api.Backend.{Backend, failure}
use rust_native_tls.Examples.Std.{StreamErrors}
use rust_native_tls.Examples.Wire.{Wire}
use rust_native_tls.Examples.Total.{NeverInterrupted}
use rust_native_tls.Examples.Server.Bounds.{IsSteady}

pub record Line : Type 0 where
  pub sent : List ℕ
  pub ahead : List ℕ

-- What is still ahead, the buffer, and how many bytes it took.
abbrev fill : List ℕ → List ℕ → List ℕ × List ℕ × ℕ
fill [] buf = ([], buf, 0)
fill (x ∷ xs) [] = (x ∷ xs, [], 0)
fill (x ∷ xs) (b ∷ buf) = let (rest, buf', n) = fill xs buf in (rest, x ∷ buf', suc n)

abbrev read : Line → List ℕ → Line × List ℕ × Result ℕ ℕ
read s buf = let (rest, buf', n) = fill s.ahead buf in (record s { ahead = rest }, buf', ok n)

abbrev write : Line → List ℕ → Line × Result ℕ ℕ
write s [] = (s, ok 0)
write s (b ∷ bs) = (record s { sent = s.sent ++ (b ∷ []) }, ok 1)

-- The peer behind a socket: 0 fails the handshake, 1 sends a text, and any other a byte that is no
-- text.
abbrev shake : ℕ → Result ℕ Line
shake zero = err 0
shake (suc zero) = ok (record { sent = []; ahead = codes "hi" })
shake (suc (suc n)) = ok (record { sent = []; ahead = 255 ∷ [] })

abbrev pub backend : Backend
backend = record {
  errors = record {
    Error = ℕ;
    Cause = ℕ;
    source = λ e. none;
    display = λ e. "an error";
    debug = λ e. "Error";
  };
  credentials = record {
    Process = ℕ;
    Identity = ℕ;
    Certificate = ℕ;
    from_pkcs12 = λ der password. pure 7;
    from_pkcs8 = λ pem key. pure 8;
    from_der = λ der. ok 1;
    from_pem = λ pem. pure 1;
    to_der = λ cert. ok [];
  };
  connections = record {
    Socket = ℕ;
    MidHandshakeTlsStream = ℕ;
    TlsStream = Line;
    ImpHandshakeError = ℕ;
    variant = λ e. failure e;
    mid_debug = λ mid. "Mid";
    mid_get_ref = λ mid. mid;
    mid_get_mut = λ mid. (mid, λ socket. socket);
    handshake = shake;
    TlsConnector = ℕ;
    connector_new = λ builder. pure 0;
    connect = λ c domain s. shake s;
    TlsAcceptor = ℕ;
    acceptor_new = λ builder. ok builder.identity;
    accept = λ a s. shake s;
  };
  streams = record {
    StreamError = ℕ;
    stream_debug = λ s. "Line";
    get_ref = λ s. 1;
    get_mut = λ s. (1, λ socket. s);
    buffered_read_size = λ s. ok 0;
    peer_certificate = λ s. ok none;
    tls_server_end_point = λ s. ok none;
    negotiated_alpn = λ s. ok none;
    shutdown = λ s. (s, ok tt);
    read = read;
    write = write;
    flush = λ s. (s, ok tt);
  };
}

abbrev pub errors : StreamErrors backend
errors = record { is_interrupted = λ e. e == 4; write_zero = 23 }

pub fill-length : (xs buf : List ℕ) → length (fill xs buf).1 ≡ length buf
fill-length [] buf = refl
fill-length (x ∷ xs) [] = refl
fill-length (x ∷ xs) (b ∷ buf) = omega (arith, fill-length xs buf)

fill-split : (xs buf : List ℕ) → xs ≡ take (fill xs buf).2 (fill xs buf).1 ++ (fill xs buf).0
fill-split [] buf = refl
fill-split (x ∷ xs) [] = refl
fill-split (x ∷ xs) (b ∷ buf) = ap (λ (ys : List ℕ). x ∷ ys) (fill-split xs buf)

fill-end : (xs : List ℕ) (room : ℕ) → (fill xs (zeros (suc room))).2 ≡ 0 → xs ≡ []
fill-end [] room h = refl
fill-end (x ∷ xs) room h = cc

-- What a call of `write` that returns this is to have sent.
abbrev Sent : Line → List ℕ → Line × Result ℕ ℕ → Type 0
Sent s buf (t, ok n) = t.sent ≡ s.sent ++ take n buf
Sent s buf (t, err e) = Unit
Sent s buf (t, panic) = Unit

write-Sent : (s : Line) (buf : List ℕ) → Sent s buf (write s buf)
write-Sent s [] = sym (append-nil s.sent)
write-Sent s (b ∷ bs) = refl

pub write-ok_lem :
    (s s' : Line) (buf : List ℕ) (n : ℕ) → write s buf ≡ (s', ok n) → s'.sent ≡ s.sent ++ take n buf
write-ok_lem s s' buf n h = subst (Sent s buf) h (write-Sent s buf)

pub write-err_lem :
    (s s' : Line) (buf : List ℕ) (e : ℕ) → write s buf ≡ (s', err e) → s'.sent ≡ s.sent
write-err_lem s s' [] e h = cc
write-err_lem s s' (b ∷ bs) e h = cc

-- What a call of `read` that returns this is to have taken.
abbrev Taken : Line → Line × List ℕ × Result ℕ ℕ → Type 0
Taken s (t, buf, ok n) = s.ahead ≡ take n buf ++ t.ahead
Taken s (t, buf, err e) = Unit
Taken s (t, buf, panic) = Unit

pub read-ok_lem :
    (s s' : Line) (buf buf' : List ℕ) (n : ℕ)
    → read s buf ≡ (s', buf', ok n)
    → s.ahead ≡ take n buf' ++ s'.ahead
read-ok_lem s s' buf buf' n h = subst (Taken s) h (fill-split s.ahead buf)

pub read-end_lem :
    (s s' : Line) (room : ℕ) (buf' : List ℕ)
    → read s (zeros (suc room)) ≡ (s', buf', ok 0)
    → s.ahead ≡ []
read-end_lem s s' room buf' h =
    fill-end s.ahead room (ok-injective (ap (λ (p : Line × List ℕ × Result ℕ ℕ). p.2) h))

pub read-err_lem :
    (s s' : Line) (buf buf' : List ℕ) (e : ℕ) → read s buf ≡ (s', buf', err e) → s'.ahead ≡ s.ahead
read-err_lem s s' buf buf' e h = cc

abbrev pub wire : Wire backend
wire = record {
  sent = λ s. s.sent;
  ahead = λ s. s.ahead;
  write-ok = write-ok_lem;
  write-err = write-err_lem;
  read-sent = λ s buf. refl;
  read-ok = read-ok_lem;
  read-end = read-end_lem;
  read-err = read-err_lem;
}

pub uninterrupted_lem :
    (s : Line) (buf : List ℕ) (e : ℕ) → (write s buf).1 ≡ err e → (e == 4) ≡ false
uninterrupted_lem s [] e h = cc
uninterrupted_lem s (b ∷ bs) e h = cc

abbrev pub steady : IsSteady backend errors
steady = record {
  uninterrupted = uninterrupted_lem;
  read_length = λ s buf. fill-length s.ahead buf;
}

pub read_uninterrupted_lem :
    (s : Line) (buf : List ℕ) (e : ℕ) → (read s buf).2 ≡ err e → (e == 4) ≡ false
read_uninterrupted_lem s buf e h = cc

abbrev pub never : NeverInterrupted backend errors
never = record { writes = uninterrupted_lem; reads = read_uninterrupted_lem }
