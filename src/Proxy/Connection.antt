-- ===== src/Proxy/Connection.antt =====
-- pkg/proxy/proxy.go: the client side of a proxied connection.
use webircgateway.Base.{
  ℕ, ◌<◌, ◌≡◌, ◌≢◌, ◌↔◌, ◌⊎◌, inl, inr, refl, Bool, true, false, Option, none, some, List, [], ◌∷◌,
  map, arith, ◌==◌, if◌then◌else◌, Bool-cases, Outcome, ok, panic,
}
use webircgateway.Text.Bytes.{Bytes}
use webircgateway.Proxy.Errors.{NetError}

pub data KiwiProxyState : Type 0 where
  closed connecting handshaking connected : KiwiProxyState

-- Conn: the nil pointer, an open connection or one that was closed.
pub data Socket : Type 0 where
  nil open_socket closed_socket : Socket

pub record KiwiProxyConnection : Type 0 where
  pub state : KiwiProxyState
  pub socket : Socket

abbrev pub make_kiwi_proxy_connection : KiwiProxyConnection
make_kiwi_proxy_connection = record { state = closed; socket = nil }

-- The Type of a ConnError
pub data ConnType : Type 0 where
  conn_reset conn_refused not_found conn_timeout : ConnType

pub data DialError : Type 0 where
  -- errors.New, of a connection that is in use or of a destination that the proxy could not reach
  not_closed no_connection : DialError
  conn_error : ConnType → DialError
  net_error : NetError → DialError

-- What the network answers: net.Dial fails, or the one Read behind it fails or returns some bytes.
pub data Answer : Type 0 where
  dial_fails : NetError → Answer
  read_fails : NetError → Answer
  reads : Bytes → Answer

-- The switch on response[0]; none is its missing default, behind which Dial returns nil.
unfoldable pub switch : ℕ → Option DialError
switch b =
    if b == b'0'
    then some no_connection
    else if b == b'2'
    then some (conn_error conn_reset)
    else if b == b'3'
    then some (conn_error conn_refused)
    else if b == b'4'
    then some (conn_error not_found)
    else if b == b'5'
    then some (conn_error conn_timeout)
    else none

respond : Bytes → KiwiProxyConnection × Option DialError
respond [] = (record { state = closed; socket = closed_socket }, some no_connection)
respond (b ∷ bytes) =
    if b == b'1'
    then (record { state = connected; socket = open_socket }, none)
    else (record { state = closed; socket = closed_socket }, switch b)

dial_from : KiwiProxyState → Answer → KiwiProxyConnection → KiwiProxyConnection × Option DialError
dial_from closed (dial_fails e) c = (record c { state = connecting }, some (net_error e))
dial_from closed (read_fails e) c =
    (record { state = closed; socket = closed_socket }, some (net_error e))
dial_from closed (reads bytes) c = respond bytes
dial_from s answer c = (c, some not_closed)

unfoldable pub dial : Answer → KiwiProxyConnection → KiwiProxyConnection × Option DialError
unfolding dial_from respond switch
dial answer c = dial_from c.state answer c

-- (*c.Conn).Close(), through a pointer that may be nil; closing a closed socket is an error of its own.
close_socket : Socket → KiwiProxyConnection → Outcome (KiwiProxyConnection × Bool)
close_socket nil c = panic
close_socket open_socket c = ok (record c { socket = closed_socket }, true)
close_socket closed_socket c = ok (c, false)

-- Close; the flag tells whether it returned nil.
close_from : KiwiProxyState → KiwiProxyConnection → Outcome (KiwiProxyConnection × Bool)
unfolding close_socket
close_from closed c = ok (c, false)
close_from s c = close_socket c.socket c

unfoldable pub close : KiwiProxyConnection → Outcome (KiwiProxyConnection × Bool)
unfolding close_from
close c = close_from c.state c

-- What Read and Write do: nothing (0, nil), the end of the file, or a call on the socket.
pub data Io : Type 0 where
  nothing eof on_socket : Io

io_in : KiwiProxyState → Io
io_in connecting = nothing
io_in handshaking = nothing
io_in closed = eof
io_in connected = on_socket

unfoldable pub read : KiwiProxyConnection → Io
unfolding io_in
read c = io_in c.state

unfoldable pub write : KiwiProxyConnection → Io
unfolding io_in
write c = io_in c.state

-- From a new connection Dial ends connected exactly when the answer starts with "1", and this is exactly when
-- it returns no error over an open socket.
pub dial_connected :
    (answer : Answer)
    → (((dial answer make_kiwi_proxy_connection).0.state ≡ connected)
        ↔ ((bytes : Bytes) × (answer ≡ reads (b'1' ∷ bytes))))
      × (((dial answer make_kiwi_proxy_connection).1 ≡ none)
            × ((dial answer make_kiwi_proxy_connection).0.socket ≡ open_socket)
          ↔ ((bytes : Bytes) × (answer ≡ reads (b'1' ∷ bytes))))
unfolding dial
dial_connected (dial_fails e) =
    ((λ h. absurd (cc), λ (x, q). absurd (cc)), (λ (h, k). absurd (cc), λ (x, q). absurd (cc)))
dial_connected (read_fails e) =
    ((λ h. absurd (cc), λ (x, q). absurd (cc)), (λ (h, k). absurd (cc), λ (x, q). absurd (cc)))
dial_connected (reads []) =
    ((λ h. absurd (cc), λ (x, q). absurd (cc)), (λ (h, k). absurd (cc), λ (x, q). absurd (cc)))
dial_connected (reads (b ∷ bytes)) = elim (Bool-cases (b == b'1')) [
  | inl e ↦ rw e (
    (λ h. (bytes, ground arith), λ (x, q). refl),
    (λ h. (bytes, ground arith), λ (x, q). (refl, refl)),
  )
  | inr e ↦ rw e (
    (λ h. absurd (cc), λ (x, q). absurd (ground arith)),
    (λ (h, k). absurd (cc), λ (x, q). absurd (ground arith)),
  )
]

switch-none : (b : ℕ) → switch b ≡ none → b ≢ b'1' → (b < b'0') ⊎ (b'5' < b)
unfolding switch
switch-none b h ne = ground arith

switch_outside : (b : ℕ) → (b < b'0') ⊎ (b'5' < b) → switch b ≡ none
unfolding switch
switch_outside b h = ground arith

-- Dial returns no error over a connection that it has closed exactly when the answer starts with a byte that
-- is none of "0" to "5".
pub dial_silent :
    (answer : Answer)
    → (((dial answer make_kiwi_proxy_connection).1 ≡ none)
        × ((dial answer make_kiwi_proxy_connection).0.state ≡ closed))
      ↔ ((b : ℕ) × (bytes : Bytes) × (answer ≡ reads (b ∷ bytes)) × ((b < b'0') ⊎ (b'5' < b)))
unfolding dial
dial_silent (dial_fails e) = (λ (h, k). absurd (cc), λ (x, y, q, r). absurd (cc))
dial_silent (read_fails e) = (λ (h, k). absurd (cc), λ (x, y, q, r). absurd (cc))
dial_silent (reads []) = (λ (h, k). absurd (cc), λ (x, y, q, r). absurd (cc))
dial_silent (reads (b ∷ bytes)) = elim (Bool-cases (b == b'1')) [
  | inl e ↦ rw e (λ (h, k). absurd (cc), λ (x, y, q, r). absurd (ground arith))
  | inr e ↦ rw e (
    λ (h, k). (b, bytes, refl, switch-none b h (ground arith)),
    λ (x, y, q, r). (switch_outside b (ground arith), refl),
  )
]

-- Dial once for each of these answers, on the same connection.
unfoldable pub redials :
    List Answer → KiwiProxyConnection → KiwiProxyConnection × List (Option DialError)
unfolding dial
redials [] c = (c, [])
redials (answer ∷ answers) c =
    let (d, e) = dial answer c in let (d', es) = redials answers d in (d', e ∷ es)

dial_refused :
    (answer : Answer) (c : KiwiProxyConnection)
    → c.state ≡ connecting
    → dial answer c ≡ (c, some not_closed)
unfolding dial
dial_refused answer c h = simp h refl

redials-connecting :
    (answers : List Answer) (c : KiwiProxyConnection)
    → c.state ≡ connecting
    → redials answers c ≡ (c, map (λ a. some not_closed) answers)
unfolding redials
redials-connecting [] c h = refl
redials-connecting (answer ∷ answers) c h =
    rw (dial_refused answer c h) (rw (redials-connecting answers c h) refl)

-- After a net.Dial that failed with an error, which Dial returns, the connection stays connecting for good: whatever the
-- network would answer, each further Dial is refused and changes nothing, Read and Write do nothing and return no error,
-- and Close reads a nil pointer and panics.
pub dial_fails_lem :
    (e : NetError) (answers : List Answer)
    → (let (c, returned) = dial (dial_fails e) make_kiwi_proxy_connection in
        (returned ≡ some (net_error e))
        × (c.state ≡ connecting)
        × (redials answers c ≡ (c, map (λ a. some not_closed) answers))
        × (read c ≡ nothing)
        × (write c ≡ nothing)
        × (close c ≡ panic))
unfolding dial close read write
dial_fails_lem e answers = (refl, refl, redials-connecting answers _ refl, refl, refl, refl)
