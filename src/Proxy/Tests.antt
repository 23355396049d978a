-- ===== src/Proxy/Tests.antt =====
-- Runs of the proxy's two sides.
use webircgateway.Base.{ℕ, ◌<◌, ◌≡◌, ◌↔◌, ◌⊎◌, refl, true, false, none, some, [], ◌∷◌, panic, pos}
use webircgateway.Text.Bytes.{Bytes, codes}
use webircgateway.Proxy.Errors.{timed_out, type_of_err}
use webircgateway.Proxy.Protocol.{Answered, Connects, classified_error, connected_iff}
use webircgateway.Proxy.Connection.{
  connected, connecting, not_closed, net_error, redials, nothing, read, write, dial_fails,
  open_socket, dial_connected, dial_silent, dial_fails_lem, make_kiwi_proxy_connection, dial, reads,
  closed, closed_socket, conn_error, conn_timeout, close,
}
use webircgateway.Proxy.Server.{
  HandshakeMeta, run, handshake, handshake_meta, connect_upstream, response_of, fails, goes_on,
}

abbrev meta : HandshakeMeta
meta = record {
  host = codes "irc.example";
  port = pos 6667;
  tls = false;
  username = codes "user";
  interface = codes "0.0.0.0";
}

run_timeout : run (some (some meta)) true true (some timed_out) none ≡ (codes "5", fails)
unfolding run handshake handshake_meta connect_upstream response_of type_of_err
run_timeout = refl

dial_timeout :
    dial (reads (codes "5")) make_kiwi_proxy_connection
    ≡ (record { state = closed; socket = closed_socket }, some (conn_error conn_timeout))
unfolding dial
dial_timeout = refl

handshake_ok : handshake (some (some meta)) true true ≡ ([], goes_on)
unfolding handshake handshake_meta
handshake_ok = refl

classified_error_example :
    Answered
      (type_of_err (some timed_out))
      (run (some (some meta)) true true (some timed_out) none).0
classified_error_example = classified_error (some (some meta)) true true timed_out none handshake_ok

connected_iff_example :
    Connects (run (some (some meta)) true true none (some true)).0
    ↔ ((run (some (some meta)) true true none (some true)).1 ≡ goes_on)
connected_iff_example = connected_iff (some (some meta)) true true none (some true)

dial_silent_example :
    (((dial (reads (codes "6")) make_kiwi_proxy_connection).1 ≡ none)
      × ((dial (reads (codes "6")) make_kiwi_proxy_connection).0.state ≡ closed))
    ↔ ((b : ℕ) × (bytes : Bytes) × (reads (codes "6") ≡ reads (b ∷ bytes))
        × ((b < b'0') ⊎ (b'5' < b)))
dial_silent_example = dial_silent (reads (codes "6"))

dial_connected_example :
    (((dial (reads (codes "1")) make_kiwi_proxy_connection).0.state ≡ connected)
      ↔ ((bytes : Bytes) × (reads (codes "1") ≡ reads (b'1' ∷ bytes))))
    × (((dial (reads (codes "1")) make_kiwi_proxy_connection).1 ≡ none)
          × ((dial (reads (codes "1")) make_kiwi_proxy_connection).0.socket ≡ open_socket)
        ↔ ((bytes : Bytes) × (reads (codes "1") ≡ reads (b'1' ∷ bytes))))
dial_connected_example = dial_connected (reads (codes "1"))

dial_fails_lem_example :
    (let (c, returned) = dial (dial_fails timed_out) make_kiwi_proxy_connection in
      (returned ≡ some (net_error timed_out))
      × (c.state ≡ connecting)
      × (redials (reads (codes "1") ∷ []) c ≡ (c, some not_closed ∷ []))
      × (read c ≡ nothing)
      × (write c ≡ nothing)
      × (close c ≡ panic))
dial_fails_lem_example = dial_fails_lem timed_out (reads (codes "1") ∷ [])
