-- ===== src/Gateway/Registration/Address.antt =====
-- The address that a client asks for with HOST.
use webircgateway.Base.{
  ℕ, suc, ◌+◌, ◌<◌, ◌≡◌, refl, ap, ◌∙◌, Bool, true, false, not, ◌&&◌, ◌||◌, some, List, [], ◌∷◌,
  ◌++◌, arith, length, get_elem?, drop, length-append, take-length, drop-length, All, ok, ℤ, pos,
}
use webircgateway.Text.Bytes.{Bytes, codes, Lacks, has_prefix}
use webircgateway.Text.Decimal.{format, format-Lacks, IsDigit, format-IsDigit}
use webircgateway.Text.Atoi.{atoi-format, last_index-append}
use webircgateway.Irc.Message.{Message}
use webircgateway.Gateway.World.{World, Outside, with_client}
use webircgateway.Gateway.Registration.{
  parse_port, parse_at, drops, is_command, parse_host, on_host, host_given, host_param,
}

-- The port as a client writes it, with a "+" for TLS.
unfoldable pub port_text : Bool → ℕ → Bytes
port_text true port = b'+' ∷ format port
port_text false port = format port

-- host:port or host:+port
abbrev pub address_text : Bytes → Bool → ℕ → Bytes
address_text host plus port = host ++ b':' ∷ port_text plus port

plain_prefix : (s : Bytes) → Lacks b'+' s → has_prefix s (codes "+") ≡ false
unfolding has_prefix
plain_prefix [] h = refl
plain_prefix (c ∷ s) (d, h) = ground arith

digits-Lacks : (s : Bytes) → All IsDigit s → Lacks b':' s
digits-Lacks [] h = tt
digits-Lacks (c ∷ s) (d, h) = (ground arith, digits-Lacks s h)

port_text-Lacks : (plus : Bool) (port : ℕ) → Lacks b':' (port_text plus port)
unfolding port_text
port_text-Lacks true port = (ground arith, digits-Lacks (format port) (format-IsDigit port))
port_text-Lacks false port = digits-Lacks (format port) (format-IsDigit port)

behind_colon : (host rest : Bytes) → drop (length host + 1) (host ++ b':' ∷ rest) ≡ rest
behind_colon host rest =
    let next : length host + 1 ≡ suc (length host) = omega arith in
    ap (λ n. drop n (host ++ b':' ∷ rest)) next ∙ drop-length host b':' rest

parse_port-text :
    (host : Bytes) (plus tls : Bool) (port : ℕ)
    → port < 9223372036854775808
    → parse_port host tls (port_text plus port) ≡ (host, pos port, plus || tls)
unfolding port_text parse_port has_prefix
parse_port-text host true tls port small = rw (atoi-format port small) refl
parse_port-text host false tls port small =
    rw (plain_prefix (format port) (format-Lacks b'+' port (omega arith)))
      (rw (atoi-format port small) refl)

-- The parts of an address, for every TLS setting of before.
parse_host-address :
    (host : Bytes) (plus tls : Bool) (port : ℕ)
    → port < 9223372036854775808
    → parse_host (address_text host plus port) tls ≡ (host, pos port, plus || tls)
unfolding parse_host parse_at
parse_host-address host plus tls port small =
    let rest = port_text plus port in
    ap (parse_at (address_text host plus port) tls)
      (last_index-append host rest b':' (port_text-Lacks plus port))
    ∙ ap (λ h. parse_port h tls (drop (length host + 1) (host ++ b':' ∷ rest)))
        (take-length host (b':' ∷ rest))
    ∙ ap (parse_port host tls) (behind_colon host rest)
    ∙ parse_port-text host plus tls port small

given-address :
    (o : Outside) (addr : Bytes) (w : World) (host : Bytes) (port : ℤ) (tls : Bool)
    → 0 < length addr
    → parse_host addr w.client.dest_tls ≡ (host, port, tls)
    → host_given o addr w
      ≡ ok (
          drops (
            with_client w
              (record (w.client) { dest_host = host; dest_port = port; dest_tls = tls })))
unfolding host_given
given-address o [] w host port tls l e = absurd (omega arith)
given-address o (b ∷ addr) w host port tls l e = rw e refl

-- Where the gateway lets clients choose, a HOST line before the upstream is started, with an address host:port or
-- host:+port as its first param and the port below two to the sixty-third, sets the client's host and port,
-- whatever bytes the host has. TLS is set by a "+", and stays as it was before without one. The line is not
-- sent on.
pub on_host-address :
    (o : Outside) (m : Message) (line : Bytes) (w : World) (host : Bytes) (plus : Bool) (port : ℕ)
    (more : List Bytes)
    → is_command m (codes "HOST") ≡ true
    → m.params ≡ address_text host plus port ∷ more
    → o.config.gateway ≡ true
    → w.client.upstream_started ≡ false
    → port < 9223372036854775808
    → on_host o m line w
      ≡ ok (
          drops (
            with_client w (record (w.client) {
              dest_host = host;
              dest_port = pos port;
              dest_tls = plus || w.client.dest_tls;
            })))
unfolding on_host host_param
on_host-address o m line w host plus port more named given choosing unstarted small =
    let goes : (is_command m (codes "HOST") && not w.client.upstream_started) ≡ true =
      simp (named, unstarted) in
    let chooses : not o.config.gateway ≡ false = simp choosing in
    let first : get_elem? m.params 0 ≡ some (address_text host plus port) = simp given in
    rw goes (
      rw chooses (
        rw first (
          given-address o (address_text host plus port) w host (pos port)
            (plus || w.client.dest_tls)
            (omega (arith, length-append host (b':' ∷ port_text plus port)))
            (parse_host-address host plus w.client.dest_tls port small))))
