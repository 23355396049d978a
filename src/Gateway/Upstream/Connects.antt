-- ===== src/Gateway/Upstream/Connects.antt =====
-- connectUpstream returns: a client gets its upstream connection, or is told and shut down.
use webircgateway.Base.{
  ℕ, ◌<◌, ◌⊎◌, inl, inr, refl, Bool, true, false, not, ◌&&◌, Option, none, some, [], ◌∷◌,
  if◌then◌else◌, ok, Returns, Returns-if, Returns-bind,
}
use webircgateway.Text.Bytes.{Bytes, codes, is_empty}
use webircgateway.Gateway.Config.{ConfigProxy, ConfigUpstream}
use webircgateway.Gateway.Client.{Client, ClientState}
use webircgateway.Gateway.Access.Laws.{find_upstream_lem}
use webircgateway.Gateway.World.{
  World, Outside, DirectDial, direct_fails, direct_connects, with_client,
}
use webircgateway.Gateway.Upstream.{
  make_upstream_connection, write_webirc_lines, maybe_send_pass, register, connect_by, dial_failed,
  register_ports, dial_directly, dialed_proxy, choose_upstream, connect_chosen, configured_upstream,
  connect_upstream, requested_upstream, is_irc_address_allowed,
}
use webircgateway.Proxy.Connection.{DialError}
use webircgateway.Gateway.Upstream.States.{
  IsOpen, IsRefused, IsRegistering, IsOpen-shutdown, close_client-IsRefused, send_irc_error-IsOpen,
  IsRegistering-send, IsRegistering-if, write_upstream-IsRegistering, IsOpen-if, on_client-Returns,
}

-- A connection that was tried: the client is open still where there is one, and refused where not.
abbrev Tried : World × Bool → Type 0
Tried (w, true) = IsOpen w.client
Tried (w, false) = IsRefused w.client

module _ (o : Outside) where
  dial_failed-Tried :
      (why : Bytes) (w : World) → IsOpen w.client → Returns (dial_failed o why w) Tried
  unfolding dial_failed
  dial_failed-Tried why w h =
      Returns-bind _ _ (on_client-Returns _ w (close_client-IsRefused why _ w.client h))
        (λ w r. ((w, false), refl, r))

  register_ports-IsOpen :
      (l r : ℕ) (w : World) → IsOpen w.client → IsOpen (register_ports o l r w).client
  unfolding register_ports
  register_ports-IsOpen l r w h = IsOpen-if o.config.identd _ w h h

  dial_directly-Tried :
      (d : DirectDial) (w : World) → IsOpen w.client → Returns (dial_directly o d w) Tried
  unfolding dial_directly
  dial_directly-Tried (direct_fails e) w h = dial_failed-Tried _ w h
  dial_directly-Tried (direct_connects l r) w h =
      let u = w.client.upstream_config in
      let k = register_ports-IsOpen l r w h in
      Returns-if (u.tls && not (o.tls_ok u)) _ _ (λ e. dial_failed-Tried (codes "err_tls") _ k)
        (λ e. (_, refl, k))

  dialed_proxy-Tried :
      (e : Option DialError) (w : World) → IsOpen w.client → Returns (dialed_proxy o e w) Tried
  unfolding dialed_proxy
  dialed_proxy-Tried none w h = (_, refl, h)
  dialed_proxy-Tried (some e) w h = dial_failed-Tried _ w h

  connect_by-Tried :
      (p : Option ConfigProxy) (w : World) → IsOpen w.client → Returns (connect_by o p w) Tried
  unfolding connect_by
  connect_by-Tried none w h = dial_directly-Tried _ w h
  connect_by-Tried (some p) w h = dialed_proxy-Tried _ w h

  write_webirc_lines-IsRegistering :
      (c : Client) → IsRegistering c → IsRegistering (write_webirc_lines o c)
  unfolding write_webirc_lines
  write_webirc_lines-IsRegistering c h =
      IsRegistering-if (is_empty c.upstream_config.webirc_password) c _ h
        (write_upstream-IsRegistering _ c h)

  maybe_send_pass-IsRegistering :
      (c : Client) → IsRegistering c → IsRegistering (maybe_send_pass o c)
  unfolding maybe_send_pass
  maybe_send_pass-IsRegistering c h =
      IsRegistering-if (is_empty c.upstream_config.server_password) c _ h
        (write_upstream-IsRegistering _ (record c { sent_pass = true }) h)

  register-IsRegistering :
      (w : World) → IsOpen w.client → Returns (register o w) (λ w. IsRegistering w.client)
  unfolding register
  register-IsRegistering w h =
      let c : Client = record (w.client) { state = ClientState.registering; upstream = some [] } in
      let k : IsRegistering c = record {
        live = h.live;
        serving = h.serving;
        state_is = refl;
        connected = ([], refl);
      } in
      Returns-bind _ _
        (IsRegistering-send (codes "state") (codes "connected" ∷ []) _
          (maybe_send_pass-IsRegistering _ (write_webirc_lines-IsRegistering c k)))
        (λ c q. (with_client w c, refl, q))

  -- A call of connectUpstream that is done: the client registers, or was refused.
  abbrev pub Settled : World → Type 0
  Settled w = IsRegistering w.client ⊎ IsRefused w.client

  connected-Settled :
      (r : World × Bool) → Tried r → Returns (if r.1 then register o r.0 else ok r.0) Settled
  connected-Settled (w, true) h = (let (w, e, q) = register-IsRegistering w h in (w, e, inl q))
  connected-Settled (w, false) h = (w, refl, inr h)

  -- What choose_upstream leaves: an open client with its upstream, or a refused one.
  abbrev HasChoice : Client × Option ConfigUpstream → Type 0
  HasChoice (c, none) = IsRefused c
  HasChoice (c, some u) = IsOpen c

  module _ (c : Client) (h : IsOpen c) where
    configured-HasChoice :
        ((n : ℕ) → 0 < n → o.pick n < n) → Returns (configured_upstream o c) HasChoice
    unfolding configured_upstream
    configured-HasChoice in_range = elim (find_upstream_lem o.pick o.config in_range) [
      | inl (none_left, e) ↦ rw e (
          Returns-bind _ _ (send_irc_error-IsOpen _ c h)
            (λ c k. Returns-bind _ _ (IsOpen-shutdown _ c k) (λ c q. ((c, none), refl, q))))
      | inr (u, i, found, e) ↦ rw e ((c, some u), refl, h)
    ]

    requested-HasChoice : Returns (requested_upstream o c) HasChoice
    unfolding requested_upstream
    requested-HasChoice =
        Returns-if (not (is_irc_address_allowed o.matches o.config c.dest_host)) _ _
          (λ e. Returns-bind _ _ (send_irc_error-IsOpen _ c h) (λ c k.
            Returns-bind _ _ (close_client-IsRefused _ _ c k) (λ c q. ((c, none), refl, q))))
          (λ e. (_, refl, h))

    choose_upstream-HasChoice :
        ((n : ℕ) → 0 < n → o.pick n < n) → Returns (choose_upstream o c) HasChoice
    unfolding choose_upstream
    choose_upstream-HasChoice in_range =
        Returns-if (is_empty c.dest_host) _ _ (λ e. configured-HasChoice in_range)
          (λ e. requested-HasChoice)

  connect_chosen-Settled :
      (w : World) (r : Client × Option ConfigUpstream)
      → ((c : Client) → IsOpen c → IsOpen (o.connection_pre c).0)
      → HasChoice r
      → Returns (connect_chosen o w r) Settled
  unfolding connect_chosen make_upstream_connection
  connect_chosen-Settled w (c, none) hook h = (_, refl, inr h)
  connect_chosen-Settled w (c, some u) hook h =
      let k = hook (record c { upstream_config = u }) h in
      Returns-if (o.connection_pre (record c { upstream_config = u })).1 _ _
        (λ e.
          let (v, q, x) = on_client-Returns _ (with_client w _) (close_client-IsRefused _ _ _ k) in
          (v, q, inr x))
        (λ e. Returns-bind _ _ (connect_by-Tried _ _ k) connected-Settled)

-- With a random index below its bound and a hook that keeps an open client open, connectUpstream returns for an
-- open client, one that is live, not shutting down and without an upstream: either the client then
-- registers over a connection, or it is shut down, ending and without one.
pub connect_upstream-Settled :
    (o : Outside) (w : World)
    → ((n : ℕ) → 0 < n → o.pick n < n)
    → ((c : Client) → IsOpen c → IsOpen (o.connection_pre c).0)
    → IsOpen w.client
    → Returns (connect_upstream o w) (Settled o)
unfolding connect_upstream
connect_upstream-Settled o w in_range hook h =
    Returns-bind _ _ (choose_upstream-HasChoice o _ h in_range)
      (λ r k. connect_chosen-Settled o w r hook k)
