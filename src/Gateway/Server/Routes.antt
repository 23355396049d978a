-- ===== src/Gateway/Server/Routes.antt =====
-- The routes of the HTTP server: one for each transport, and two more if there is a transport.
use webircgateway.Base.{
  ◌≡◌, inl, inr, refl, ◌∙◌, Bool, true, false, not, ◌&&◌, ◌||◌, Option, none, some, List, [], ◌∷◌,
  ◌++◌, append-nil, append_assoc, arith, if◌then◌else◌, Bool-cases, Option-cases, Outcome, ok,
  panic, ◌>>=◌,
}
use webircgateway.Text.Bytes.{Bytes, codes, equal}
use webircgateway.Gateway.Access.{string_in_slice}
use webircgateway.Gateway.Server.{
  Gateway, handle_route, transport_route, add_transport, add_transports, general_routes,
  init_http_routes,
}

abbrev pub prepend : Option Bytes → List Bytes → List Bytes
prepend none routes = routes
prepend (some route) routes = route ∷ routes

-- The routes that a list of transports asks for, in its order; an unknown transport asks for none.
unfoldable pub wanted : List Bytes → List Bytes
wanted [] = []
wanted (t ∷ transports) = prepend (transport_route t) (wanted transports)

-- No route of `more` is among the ones that are there or repeats itself.
unfoldable pub all_new : List Bytes → List Bytes → Bool
all_new routes [] = true
all_new routes (r ∷ more) = not (string_in_slice r routes) && all_new (routes ++ r ∷ []) more

abbrev pub is_some_route : List Bytes → Bool
is_some_route [] = false
is_some_route (r ∷ routes) = true

-- What adding the transports comes to.
abbrev pub added : Gateway → Bool → List Bytes → Outcome (Gateway × Bool)
added g b more =
    if all_new g.routes more
    then ok (record g { routes = g.routes ++ more }, b || is_some_route more)
    else panic

or_false : (b : Bool) → b || false ≡ b
or_false true = refl
or_false false = refl

or_true : (b : Bool) → b || true ≡ true
or_true true = refl
or_true false = refl

-- One route more, in front of those of other transports.
add_one :
    (route : Bytes) (more : List Bytes) (g : Gateway) (b : Bool)
    (next : Gateway × Bool → Outcome (Gateway × Bool))
    → ((h : Gateway) → next (h, true) ≡ added h true more)
    → add_transport (some route) (g, b) >>= next ≡ added g b (route ∷ more)
unfolding add_transport handle_route all_new
add_one route more g b next rest = elim (Bool-cases (string_in_slice route g.routes)) [
  | inl e ↦ rw e refl
  | inr e ↦
      rw (e, or_true b)
        (rest (record g { routes = g.routes ++ route ∷ [] })
          ∙ rw (append_assoc g.routes (route ∷ []) more) refl)
]

add_transports_lem :
    (transports : List Bytes) (g : Gateway) (b : Bool)
    → add_transports transports (g, b) ≡ added g b (wanted transports)
unfolding add_transports all_new wanted
add_transports_lem [] g b = rw (append-nil g.routes, or_false b) refl
add_transports_lem (t ∷ transports) g b = elim (Option-cases (transport_route t)) [
  | inl e ↦ rw e (unfold add_transport in add_transports_lem transports g b)
  | inr (route, e) ↦ rw e (
      add_one route (wanted transports) g b (add_transports transports)
        (λ h. add_transports_lem transports h true))
]

abbrev pub info_routes : List Bytes
info_routes = codes "/webirc/info" ∷ codes "/webirc/_status" ∷ []

abbrev pub without_info : List Bytes → Bool
without_info routes =
    not (string_in_slice (codes "/webirc/info") routes)
    && not (string_in_slice (codes "/webirc/_status") routes)

string_in_slice-append :
    (x : Bytes) (s t : List Bytes)
    → string_in_slice x (s ++ t) ≡ string_in_slice x s || string_in_slice x t
unfolding string_in_slice
string_in_slice-append x [] t = refl
string_in_slice-append x (y ∷ s) t = ground (arith, string_in_slice-append x s t)

wanted-without : (transports : List Bytes) → without_info (wanted transports) ≡ true
unfolding wanted string_in_slice transport_route equal
wanted-without [] = refl
wanted-without (t ∷ transports) =
    let rest = wanted-without transports in
    elim (Bool-cases (equal t (codes "kiwiirc"))) [
      | inl e ↦ rw e rest
      | inr e ↦ elim (Bool-cases (equal t (codes "websocket"))) [
        | inl e' ↦ rw (e, e') rest
        | inr e' ↦ elim (Bool-cases (equal t (codes "sockjs"))) [
          | inl e'' ↦ rw (e, e', e'') rest
          | inr e'' ↦ rw (e, e', e'') rest
        ]
      ]
    ]

without_info-append :
    (s t : List Bytes)
    → without_info s ≡ true
    → without_info t ≡ true
    → without_info (s ++ t) ≡ true
without_info-append s t hs ht = ground (
  arith,
  string_in_slice-append (codes "/webirc/info") s t,
  string_in_slice-append (codes "/webirc/_status") s t,
)

general_routes_lem :
    (g : Gateway)
    → without_info g.routes ≡ true
    → general_routes (g, true) ≡ ok (record g { routes = g.routes ++ info_routes }, true)
unfolding general_routes handle_route string_in_slice equal
general_routes_lem g h =
    let first : string_in_slice (codes "/webirc/info") g.routes ≡ false = ground arith in
    let second : string_in_slice (codes "/webirc/_status") (g.routes ++ codes "/webirc/info" ∷ [])
        ≡ false =
      string_in_slice-append (codes "/webirc/_status") g.routes (codes "/webirc/info" ∷ [])
      ∙ ground arith in
    rw (first, second)
      (rw (append_assoc g.routes (codes "/webirc/info" ∷ []) (codes "/webirc/_status" ∷ [])) refl)

some_routes :
    (routes : List Bytes) (g : Gateway)
    → without_info (g.routes ++ routes) ≡ true
    → general_routes (record g { routes = g.routes ++ routes }, is_some_route routes)
      ≡ ok (
          if is_some_route routes
          then (record g { routes = g.routes ++ routes ++ info_routes }, true)
          else (g, false))
some_routes [] g h = unfold general_routes in rw (append-nil g.routes) refl
some_routes (r ∷ routes) g h =
    general_routes_lem (record g { routes = g.routes ++ r ∷ routes }) h
    ∙ rw (append_assoc g.routes (r ∷ routes) info_routes) refl

-- With routes that are none of the two for information: the routes become the ones there, one for each known transport in the
-- order of the configuration, and the two, and the call reports that there is an engine; without a known transport
-- nothing is added and it reports that; and it panics exactly if a transport's route is there already, which a transport
-- named twice makes happen.
pub init_http_routes_lem :
    (g : Gateway)
    → without_info g.routes ≡ true
    → let more = wanted g.config.server_transports in
      init_http_routes g ≡ (
        if all_new g.routes more
        then ok (
            if is_some_route more
            then (record g { routes = g.routes ++ more ++ info_routes }, true)
            else (g, false))
        else panic)
unfolding init_http_routes
init_http_routes_lem g h =
    let more = wanted g.config.server_transports in
    rw (add_transports_lem g.config.server_transports g false)
      (elim (Bool-cases (all_new g.routes more)) [
        | inl e ↦ rw e (
            some_routes more g
              (without_info-append g.routes more h (wanted-without g.config.server_transports)))
        | inr e ↦ rw e refl
      ])
