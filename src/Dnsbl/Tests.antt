-- ===== src/Dnsbl/Tests.antt =====
-- A blocklist and an address at concrete values.
use webircgateway.Base.{
  ◌*◌, ◌≡◌, ◌⊎◌, inl, refl, true, false, none, some, [], ◌∷◌, map, if◌then◌else◌, length, ok,
  Returns,
}
use webircgateway.Text.Bytes.{Bytes, codes, equal}
use webircgateway.Text.Index.{split}
use mathlib.Core.List.{reverse}
use webircgateway.Text.Decimal.{format}
use webircgateway.Dnsbl.{
  to4, join_dots, hex_encode, one_char, to_dnsbl_hostname, Dns, lookup, swap_while,
}
use webircgateway.Dnsbl.Names.{to_dnsbl_hostname_lem}
use webircgateway.Dnsbl.Lookup.{any, lists, lookup_lem}

-- 127.0.0.2
abbrev pub home : Bytes
home = 127 ∷ 0 ∷ 0 ∷ 2 ∷ []

home_name : to_dnsbl_hostname home ≡ ok (codes "2.0.0.127")
unfolding to_dnsbl_hostname to4 join_dots split format swap_while
home_name = refl

-- A resolver that knows one blocklist with one listed address.
abbrev pub dns : Dns
dns = record {
  lookup_ip = λ host. some (home ∷ []);
  lookup_host = λ name.
      if equal name (codes "2.0.0.127.bl.example")
      then (codes "127.0.0.2" ∷ [], false)
      else ([], true);
  lookup_txt = λ name. codes "spam" ∷ [];
  ip_text = λ ip. codes "127.0.0.2";
}

to_dnsbl_hostname_lem_example :
    ((ip4 : Bytes) × (to4 home ≡ some ip4)
      × (to_dnsbl_hostname home ≡ ok (join_dots (reverse (map format ip4)))))
    ⊎ ((to4 home ≡ none)
        × (to_dnsbl_hostname home ≡ ok (join_dots (map one_char (reverse (hex_encode home))))))
to_dnsbl_hostname_lem_example = to_dnsbl_hostname_lem home (inl refl)

lookup_lem_example : Returns (lookup dns (codes "bl.example" ∷ []) (codes "host.example")) (λ r.
    (r.listed ≡ any (λ rbl. any (lists dns rbl) (home ∷ [])) (codes "bl.example" ∷ []))
    × (length r.results ≡ length (codes "bl.example" ∷ []) * length (home ∷ [])))
lookup_lem_example =
    lookup_lem dns (codes "bl.example" ∷ []) (codes "host.example") (home ∷ []) refl (inl refl, tt)
