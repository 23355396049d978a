-- ===== src/Dnsbl/Lookup.antt =====
-- Lookup asks every list about every address, and lists the target when one of them does.
use webircgateway.Base.{
  ℕ, ◌+◌, ◌*◌, ◌≡◌, ◌⊎◌, inl, inr, refl, ap, ◌∙◌, Bool, true, false, ◌||◌, some, List, [], ◌∷◌,
  ◌++◌, arith, length, length-append, All, ok, panic, diverge, Returns,
}
use webircgateway.Text.Bytes.{Bytes}
use native.Mathlib.Nat.{suc-mul}
use webircgateway.Dnsbl.{
  to_dnsbl_hostname, Dns, ResultList, is_any_host, add_result, query, lookup_one, lookup_addrs,
  lookup_lists, lookup,
}
use webircgateway.Dnsbl.Names.{to_dnsbl_hostname_lem}

abbrev pub AddressSized : Bytes → Type 0
AddressSized ip = (length ip ≡ 4) ⊎ (length ip ≡ 16)

to_dnsbl_hostname-Returns :
    (ip : Bytes) → AddressSized ip → (name : Bytes) × (to_dnsbl_hostname ip ≡ ok name)
to_dnsbl_hostname-Returns ip h = elim (to_dnsbl_hostname_lem ip h) [
  | inl (ip4, p, q) ↦ (_, q)
  | inr (p, q) ↦ (_, q)
]

unfoldable pub any {ℓ} : {A : Type ℓ} → (A → Bool) → List A → Bool
any test [] = false
any test (x ∷ xs) = test x || any test xs

-- Whether the list has a host under the name of the address.
unfoldable pub lists : Dns → Bytes → Bytes → Bool
lists dns rbl addr = elim (to_dnsbl_hostname addr) [
  | ok name ↦ is_any_host (((dns.lookup_host (name ++ b'.' ∷ rbl)).0))
  | panic ↦ false
  | diverge ↦ false
]

sums : (n o b c : Bool) → n ≡ b → (n || o) || c ≡ o || (b || c)
sums true o b c e = ground arith
sums false o b c e = ground arith

groups : (o b c : Bool) → (o || b) || c ≡ o || (b || c)
groups true b c = refl
groups false b c = refl

module _ (dns : Dns) where
  query-listed :
      (rbl host : Bytes) (r : _)
      → (query dns rbl host r).listed ≡ is_any_host (((dns.lookup_host (host ++ b'.' ∷ rbl)).0))
  unfolding query
  query-listed rbl host r = ground arith

  lookup_one_lem :
      (rbl addr : Bytes)
      → AddressSized addr
      → Returns (lookup_one dns rbl addr) (λ res. res.listed ≡ lists dns rbl addr)
  unfolding lookup_one lists
  lookup_one_lem rbl addr h =
      let (name, e) = to_dnsbl_hostname-Returns addr h in
      let told : lists dns rbl addr ≡ is_any_host ((dns.lookup_host (name ++ b'.' ∷ rbl)).0) =
        rw (lists, e) refl in
      rw (told, e) (_, refl, query-listed rbl name _)

  Adds : ResultList → ℕ → Bool → ResultList → Type 0
  Adds r n b s = (s.listed ≡ r.listed || b) × (length s.results ≡ length r.results + n)

  lookup_addrs_lem :
      (rbl : Bytes) (addrs : List Bytes) (r : ResultList)
      → All AddressSized addrs
      → Returns (lookup_addrs dns rbl addrs r) (Adds r (length addrs) (any (lists dns rbl) addrs))
  unfolding lookup_addrs Adds any
  lookup_addrs_lem rbl [] r h = (r, refl, (ground arith, omega arith))
  lookup_addrs_lem rbl (addr ∷ addrs) r (s, h) =
      let (res, e, l) = lookup_one_lem rbl addr s in
      let (t, e', (l', n)) = lookup_addrs_lem rbl addrs (add_result dns r res) h in
      rw e (
        t,
        e',
        (
          l' ∙ sums res.listed r.listed (lists dns rbl addr) (any (lists dns rbl) addrs) l,
          omega (arith, n, length-append r.results (res ∷ [])),
        ),
      )

  lookup_lists_lem :
      (rbls addrs : List Bytes) (r : ResultList)
      → All AddressSized addrs
      → Returns
          (lookup_lists dns rbls addrs r)
          (Adds r (length rbls * length addrs) (any (λ rbl. any (lists dns rbl) addrs) rbls))
  unfolding lookup_lists Adds any
  lookup_lists_lem [] addrs r h = (r, refl, (ground arith, omega arith))
  lookup_lists_lem (rbl ∷ rbls) addrs r h =
      let (s, e, (l, n)) = lookup_addrs_lem rbl addrs r h in
      let (t, e', (l', n')) = lookup_lists_lem rbls addrs s h in
      rw e (
        t,
        e',
        (
          l'
              ∙ ap (λ b. b || any (λ rbl. any (lists dns rbl) addrs) rbls) l
              ∙ groups r.listed (any (lists dns rbl) addrs) _,
          n' ∙ omega (arith, n, suc-mul (length rbls) (length addrs)),
        ),
      )

  -- When the target's addresses have 4 or 16 bytes, Lookup returns, with one result for each list and address, and
  -- the target is listed if and only if some list has a host under the name of some address.
  pub lookup_lem :
      (rbls : List Bytes) (target : Bytes) (addrs : List Bytes)
      → dns.lookup_ip target ≡ some addrs
      → All AddressSized addrs
      → Returns (lookup dns rbls target) (λ r.
        (r.listed ≡ any (λ rbl. any (lists dns rbl) addrs) rbls)
        × (length r.results ≡ length rbls * length addrs))
  unfolding lookup Adds
  lookup_lem rbls target addrs e h =
      let (r, e', (l, n)) =
        lookup_lists_lem rbls addrs (record { listed = false; results = [] }) h in
      rw e (r, e', (l, n ∙ omega arith))
