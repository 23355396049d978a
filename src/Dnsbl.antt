-- ===== src/Dnsbl.antt =====
-- pkg/dnsbl/dnsbl.go: the name under which a blocklist has an address, and the queries for it. A net.IP is the
-- list of its 4 or 16 bytes.
pub mod Lookup
pub mod Tests
pub mod Names
pub mod Reverse
use webircgateway.Base.{
  ℕ, zero, suc, ◌+◌, ◌-◌, ◌/◌, ◌%◌, Bool, true, false, ◌&&◌, ◌||◌, Option, none, some, List, [],
  ◌∷◌, ◌++◌, map, ltb, ◌==◌, if◌then◌else◌, length, get_elem?, set, take, drop, Outcome, ok,
  diverge, ◌>>=◌, or_panic,
}
use webircgateway.Text.Bytes.{Bytes, equal}
use webircgateway.Text.Index.{slice, split}
use webircgateway.Text.Decimal.{format}

-- A loop that swaps the items at i and j, with i going up and j going down while the test holds. Fuel: the length
-- of the list is more than the rounds. Go's j may fall to -1, where this one stays at 0; no test holds there.
unfoldable pub swap_while : {A : Type 0} → (ℕ → ℕ → Bool) → ℕ → ℕ → ℕ → List A → Outcome (List A)
swap_while test zero i j xs = diverge
swap_while test (suc fuel) i j xs =
    let swapped = or_panic (get_elem? xs i) >>= λ a. or_panic (get_elem? xs j) >>= λ b.
    swap_while test fuel (i + 1) (j - 1) (set (set xs i b) j a) in
    if test i j then swapped else ok xs

-- ip.To4()
unfoldable pub to4 : Bytes → Option Bytes
unfolding equal
to4 ip =
    if length ip == 4
    then some ip
    else if length ip == 16
        && equal (take 12 ip) (0 ∷ 0 ∷ 0 ∷ 0 ∷ 0 ∷ 0 ∷ 0 ∷ 0 ∷ 0 ∷ 0 ∷ 255 ∷ 255 ∷ [])
    then some (drop 12 ip)
    else none

-- strings.Join(parts, ".")
unfoldable pub join_dots : List Bytes → Bytes
join_dots [] = []
join_dots (p ∷ []) = p
join_dots (p ∷ q ∷ ps) = p ++ b'.' ∷ join_dots (q ∷ ps)

-- The text of an address of 4 bytes.
abbrev pub ipv4_text : Bytes → Bytes
ipv4_text ip = join_dots (map format ip)

unfoldable pub hex_digit : ℕ → ℕ
hex_digit n = if ltb n 10 then b'0' + n else 87 + n

-- hex.Encode
unfoldable pub hex_encode : Bytes → Bytes
hex_encode [] = []
hex_encode (b ∷ ip) = hex_digit (b / 16) ∷ hex_digit (b % 16) ∷ hex_encode ip

-- The slices of expandIPv6, with a colon in front of all but the first.
pub colon_groups : Bytes → List (ℕ × ℕ) → Bytes → Outcome Bytes
colon_groups dst [] out = ok out
colon_groups dst ((lo, hi) ∷ groups) out =
    slice dst lo hi >>= λ group. colon_groups dst groups (out ++ b':' ∷ group)

unfoldable pub expand_ipv6 : Bytes → Outcome Bytes
unfolding colon_groups
expand_ipv6 ip =
    let dst = hex_encode ip in
    slice dst 0 4
    >>= colon_groups dst
        ((4, 8) ∷ (8, 12) ∷ (12, 16) ∷ (16, 20) ∷ (20, 24) ∷ (24, 28) ∷ (28, length dst) ∷ [])

-- strings.ReplaceAll(s, ":", "")
unfoldable pub drop_colons : Bytes → Bytes
drop_colons [] = []
drop_colons (c ∷ s) = let rest = drop_colons s in if c == b':' then rest else c ∷ rest

pub reversed_octets : List Bytes → Outcome (List Bytes)
reversed_octets parts =
    swap_while (λ i j. ltb i (length parts / 2)) (suc (length parts)) 0 (length parts - 1) parts

pub reversed_chars : Bytes → Outcome Bytes
reversed_chars chars = swap_while ltb (suc (length chars)) 0 (length chars - 1) chars

abbrev one_char : ℕ → Bytes
one_char c = c ∷ []

pub dnsbl_name : Bytes → Option Bytes → Outcome Bytes
dnsbl_name ip (some ip4) =
    reversed_octets (split (ipv4_text ip4) b'.') >>= λ parts. ok (join_dots parts)
dnsbl_name ip none = do
  text ← expand_ipv6 ip
  chars ← reversed_chars (drop_colons text)
  ok (join_dots (map one_char chars))

unfoldable pub to_dnsbl_hostname : Bytes → Outcome Bytes
unfolding reversed_octets reversed_chars dnsbl_name
to_dnsbl_hostname ip = dnsbl_name ip (to4 ip)

-- What DNS answers: LookupIP with the addresses, or none for an error; LookupHost with its hosts, and whether there is
-- an error; LookupTXT with its texts. And the text of an address.
pub record Dns : Type 0 where
  pub lookup_ip : Bytes → Option (List Bytes)
  pub lookup_host : Bytes → List Bytes × Bool
  pub lookup_txt : Bytes → List Bytes
  pub ip_text : Bytes → Bytes

-- The error itself is left out.
pub record DnsblResult : Type 0 where
  pub blacklist : Bytes
  pub address : Bytes
  pub listed : Bool
  pub text : Bytes
  pub error : Bool

pub record ResultList : Type 0 where
  pub listed : Bool
  pub results : List DnsblResult

pub first_text : List Bytes → Bytes → Bytes
first_text [] text = text
first_text (t ∷ ts) text = t

abbrev is_any_host : List Bytes → Bool
is_any_host [] = false
is_any_host (h ∷ hosts) = true

module _ (dns : Dns) where
  unfoldable pub query : Bytes → Bytes → DnsblResult → DnsblResult
  unfolding first_text
  query rbl host r =
      let name = host ++ b'.' ∷ rbl in
      let (hosts, err) = dns.lookup_host name in
      let told : DnsblResult =
        if is_any_host hosts
        then record r { listed = true; text = first_text (dns.lookup_txt name) r.text }
        else record r { listed = false } in
      if err then record told { error = true } else told

  pub lookup_one : Bytes → Bytes → Outcome DnsblResult
  lookup_one rbl addr = to_dnsbl_hostname addr >>= λ host. ok (
      query rbl host (record {
        blacklist = rbl;
        address = dns.ip_text addr;
        listed = false;
        text = [];
        error = false;
      }))

  abbrev add_result : ResultList → DnsblResult → ResultList
  add_result r res = record { listed = res.listed || r.listed; results = r.results ++ res ∷ [] }

  pub lookup_addrs : Bytes → List Bytes → ResultList → Outcome ResultList
  lookup_addrs rbl [] r = ok r
  lookup_addrs rbl (addr ∷ addrs) r =
      lookup_one rbl addr >>= λ res. lookup_addrs rbl addrs (add_result r res)

  pub lookup_lists : List Bytes → List Bytes → ResultList → Outcome ResultList
  lookup_lists [] addrs r = ok r
  lookup_lists (rbl ∷ rbls) addrs r = lookup_addrs rbl addrs r >>= lookup_lists rbls addrs

  pub lookup_all : List Bytes → Option (List Bytes) → Outcome ResultList
  lookup_all rbls none = ok (record { listed = false; results = [] })
  lookup_all rbls (some addrs) = lookup_lists rbls addrs (record { listed = false; results = [] })

  unfoldable pub lookup : List Bytes → Bytes → Outcome ResultList
  unfolding lookup_one lookup_addrs lookup_lists lookup_all
  lookup rbls target = lookup_all rbls (dns.lookup_ip target)
