-- ===== src/Gateway/Replace.antt =====
-- pkg/webircgateway/utils.go: the replacements in configured user names, real names and host names.
use webircgateway.Base.{
  ℕ, zero, suc, ◌+◌, ◌/◌, ◌%◌, ◌&&◌, List, [], ◌∷◌, ◌++◌, ltb, ◌==◌, if◌then◌else◌, ℤ, pos, negsuc,
}
use webircgateway.Text.Bytes.{Bytes}
use webircgateway.Gateway.Client.{Client}

-- strings.Replace(s, "%x", v, -1) for the byte x
unfoldable pub replace_mark : ℕ → Bytes → Bytes → Bytes
replace_mark x v [] = []
replace_mark x v (c ∷ []) = c ∷ []
replace_mark x v (c ∷ d ∷ s) =
    let behind = replace_mark x v s in
    let next = replace_mark x v (d ∷ s) in if c == b'%' && d == x then v ++ behind else c ∷ next

abbrev hex_digit : ℕ → ℕ
hex_digit n = if ltb n 10 then b'0' + n else 87 + n

-- The hexadecimal digits of n in front of `out`; the fuel bounds their number.
hex_onto : ℕ → ℕ → Bytes → Bytes
hex_onto zero n out = out
hex_onto (suc fuel) n out =
    let more = hex_onto fuel (n / 16) (hex_digit (n % 16) ∷ out) in
    if ltb n 16 then hex_digit n ∷ out else more

-- %02x: a minus sign counts for the width of two.
pub hex_pair : ℤ → Bytes
hex_pair (pos n) = if ltb n 16 then b'0' ∷ hex_digit n ∷ [] else hex_onto (suc n) n []
hex_pair (negsuc n) = b'-' ∷ hex_onto (suc (suc n)) (suc n) []

pub hex_pairs : List ℤ → Bytes
hex_pairs [] = []
hex_pairs (part ∷ parts) = hex_pair part ++ hex_pairs parts

module _ (scan : Bytes → List ℤ) where
  -- `scan` reads the four parts, 0 where Sscanf reads none.
  unfoldable pub ipv4_to_hex : Bytes → Bytes
  unfolding hex_pairs hex_pair hex_onto
  ipv4_to_hex ip = hex_pairs (scan ip)

  unfoldable pub make_client_replacements : Bytes → Client → Bytes
  make_client_replacements format c = replace_mark b'n' c.irc_state.nick (
      replace_mark b'h' c.remote_hostname
        (replace_mark b'i' (ipv4_to_hex c.remote_addr) (replace_mark b'a' c.remote_addr format)))
