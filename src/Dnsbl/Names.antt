-- ===== src/Dnsbl/Names.antt =====
-- The name of an address: its octets, or the digits of its 16 bytes, in reverse.
use webircgateway.Base.{
  ℕ, zero, suc, ◌-◌, ◌*◌, ◌/◌, ◌%◌, ◌≤◌, ◌≡◌, ◌≢◌, ◌⊎◌, inl, inr, refl, ap, ◌∙◌, none, some, List,
  [], ◌∷◌, ◌++◌, map, arith, ltb, Option-cases, length, take, drop, length-drop, All, ok, Returns,
}
use webircgateway.Text.Bytes.{Bytes, Lacks}
use webircgateway.Text.Index.{slice, split, split-Lacks, split-append}
use mathlib.Core.List.{reverse}
use webircgateway.Text.Index.{split-Lacks, split-append}
use webircgateway.Text.Decimal.{format, format-Lacks}
use webircgateway.Dnsbl.{
  to4, join_dots, hex_digit, hex_encode, colon_groups, expand_ipv6, drop_colons, reversed_octets,
  reversed_chars, one_char, dnsbl_name, to_dnsbl_hostname,
}
use webircgateway.Dnsbl.Reverse.{swap_while-reverse, half-AgreesOn, ltb-AgreesOn}

split-join_dots :
    (p : Bytes) (ps : List Bytes)
    → All (Lacks b'.') (p ∷ ps)
    → split (join_dots (p ∷ ps)) b'.' ≡ p ∷ ps
unfolding join_dots
split-join_dots p [] (h, _) = split-Lacks p b'.' h
split-join_dots p (q ∷ ps) (h, hs) =
    split-append p (join_dots (q ∷ ps)) b'.' h ∙ ap (◌∷◌ p) (split-join_dots q ps hs)

octets-Lacks : (ip : Bytes) → All (Lacks b'.') (map format ip)
octets-Lacks [] = tt
octets-Lacks (n ∷ ip) = (format-Lacks b'.' n (omega arith), octets-Lacks ip)

length-to4 : (ip ip4 : Bytes) → to4 ip ≡ some ip4 → length ip4 ≡ 4
unfolding to4
length-to4 ip ip4 e = ground (arith, length-drop 12 ip)

hex_digit-ne-colon : (n : ℕ) → hex_digit n ≢ b':'
unfolding hex_digit
hex_digit-ne-colon n = ground arith

hex_encode-Lacks : (ip : Bytes) → Lacks b':' (hex_encode ip)
unfolding hex_encode
hex_encode-Lacks [] = tt
hex_encode-Lacks (b ∷ ip) =
    (hex_digit-ne-colon (b / 16), (hex_digit-ne-colon (b % 16), hex_encode-Lacks ip))

length-hex_encode : (ip : Bytes) → length (hex_encode ip) ≡ 2 * length ip
unfolding hex_encode
length-hex_encode [] = refl
length-hex_encode (b ∷ ip) = omega (arith, length-hex_encode ip)

drop_colons-append : (s t : Bytes) → drop_colons (s ++ t) ≡ drop_colons s ++ drop_colons t
unfolding drop_colons
drop_colons-append [] t = refl
drop_colons-append (c ∷ s) t = ground (arith, drop_colons-append s t)

drop_colons-Lacks : (s : Bytes) → Lacks b':' s → drop_colons s ≡ s
unfolding drop_colons
drop_colons-Lacks [] h = refl
drop_colons-Lacks (c ∷ s) (d, h) = ground (arith, drop_colons-Lacks s h)

-- Slices that follow each other, up to the end.
Covers : ℕ → ℕ → List (ℕ × ℕ) → Type 0
Covers n lo [] = lo ≡ n
Covers n lo ((a, b) ∷ groups) = (a ≡ lo) × (lo ≤ b) × (b ≤ n) × Covers n b groups

Lacks-take : (n : ℕ) (s : Bytes) → Lacks b':' s → Lacks b':' (take n s)
Lacks-take zero s h = tt
Lacks-take (suc n) [] h = tt
Lacks-take (suc n) (c ∷ s) (d, h) = (d, Lacks-take n s h)

Lacks-drop : (n : ℕ) (s : Bytes) → Lacks b':' s → Lacks b':' (drop n s)
Lacks-drop zero s h = h
Lacks-drop (suc n) [] h = tt
Lacks-drop (suc n) (c ∷ s) (d, h) = Lacks-drop n s h

take-nil : (A : Type 0) (n : ℕ) → take {A = A} n [] ≡ []
take-nil A zero = refl
take-nil A (suc n) = refl

take-extend :
    {A : Type 0} (lo hi : ℕ) (s : List A)
    → lo ≤ hi
    → take lo s ++ take (hi - lo) (drop lo s) ≡ take hi s
take-extend zero hi s h = ap (λ n. take n s) (omega arith)
take-extend (suc lo) zero s h = absurd (omega arith)
take-extend {A} (suc lo) (suc hi) [] h = take-nil A (suc hi - suc lo)
take-extend (suc lo) (suc hi) (x ∷ s) h =
    let same : suc hi - suc lo ≡ hi - lo = omega arith in
    rw same (ap (◌∷◌ x) (take-extend lo hi s (omega arith)))

take_whole : (s : Bytes) → take (length s) s ≡ s
take_whole [] = refl
take_whole (c ∷ s) = ap (◌∷◌ c) (take_whole s)

-- One more group behind what has been written.
next_group :
    (dst out : Bytes) (lo hi : ℕ)
    → Lacks b':' dst
    → lo ≤ hi
    → drop_colons out ≡ take lo dst
    → drop_colons (out ++ b':' ∷ take (hi - lo) (drop lo dst)) ≡ take hi dst
unfolding drop_colons
next_group dst out lo hi l h e =
    let part =
      drop_colons-Lacks (take (hi - lo) (drop lo dst))
        (Lacks-take (hi - lo) (drop lo dst) (Lacks-drop lo dst l)) in
    drop_colons-append out (b':' ∷ take (hi - lo) (drop lo dst))
    ∙ rw (e, part) (take-extend lo hi dst h)

colon_groups_lem :
    (dst : Bytes)
    → Lacks b':' dst
    → (groups : List (ℕ × ℕ)) (lo : ℕ) (out : Bytes) → Covers (length dst) lo groups
    → drop_colons out ≡ take lo dst
    → Returns (colon_groups dst groups out) (λ r. drop_colons r ≡ dst)
unfolding colon_groups Covers
colon_groups_lem dst l [] lo out c e = (out, refl, e ∙ rw c (take_whole dst))
colon_groups_lem dst l ((a, b) ∷ groups) lo out (same, from, to, c) e =
    let part : slice dst a b ≡ ok (take (b - lo) (drop lo dst)) = unfold slice in ground arith in
    rw part (
      colon_groups_lem dst l groups b (out ++ b':' ∷ take (b - lo) (drop lo dst)) c
        (next_group dst out lo b l from e))

seven_groups :
    (n : ℕ)
    → n ≡ 32
    → Covers n 4 ((4, 8) ∷ (8, 12) ∷ (12, 16) ∷ (16, 20) ∷ (20, 24) ∷ (24, 28) ∷ (28, n) ∷ [])
unfolding Covers
seven_groups n e = (
  refl,
  omega arith,
  omega arith,
  (
    refl,
    omega arith,
    omega arith,
    (
      refl,
      omega arith,
      omega arith,
      (
        refl,
        omega arith,
        omega arith,
        (
          refl,
          omega arith,
          omega arith,
          (refl, omega arith, omega arith, (refl, omega arith, omega arith, refl)),
        ),
      ),
    ),
  ),
)

-- An address of 16 bytes expands to its digits with colons between.
expand_ipv6_lem :
    (ip : Bytes) → length ip ≡ 16 → Returns (expand_ipv6 ip) (λ r. drop_colons r ≡ hex_encode ip)
unfolding expand_ipv6 Covers
expand_ipv6_lem ip e =
    let dst = hex_encode ip in
    let size : length dst ≡ 32 = length-hex_encode ip ∙ omega arith in
    let first : slice dst 0 4 ≡ ok (take 4 dst) = unfold slice in ground arith in
    let l = hex_encode-Lacks ip in
    rw first (
      colon_groups_lem dst l
        ((4, 8) ∷ (8, 12) ∷ (12, 16) ∷ (16, 20) ∷ (20, 24) ∷ (24, 28) ∷ (28, length dst) ∷ []) 4
        (take 4 dst) (seven_groups (length dst) size)
        (drop_colons-Lacks (take 4 dst) (Lacks-take 4 dst l)))

reversed_octets_lem : (parts : List Bytes) → reversed_octets parts ≡ ok (reverse parts)
unfolding reversed_octets
reversed_octets_lem parts =
    swap_while-reverse (λ i j. ltb i (length parts / 2)) parts (half-AgreesOn (length parts))

reversed_chars_lem : (chars : Bytes) → reversed_chars chars ≡ ok (reverse chars)
unfolding reversed_chars
reversed_chars_lem chars = swap_while-reverse ltb chars (ltb-AgreesOn (length chars))

dnsbl_name-ipv4 :
    (ip ip4 : Bytes)
    → length ip4 ≡ 4
    → dnsbl_name ip (some ip4) ≡ ok (join_dots (reverse (map format ip4)))
unfolding dnsbl_name
dnsbl_name-ipv4 ip [] e = absurd (omega arith)
dnsbl_name-ipv4 ip (n ∷ ns) e =
    rw (split-join_dots (format n) (map format ns) (octets-Lacks (n ∷ ns)))
      (rw (reversed_octets_lem (map format (n ∷ ns))) refl)

dnsbl_name-ipv6 :
    (ip : Bytes)
    → length ip ≡ 16
    → dnsbl_name ip none ≡ ok (join_dots (map one_char (reverse (hex_encode ip))))
unfolding dnsbl_name
dnsbl_name-ipv6 ip e =
    let (text, p, q) = expand_ipv6_lem ip e in
    rw (p, q) (rw (reversed_chars_lem (hex_encode ip)) refl)

size-to4 : (ip : Bytes) → (length ip ≡ 4) ⊎ (length ip ≡ 16) → to4 ip ≡ none → length ip ≡ 16
unfolding to4
size-to4 ip (inl four) n = absurd (ground arith)
size-to4 ip (inr long) n = long

-- The name of an address has its parts in reverse, with dots between: the decimal prints of the four bytes for an IPv4
-- address, in 4 bytes or mapped into 16, and the 32 hexadecimal digits for any other address of 16 bytes. No slice
-- panics and both swap loops end.
pub to_dnsbl_hostname_lem :
    (ip : Bytes)
    → (length ip ≡ 4) ⊎ (length ip ≡ 16)
    → ((ip4 : Bytes) × (to4 ip ≡ some ip4)
        × (to_dnsbl_hostname ip ≡ ok (join_dots (reverse (map format ip4)))))
      ⊎ ((to4 ip ≡ none)
          × (to_dnsbl_hostname ip ≡ ok (join_dots (map one_char (reverse (hex_encode ip))))))
unfolding to_dnsbl_hostname
to_dnsbl_hostname_lem ip h = elim (Option-cases (to4 ip)) [
  | inl n ↦ inr (n, rw n (dnsbl_name-ipv6 ip (size-to4 ip h n)))
  | inr (ip4, p) ↦ inl (ip4, p, rw p (dnsbl_name-ipv4 ip ip4 (length-to4 ip ip4 p)))
]
