-- ===== src/Text/Atoi.antt =====
-- strconv.Atoi and strings.LastIndex at a separator of one byte.
use webircgateway.Base.{
  ℕ, zero, suc, ◌<◌, ◌≡◌, refl, ap, ◌∙◌, Bool, true, false, ◌&&◌, Option, none, some, [], ◌∷◌, ◌++◌,
  arith, ltb, leb, ◌==◌, if◌then◌else◌, length, All, ℤ, pos, negsuc,
}
use webircgateway.Text.Bytes.{Bytes, Lacks}
use webircgateway.Text.Decimal.{format, value, value-format, IsDigit, format-IsDigit, length-format}

all_digits : Bytes → Bool
all_digits [] = true
all_digits (c ∷ s) = leb b'0' c && leb c b'9' && all_digits s

-- A number of 64 bits with a sign; none is an error.
bounded : Bool → ℕ → Option ℤ
bounded false n = if ltb n 9223372036854775808 then some (pos n) else none
bounded true zero = some (pos 0)
bounded true (suc n) = if ltb n 9223372036854775808 then some (negsuc n) else none

digits_only : Bool → Bytes → Option ℤ
digits_only minus [] = none
digits_only minus (c ∷ s) = if all_digits (c ∷ s) then bounded minus (value 0 (c ∷ s)) else none

unfoldable pub atoi : Bytes → Option ℤ
unfolding digits_only bounded all_digits
atoi [] = none
atoi (c ∷ s) =
    if c == b'-'
    then digits_only true s
    else if c == b'+'
    then digits_only false s
    else digits_only false (c ∷ s)

-- The last position of b; none is Go's -1.
unfoldable pub last_index : Bytes → ℕ → Option ℕ
last_index [] b = none
last_index (c ∷ s) b = elim (last_index s b) [
  | some i ↦ some (suc i)
  | none ↦ if c == b then some 0 else none
]

all_digits-IsDigit : (s : Bytes) → All IsDigit s → all_digits s ≡ true
unfolding all_digits
all_digits-IsDigit [] h = refl
all_digits-IsDigit (c ∷ s) (d, h) = ground (arith, all_digits-IsDigit s h)

atoi-digits :
    (s : Bytes)
    → 0 < length s
    → All IsDigit s
    → value 0 s < 9223372036854775808
    → atoi s ≡ some (pos (value 0 s))
unfolding atoi digits_only bounded
atoi-digits [] l h small = absurd (omega arith)
atoi-digits (c ∷ s) l (d, h) small =
    let no_minus : (c == b'-') ≡ false = ground arith in
    let no_plus : (c == b'+') ≡ false = ground arith in
    let fits : ltb (value 0 (c ∷ s)) 9223372036854775808 ≡ true = ground arith in
    rw no_minus (rw no_plus (rw (all_digits-IsDigit (c ∷ s) (d, h)) (rw fits refl)))

-- Atoi reads what Sprintf prints of a number below two to the sixty-third.
pub atoi-format : (n : ℕ) → n < 9223372036854775808 → atoi (format n) ≡ some (pos n)
atoi-format n small =
    atoi-digits (format n) (length-format n) (format-IsDigit n) (rw (value-format n) small)
    ∙ ap (λ k. some (pos k)) (value-format n)

pub last_index-Lacks : (s : Bytes) (b : ℕ) → Lacks b s → last_index s b ≡ none
unfolding last_index
last_index-Lacks [] b h = refl
last_index-Lacks (c ∷ s) b (d, h) =
    let other : (c == b) ≡ false = ground arith in rw (last_index-Lacks s b h) (rw other refl)

-- The last occurrence stands in front of a text that lacks the byte.
pub last_index-append :
    (a r : Bytes) (b : ℕ) → Lacks b r → last_index (a ++ b ∷ r) b ≡ some (length a)
unfolding last_index
last_index-append [] r b h =
    let same : (b == b) ≡ true = ground arith in rw (last_index-Lacks r b h) (rw same refl)
last_index-append (c ∷ a) r b h = rw (last_index-append a r b h) refl
