-- ===== src/Text/Octal.antt =====
-- strconv.ParseInt(s, 8, 32)
use webircgateway.Base.{
  ℕ, zero, suc, ◌+◌, ◌-◌, ◌*◌, Bool, true, false, ◌&&◌, Option, none, some, [], ◌∷◌, ltb, leb, ◌==◌,
  if◌then◌else◌, ℤ, pos, negsuc,
}
use webircgateway.Text.Bytes.{Bytes}

octal_step : Option ℕ → ℕ → Option ℕ
octal_step none c = none
octal_step (some n) c = if leb b'0' c && leb c b'7' then some (n * 8 + (c - b'0')) else none

octal_value : Option ℕ → Bytes → Option ℕ
octal_value n [] = n
octal_value n (c ∷ s) = octal_value (octal_step n c) s

in_range : Bool → ℕ → Option ℤ
in_range false n = if ltb n 2147483648 then some (pos n) else none
in_range true zero = some (pos 0)
in_range true (suc n) = if ltb n 2147483648 then some (negsuc n) else none

octal_digits : Bool → Bytes → Option ℤ
octal_digits minus [] = none
octal_digits minus (c ∷ s) = elim (octal_value (some 0) (c ∷ s)) [
  | none ↦ none
  | some n ↦ in_range minus n
]

-- A number of 32 bits with a sign; none is an error.
unfoldable pub parse_octal : Bytes → Option ℤ
unfolding octal_digits in_range octal_value octal_step
parse_octal [] = none
parse_octal (c ∷ s) =
    if c == b'-'
    then octal_digits true s
    else if c == b'+'
    then octal_digits false s
    else octal_digits false (c ∷ s)
