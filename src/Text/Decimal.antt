-- ===== src/Text/Decimal.antt =====
-- The decimal print of a natural number, as fmt.Sprintf("%d", n) and strconv.Itoa write it.
use webircgateway.Base.{
  ℕ, zero, suc, ◌+◌, ◌-◌, ◌*◌, ◌/◌, ◌%◌, ◌≤◌, ◌<◌, ◌≡◌, inl, inr, refl, sym, ap, ◌∙◌, [], ◌∷◌,
  arith, ltb, if◌then◌else◌, Bool-cases, length, All,
}
use webircgateway.Text.Bytes.{Bytes, Lacks}

-- The digits of n in front of `out`; the fuel bounds their number.
digits : ℕ → ℕ → Bytes → Bytes
digits zero n out = out
digits (suc fuel) n out =
    let rest = digits fuel (n / 10) ((b'0' + n % 10) ∷ out) in
    if ltb n 10 then (b'0' + n) ∷ out else rest

unfoldable pub format : ℕ → Bytes
unfolding digits
format n = digits (suc n) n []

abbrev value_step : ℕ → ℕ → ℕ
value_step n c = n * 10 + (c - b'0')

-- The number that digits spell behind n.
pub value : ℕ → Bytes → ℕ
value n [] = n
value n (c ∷ s) = value (value_step n c) s

value-digits : (fuel n : ℕ) (out : Bytes) → n < fuel → value 0 (digits fuel n out) ≡ value n out
unfolding digits value
value-digits zero n out h = absurd (omega arith)
value-digits (suc fuel) n out h = elim (Bool-cases (ltb n 10)) [
  | inl e ↦ rw e (ap (λ k. value k out) (omega arith))
  | inr e ↦ rw e (
      value-digits fuel (n / 10) ((b'0' + n % 10) ∷ out) (ground arith)
      ∙ ap (λ k. value k out) (omega arith))
]

-- The print spells the number, so no two numbers are printed alike.
pub value-format : (n : ℕ) → value 0 (format n) ≡ n
value-format n = unfold format in value-digits (suc n) n [] (omega arith) ∙ unfold value in refl

pub format-injective : (a b : ℕ) → format a ≡ format b → a ≡ b
format-injective a b e = sym (value-format a) ∙ ap (value 0) e ∙ value-format b

digits-Lacks :
    (sep fuel n : ℕ) (out : Bytes) → sep < b'0' → Lacks sep out → Lacks sep (digits fuel n out)
unfolding digits
digits-Lacks sep zero n out h l = l
digits-Lacks sep (suc fuel) n out h l = elim (Bool-cases (ltb n 10)) [
  | inl e ↦ rw e (omega arith, l)
  | inr e ↦ rw e (digits-Lacks sep fuel (n / 10) ((b'0' + n % 10) ∷ out) h (omega arith, l))
]

-- A byte below "0", such as a dash or a space, stands in no print.
pub format-Lacks : (sep n : ℕ) → sep < b'0' → Lacks sep (format n)
unfolding format
format-Lacks sep n h = digits-Lacks sep (suc n) n [] h tt

abbrev pub IsDigit : ℕ → Type 0
IsDigit c = (b'0' ≤ c) × (c ≤ b'9')

digits-IsDigit : (fuel n : ℕ) (out : Bytes) → All IsDigit out → All IsDigit (digits fuel n out)
unfolding digits
digits-IsDigit zero n out h = h
digits-IsDigit (suc fuel) n out h = elim (Bool-cases (ltb n 10)) [
  | inl e ↦ rw e ((omega arith, ground arith), h)
  | inr e ↦
      rw e (digits-IsDigit fuel (n / 10) ((b'0' + n % 10) ∷ out) ((omega arith, omega arith), h))
]

pub format-IsDigit : (n : ℕ) → All IsDigit (format n)
unfolding format
format-IsDigit n = digits-IsDigit (suc n) n [] tt

digits-longer : (fuel n : ℕ) (out : Bytes) → length out ≤ length (digits fuel n out)
unfolding digits
digits-longer zero n out = omega arith
digits-longer (suc fuel) n out = elim (Bool-cases (ltb n 10)) [
  | inl e ↦ rw e (omega arith)
  | inr e ↦ rw e (omega (arith, digits-longer fuel (n / 10) ((b'0' + n % 10) ∷ out)))
]

-- A number has a digit.
pub length-format : (n : ℕ) → 0 < length (format n)
unfolding format digits
length-format n = elim (Bool-cases (ltb n 10)) [
  | inl e ↦ rw e (omega arith)
  | inr e ↦ rw e (omega (arith, digits-longer n (n / 10) ((b'0' + n % 10) ∷ [])))
]
