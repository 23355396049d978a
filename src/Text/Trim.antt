-- ===== src/Text/Trim.antt =====
-- strings.Trim leaves alone a text with no byte of the cutset.
use mathlib.Core.List.{reverse, reverse-cons, reverse-reverse}
use webircgateway.Base.{ℕ, ◌≡◌, refl, Bool, false, [], ◌∷◌, All, All-append}
use webircgateway.Text.Bytes.{Bytes, trim_left, trim, is_newline}

-- No carriage return and no line feed.
abbrev pub Clean : Bytes → Type 0
Clean = All (λ c. is_newline c ≡ false)

trim_left-All : (p : ℕ → Bool) (s : Bytes) → All (λ c. p c ≡ false) s → trim_left p s ≡ s
unfolding trim_left
trim_left-All p [] h = refl
trim_left-All p (c ∷ s) (hc, hs) = rw hc

reverse-All :
    (p : ℕ → Bool) (s : Bytes) → All (λ c. p c ≡ false) s → All (λ c. p c ≡ false) (reverse s)
reverse-All p [] h = tt
reverse-All p (c ∷ s) (hc, hs) =
    rw reverse-cons
      (All-append (λ c. p c ≡ false) (reverse s) (c ∷ []) (reverse-All p s hs) (hc, tt))

pub trim-All : (p : ℕ → Bool) (s : Bytes) → All (λ c. p c ≡ false) s → trim p s ≡ s
unfolding trim
trim-All p s h =
    rw (trim_left-All p s h, trim_left-All p (reverse s) (reverse-All p s h)) (reverse-reverse s)
