-- ===== src/Irc/Message/Tokens.antt =====
-- What nextToken returns, and that each token read makes the rest shorter.
use webircgateway.Base.{
  ℕ, ◌+◌, ◌≤◌, ◌<◌, ◌≡◌, ◌≢◌, inl, inr, refl, Bool, true, false, ◌&&◌, [], ◌∷◌, ◌++◌, arith, ◌==◌,
  Option-cases, length, take-length, drop-length, length-drop,
}
use webircgateway.Text.Bytes.{Bytes, Lacks, trim_left, is_space}
use webircgateway.Text.Index.{index, index-Lacks, index-append}
use webircgateway.Irc.Message.{cut_at, token_of, next_token}

pub length-trim_left : (p : ℕ → Bool) (s : Bytes) → length (trim_left p s) ≤ length s
unfolding trim_left
length-trim_left p [] = omega arith
length-trim_left p (c ∷ s) = ground (arith, length-trim_left p s)

token_of-shorter :
    (s : Bytes) (b : Bool) → (token_of s b).0 ≢ [] → length (token_of s b).1 < length s
unfolding token_of cut_at
token_of-shorter [] b h = absurd (h refl)
token_of-shorter (c ∷ s) b h = elim (Option-cases (index (c ∷ s) b' ')) [
  | inl e ↦ rw e (ground arith)
  | inr (i, e) ↦ rw e (ground (arith, length-drop (i + 1) (c ∷ s)))
]

-- A token that is not empty is taken out of the text.
pub next_token-shorter :
    (s : Bytes) (b : Bool) → (next_token s b).0 ≢ [] → length (next_token s b).1 < length s
unfolding next_token
next_token-shorter s b h =
    omega (arith, token_of-shorter (trim_left is_space s) b h, length-trim_left is_space s)

-- A word that stands before a space is the next token, and the text behind that space is the rest.
pub next_token-word :
    (c : ℕ) (w rest : Bytes) (b : Bool)
    → (b && c == b':') ≡ false
    → Lacks b' ' (c ∷ w)
    → next_token (c ∷ (w ++ b' ' ∷ rest)) b ≡ (c ∷ w, rest)
unfolding next_token token_of cut_at trim_left
next_token-word c w rest b h (hc, hw) = ground (
  arith,
  index-append (c ∷ w) rest b' ' (hc, hw),
  take-length (c ∷ w) (b' ' ∷ rest),
  drop-length (c ∷ w) b' ' rest,
)

-- The last word of a text is the next token, and nothing is left.
pub next_token-last :
    (c : ℕ) (w : Bytes) (b : Bool)
    → (b && c == b':') ≡ false
    → Lacks b' ' (c ∷ w)
    → next_token (c ∷ w) b ≡ (c ∷ w, [])
unfolding next_token token_of cut_at trim_left
next_token-last c w b h (hc, hw) = ground (arith, index-Lacks (c ∷ w) b' ' (hc, hw))

-- Spaces in front of a token are skipped.
pub next_token-space : (s : Bytes) (b : Bool) → next_token (b' ' ∷ s) b ≡ next_token s b
unfolding next_token trim_left
next_token-space s b = refl

-- A trailing param runs to the end of the line, spaces included.
pub next_token-trailing : (s : Bytes) → next_token (b':' ∷ s) true ≡ (s, [])
unfolding next_token token_of trim_left
next_token-trailing s = refl
