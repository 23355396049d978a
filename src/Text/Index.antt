-- ===== src/Text/Index.antt =====
-- strings.Index and strings.Split at a separator of one byte, and slices of a text.
use webircgateway.Base.{
  ℕ, suc, ◌+◌, ◌-◌, ◌/◌, ◌%◌, ◌<◌, ◌≡◌, inl, inr, refl, ◌||◌, Option, none, some, List, [], ◌∷◌,
  ◌++◌, arith, ltb, ◌==◌, if◌then◌else◌, Bool-cases, Option-cases, length, get_elem?, take, drop,
  length-append, take-length, drop_append, Outcome, ok, panic,
}
use webircgateway.Text.Bytes.{Bytes, Lacks}

-- The first position of b; none is Go's -1.
unfoldable pub index : Bytes → ℕ → Option ℕ
index [] b = none
index (c ∷ s) b =
    if c == b then some 0 else elim (index s b) [ none ↦ none | some i ↦ some (suc i) ]

-- s[lo:hi], which panics unless lo ≤ hi ≤ len(s)
unfoldable pub slice : Bytes → ℕ → ℕ → Outcome Bytes
slice s lo hi = if ltb hi lo || ltb (length s) hi then panic else ok (take (hi - lo) (drop lo s))

-- The bytes of string(b) for a byte b: the UTF-8 encoding of the code point b.
unfoldable pub byte_text : ℕ → Bytes
byte_text b = if ltb b 128 then b ∷ [] else (192 + b / 64) ∷ (128 + b % 64) ∷ []

-- strings.Split
unfoldable pub push_head : ℕ → List Bytes → List Bytes
push_head c [] = (c ∷ []) ∷ []
push_head c (p ∷ ps) = (c ∷ p) ∷ ps

unfoldable pub split : Bytes → ℕ → List Bytes
unfolding push_head
split [] sep = [] ∷ []
split (c ∷ s) sep = let rest = split s sep in if c == sep then [] ∷ rest else push_head c rest

pub index-Lacks : (s : Bytes) (b : ℕ) → Lacks b s → index s b ≡ none
unfolding index
index-Lacks [] b h = refl
index-Lacks (c ∷ s) b (hc, hs) = ground (arith, index-Lacks s b hs)

-- The first occurrence stands right behind a text that lacks the byte.
pub index-append : (a r : Bytes) (b : ℕ) → Lacks b a → index (a ++ b ∷ r) b ≡ some (length a)
unfolding index
index-append [] r b h = ground arith
index-append (c ∷ a) r b (hc, ha) = ground (arith, index-append a r b ha)

pub split-Lacks : (s : Bytes) (b : ℕ) → Lacks b s → split s b ≡ s ∷ []
unfolding split
split-Lacks [] b h = refl
split-Lacks (c ∷ s) b (hc, hs) = ground (arith, split-Lacks s b hs)

pub split-append : (a r : Bytes) (b : ℕ) → Lacks b a → split (a ++ b ∷ r) b ≡ a ∷ split r b
unfolding split
split-append [] r b h = ground arith
split-append (c ∷ a) r b (hc, ha) = ground (arith, split-append a r b ha)

pub index-lt-length : (s : Bytes) (b : ℕ) {i : ℕ} → index s b ≡ some i → i < length s
unfolding index
index-lt-length [] b h = cc
index-lt-length (c ∷ s) b {i} h = elim (Bool-cases (c == b)) [
  | inl e ↦ ground arith
  | inr e ↦ elim (Option-cases (index s b)) [
    | inl n ↦ ground arith
    | inr (j, p) ↦ ground (arith, index-lt-length s b p)
  ]
]

-- The byte at the position found is the one looked for.
pub get_elem?-index : (s : Bytes) (b : ℕ) {i : ℕ} → index s b ≡ some i → get_elem? s i ≡ some b
unfolding index
get_elem?-index [] b h = cc
get_elem?-index (c ∷ s) b {i} h = elim (Bool-cases (c == b)) [
  | inl e ↦ ground arith
  | inr e ↦ elim (Option-cases (index s b)) [
    | inl n ↦ ground arith
    | inr (j, p) ↦ ground (arith, get_elem?-index s b p)
  ]
]

-- A slice takes the part that its two ends enclose.
pub slice_lem :
    (s a m r : Bytes) (lo hi : ℕ)
    → s ≡ a ++ (m ++ r)
    → lo ≡ length a
    → hi ≡ length a + length m
    → slice s lo hi ≡ ok m
unfolding slice
slice_lem s a m r lo hi es el eh =
    rw (es, el, eh)
      (ground (
        arith,
        length-append a (m ++ r),
        length-append m r,
        drop_append a (m ++ r),
        take-length m r,
      ))
