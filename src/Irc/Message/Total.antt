-- ===== src/Irc/Message/Total.antt =====
-- ParseLine ends on every line: the loop over the params has enough fuel. It panics on a class of lines.
use webircgateway.Base.{
  ℕ, zero, suc, ◌+◌, ◌<◌, ◌≡◌, ◌≢◌, ◌↔◌, inl, inr, refl, sym, ◌∙◌, true, false, Option, none, some,
  List, [], ◌∷◌, ◌++◌, arith, ◌==◌, Bool-cases, length, All-append, Outcome, ok, panic, diverge,
  ◌>>=◌,
}
use webircgateway.Text.Bytes.{Bytes, is_empty, Lacks, trim, is_newline}
use webircgateway.Text.Index.{index, slice}
use webircgateway.Text.Trim.{Clean}
use webircgateway.Irc.Message.{
  next_token, read_params, create_mask, mask_at, Message, parse_command, parse_prefix, parse_tags,
  parse_line,
}
use webircgateway.Irc.Message.Masks.{HostFirst, create_mask-panic}
use webircgateway.Irc.Message.Tokens.{next_token-shorter, next_token-word}
use webircgateway.Irc.Message.Stages.{parse_line-Clean, started}

-- With more fuel than bytes the loop over the params ends by its test.
read_params-total :
    (fuel : ℕ) (rest : Bytes) (params : List Bytes)
    → length rest < fuel
    → (ps : List Bytes) × (read_params fuel rest params ≡ ok ps)
unfolding read_params
read_params-total zero rest params h = absurd (omega arith)
read_params-total (suc fuel) rest params h =
    let t = next_token rest true in
    elim (Bool-cases (is_empty t.0)) [
      | inl done ↦ (params, rw done)
      | inr more ↦ rw more (
          read_params-total fuel t.1 (params ++ t.0 ∷ [])
            (omega (arith, next_token-shorter rest true (ground arith))))
    ]

slice-ne-diverge : (s : Bytes) (lo hi : ℕ) → slice s lo hi ≢ diverge
unfolding slice
slice-ne-diverge s lo hi = ground arith

-- Neither outcome of a slice is an endless run, so no chain of slices is one.
>>=-ne-diverge {ℓ κ} :
    {A : Type ℓ} {B : Type κ} (o : Outcome A) (f : A → Outcome B)
    → o ≢ diverge
    → ((a : A) → f a ≢ diverge)
    → (o >>= f) ≢ diverge
>>=-ne-diverge (ok a) f h g = g a
>>=-ne-diverge panic f h g = cc
>>=-ne-diverge diverge f h g = absurd (h refl)

mask_at-ne-diverge : (s : Bytes) (u h : Option ℕ) → mask_at s u h ≢ diverge
unfolding mask_at
mask_at-ne-diverge s none none = cc
mask_at-ne-diverge s (some u) none =
    >>=-ne-diverge _ _ (slice-ne-diverge s 0 u)
      λ n. >>=-ne-diverge _ _ (slice-ne-diverge s (u + 1) (length s)) λ m. cc
mask_at-ne-diverge s none (some h) =
    >>=-ne-diverge _ _ (slice-ne-diverge s 0 h)
      λ n. >>=-ne-diverge _ _ (slice-ne-diverge s (h + 1) (length s)) λ m. cc
mask_at-ne-diverge s (some u) (some h) = >>=-ne-diverge _ _ (slice-ne-diverge s 0 u) λ n.
    >>=-ne-diverge _ _ (slice-ne-diverge s (u + 1) h)
      λ m. >>=-ne-diverge _ _ (slice-ne-diverge s (h + 1) (length s)) λ k. cc

create_mask-ne-diverge : (s : Bytes) → create_mask s ≢ diverge
unfolding create_mask
create_mask-ne-diverge s = mask_at-ne-diverge s (index s b'!') (index s b'@')

parse_command-ne-diverge : (m : Message) (t rest : Bytes) → parse_command m t rest ≢ diverge
unfolding parse_command
parse_command-ne-diverge m [] rest = cc
parse_command-ne-diverge m (c ∷ t) rest =
    let (ps, e) = read_params-total (suc (length rest)) rest m.params (omega arith) in rw e (cc)

parse_prefix-ne-diverge : (m : Message) (t rest : Bytes) → parse_prefix m t rest ≢ diverge
unfolding parse_prefix
parse_prefix-ne-diverge m [] rest =
    >>=-ne-diverge _ _ (create_mask-ne-diverge []) λ p. parse_command-ne-diverge _ [] rest
parse_prefix-ne-diverge m (c ∷ t) rest = elim (Bool-cases (c == b':')) [
  | inl e ↦ rw e (>>=-ne-diverge _ _ (create_mask-ne-diverge t) λ p. parse_command-ne-diverge _ _ _)
  | inr e ↦
      rw e (
        >>=-ne-diverge _ _ (create_mask-ne-diverge []) λ p. parse_command-ne-diverge _ (c ∷ t) rest)
]

parse_tags-ne-diverge : (m : Message) (t rest : Bytes) → parse_tags m t rest ≢ diverge
unfolding parse_tags
parse_tags-ne-diverge m [] rest = cc
parse_tags-ne-diverge m (c ∷ t) rest = elim (Bool-cases (c == b'@')) [
  | inl e ↦ rw e (parse_prefix-ne-diverge _ _ _)
  | inr e ↦ rw e (parse_prefix-ne-diverge m (c ∷ t) rest)
]

-- ParseLine ends on every line: its loop over the params never runs out of its fuel.
pub parse_line-ne-diverge : (s : Bytes) → parse_line s ≢ diverge
unfolding parse_line
parse_line-ne-diverge s =
    let line = trim is_newline s in
    let t = next_token line false in parse_tags-ne-diverge (started line) t.0 t.1

-- A source on which createMask does not panic leaves no panic.
parse_command-ne-panic : (m : Message) (t rest : Bytes) → parse_command m t rest ≢ panic
unfolding parse_command
parse_command-ne-panic m [] rest = cc
parse_command-ne-panic m (c ∷ t) rest =
    let (ps, e) = read_params-total (suc (length rest)) rest m.params (omega arith) in rw e (cc)

bind-panic {ℓ κ} :
    {A : Type ℓ} {B : Type κ} (o : Outcome A) (f : A → Outcome B)
    → ((a : A) → f a ≢ panic)
    → ((o >>= f) ≡ panic) ↔ (o ≡ panic)
bind-panic (ok a) f h = (λ p. absurd (h a p), λ p. absurd (cc))
bind-panic panic f h = (λ p. refl, λ p. refl)
bind-panic diverge f h = (λ p. absurd (cc), λ p. absurd (cc))

source_panic :
    (m : Message) (t rest : Bytes)
    → (parse_tags m (b':' ∷ t) rest ≡ panic) ↔ (create_mask t ≡ panic)
unfolding parse_tags parse_prefix
source_panic m t rest = bind-panic (create_mask t) _ (λ p. parse_command-ne-panic _ _ _)

-- On a line ":source rest" without tags, whose source has no space, with a space behind it and no line end inside,
-- ParseLine panics exactly when the source holds a "!" and an "@" and its first "@" stands in front of its first "!".
pub parse_line-panic :
    (t rest : Bytes)
    → Lacks b' ' t
    → Clean t
    → Clean rest
    → (parse_line (b':' ∷ (t ++ b' ' ∷ rest)) ≡ panic) ↔ HostFirst (index t b'!') (index t b'@')
parse_line-panic t rest hs ct cr =
    let line : Bytes = b':' ∷ (t ++ b' ' ∷ rest) in
    let word : next_token line false ≡ (b':' ∷ t, rest) =
      next_token-word b':' t rest false refl (omega arith, hs) in
    let stages : parse_line line ≡ parse_tags (started line) (b':' ∷ t) rest =
      parse_line-Clean _
        (refl, All-append (λ c. is_newline c ≡ false) t (b' ' ∷ rest) ct (refl, cr))
      ∙ rw word refl in
    let (to, from) = source_panic (started line) t rest in
    let (found, made) = create_mask-panic t in
    (λ p. found (to (sym stages ∙ p)), λ h. stages ∙ from (made h))
