-- ===== src/Irc/Message/Masks.antt =====
-- createMask: which masks make it panic, and what it reads of the others.
use webircgateway.Base.{
  ℕ, ◌+◌, ◌<◌, ◌≡◌, ◌≢◌, ◌↔◌, refl, ap, Option, none, some, [], ◌∷◌, ◌++◌, append-nil, append_assoc,
  arith, length, length-append, All-append, ok, panic,
}
use webircgateway.Text.Bytes.{Bytes, Lacks}
use webircgateway.Text.Index.{
  index, slice, index-Lacks, index-append, index-lt-length, get_elem?-index, slice_lem,
}
use webircgateway.Irc.Message.{mask_at, create_mask}

mask_at-panic :
    (s : Bytes) (u h : ℕ)
    → u < length s
    → h < length s
    → u ≢ h
    → (mask_at s (some u) (some h) ≡ panic) ↔ (h < u)
unfolding mask_at slice
mask_at-panic s u h hu hh ne = ground arith

mask_at_user-ne-panic : (s : Bytes) (u : ℕ) → u < length s → mask_at s (some u) none ≢ panic
unfolding mask_at slice
mask_at_user-ne-panic s u hu = ground arith

mask_at_host-ne-panic : (s : Bytes) (h : ℕ) → h < length s → mask_at s none (some h) ≢ panic
unfolding mask_at slice
mask_at_host-ne-panic s h hh = ground arith

positions-ne : (s : Bytes) (u h : ℕ) → index s b'!' ≡ some u → index s b'@' ≡ some h → u ≢ h
positions-ne s u h eu eh = ground (arith, get_elem?-index s b'!' eu, get_elem?-index s b'@' eh)

-- The "!" stands at u, the "@" at h, and the "@" comes first.
abbrev pub HostFirst : Option ℕ → Option ℕ → Type 0
HostFirst user host = (u : ℕ) × (h : ℕ) × (user ≡ some u) × (host ≡ some h) × (h < u)

mask_at_iff :
    (s : Bytes) (user host : Option ℕ)
    → ((i : ℕ) → user ≡ some i → i < length s)
    → ((i : ℕ) → host ≡ some i → i < length s)
    → ((i j : ℕ) → user ≡ some i → host ≡ some j → i ≢ j)
    → (mask_at s user host ≡ panic) ↔ HostFirst user host
mask_at_iff s none none bu bh ne = (λ p. unfold mask_at in cc, λ (u, h, eu, eh, lt). cc)
mask_at_iff s none (some h) bu bh ne =
    (λ p. absurd (mask_at_host-ne-panic s h (bh h refl) p), λ (u, h', eu, eh, lt). cc)
mask_at_iff s (some u) none bu bh ne =
    (λ p. absurd (mask_at_user-ne-panic s u (bu u refl) p), λ (u', h, eu, eh, lt). cc)
mask_at_iff s (some u) (some h) bu bh ne =
    let (to, from) = mask_at-panic s u h (bu u refl) (bh h refl) (ne u h refl refl) in
    (λ p. (u, h, refl, refl, to p), λ (u', h', eu, eh, lt). from (ground arith))

-- createMask panics exactly when the mask holds both "!" and "@", and the first "@" stands before
-- the first "!".
pub create_mask-panic :
    (s : Bytes) → (create_mask s ≡ panic) ↔ HostFirst (index s b'!') (index s b'@')
unfolding create_mask
create_mask-panic s =
    mask_at_iff s (index s b'!') (index s b'@') (λ i e. index-lt-length s b'!' e)
      (λ i e. index-lt-length s b'@' e) (positions-ne s)

-- createMask reads the three parts of `nick!username@hostname`, where the nick and the username hold
-- no "@" and the nick holds no "!".
pub create_mask-full :
    (n u h : Bytes)
    → Lacks b'!' n
    → Lacks b'@' n
    → Lacks b'@' u
    → create_mask (n ++ b'!' ∷ (u ++ b'@' ∷ h))
      ≡ ok (record { nick = n; username = u; hostname = h; mask = n ++ b'!' ∷ (u ++ b'@' ∷ h) })
unfolding create_mask mask_at
create_mask-full n u h n1 n2 u2 =
    let s : Bytes = n ++ b'!' ∷ (u ++ b'@' ∷ h) in
    let front : Bytes = n ++ b'!' ∷ u in
    let at_host : s ≡ front ++ b'@' ∷ h = simp append_assoc in
    let no_host : Lacks b'@' front = All-append (λ c. c ≢ b'@') n (b'!' ∷ u) n2 (omega arith, u2) in
    let size : length front ≡ length n + 1 + length u = omega (arith, length-append n (b'!' ∷ u)) in
    let found : index s b'@' ≡ some (length front) =
      rw at_host (index-append front h b'@' no_host) in
    let left : slice s 0 (length n) ≡ ok n =
      slice_lem s [] n (b'!' ∷ (u ++ b'@' ∷ h)) 0 (length n) refl refl (omega arith) in
    let middle : slice s (length n + 1) (length front) ≡ ok u =
      slice_lem s (n ++ b'!' ∷ []) u (b'@' ∷ h) _ _ (simp append_assoc)
        (omega (arith, length-append n (b'!' ∷ []))) (omega (arith, length-append n (b'!' ∷ []))) in
    let right : slice s (length front + 1) (length s) ≡ ok h =
      slice_lem s (front ++ b'@' ∷ []) h [] _ _ (simp (append_assoc, append-nil))
        (omega (arith, length-append front (b'@' ∷ [])))
        (omega (
          arith,
          ap length at_host,
          length-append front (b'@' ∷ h),
          length-append front (b'@' ∷ []),
        )) in
    rw (index-append n (u ++ b'@' ∷ h) b'!' n1, found, left, middle, right)

-- Of `nick!username` it reads the nick and the username.
pub create_mask-user :
    (n u : Bytes)
    → Lacks b'!' n
    → Lacks b'@' n
    → Lacks b'@' u
    → create_mask (n ++ b'!' ∷ u)
      ≡ ok (record { nick = n; username = u; hostname = []; mask = n ++ b'!' ∷ u })
unfolding create_mask mask_at
create_mask-user n u n1 n2 u2 =
    let s : Bytes = n ++ b'!' ∷ u in
    let no_host : Lacks b'@' s = All-append (λ c. c ≢ b'@') n (b'!' ∷ u) n2 (omega arith, u2) in
    let left : slice s 0 (length n) ≡ ok n =
      slice_lem s [] n (b'!' ∷ u) 0 (length n) refl refl (omega arith) in
    let right : slice s (length n + 1) (length s) ≡ ok u =
      slice_lem s (n ++ b'!' ∷ []) u [] _ _ (simp (append_assoc, append-nil))
        (omega (arith, length-append n (b'!' ∷ [])))
        (omega (arith, length-append n (b'!' ∷ u), length-append n (b'!' ∷ []))) in
    rw (index-append n u b'!' n1, index-Lacks s b'@' no_host, left, right)

-- A text with neither separator is a nick.
pub create_mask-nick :
    (n : Bytes)
    → Lacks b'!' n
    → Lacks b'@' n
    → create_mask n ≡ ok (record { nick = n; username = []; hostname = []; mask = n })
unfolding create_mask mask_at
create_mask-nick n n1 n2 = rw (index-Lacks n b'!' n1, index-Lacks n b'@' n2)
