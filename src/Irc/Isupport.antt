-- ===== src/Irc/Isupport.antt =====
-- pkg/irc/isupport.go: the ISUPPORT tokens that the upstream sent. Every method holds the mutex for its
-- whole body, so each is one step here.
use webircgateway.Base.{
  ℕ, ◌≡◌, inl, inr, refl, ap, ◌∙◌, ◌==◌, Bool-cases, Bool, true, false, Option, none, some, List,
  [], ◌∷◌, if◌then◌else◌,
}
use webircgateway.Text.Bytes.{Bytes, equal, to_upper}
use webircgateway.Text.Index.{split, push_head}
use webircgateway.Dict.{Dict, lookup, insert, lookup-insert}

pub record Isupport : Type 0 where
  pub received : Bool
  pub injected : Bool
  pub tags : Dict Bytes
  pub tokens : Dict Bytes

-- kv[0] and kv[1] behind the `append`, for kv the parts at "="
pub key_value : List Bytes → Bytes × Bytes
key_value [] = ([], [])
key_value (k ∷ []) = (k, [])
key_value (k ∷ v ∷ parts) = (k, v)

abbrev pub token_key : Bytes → Bytes
token_key pair = to_upper (key_value (split pair b'=')).0

abbrev pub token_value : Bytes → Bytes
token_value pair = (key_value (split pair b'=')).1

-- addToken, and AddToken around it
unfoldable pub add_token : Isupport → Bytes → Isupport
unfolding key_value
add_token m pair = record m { tokens = insert m.tokens (token_key pair) (token_value pair) }

unfoldable pub add_tokens : Isupport → List Bytes → Isupport
unfolding add_token
add_tokens m [] = m
add_tokens m (p ∷ ps) = add_tokens (add_token m p) ps

unfoldable pub clear_tokens : Isupport → Isupport
clear_tokens m = record m { tokens = [] }

abbrev pub is_some {ℓ} : {A : Type ℓ} → Option A → Bool
is_some none = false
is_some (some a) = true

unfoldable pub has_token : Isupport → Bytes → Bool
has_token m key = is_some (lookup m.tokens (to_upper key))

-- A missing key reads as "".
abbrev pub or_empty : Option Bytes → Bytes
or_empty none = []
or_empty (some v) = v

unfoldable pub get_token : Isupport → Bytes → Bytes
get_token m key = or_empty (lookup m.tokens (to_upper key))

-- The text in front of the first b, and the one behind it.
pub before : ℕ → Bytes → Bytes
before b [] = []
before b (c ∷ s) = let rest = before b s in if c == b then [] else c ∷ rest

pub behind : ℕ → Bytes → Bytes
behind b [] = []
behind b (c ∷ s) = let rest = behind b s in if c == b then s else rest

key_value-push_head :
    (c : ℕ) (ps : List Bytes)
    → key_value (push_head c ps) ≡ (c ∷ (key_value ps).0, (key_value ps).1)
unfolding key_value push_head
key_value-push_head c [] = refl
key_value-push_head c (p ∷ []) = refl
key_value-push_head c (p ∷ q ∷ ps) = refl

key_value-empty : (ps : List Bytes) → key_value ([] ∷ ps) ≡ ([], (key_value ps).0)
unfolding key_value
key_value-empty [] = refl
key_value-empty (p ∷ []) = refl
key_value-empty (p ∷ q ∷ ps) = refl

key_value-split : (s : Bytes) (b : ℕ) → key_value (split s b) ≡ (before b s, before b (behind b s))
unfolding split before behind
key_value-split [] b = unfold key_value in refl
key_value-split (c ∷ s) b =
    let rest = key_value-split s b in
    elim (Bool-cases (c == b)) [
      | inl e ↦ rw e (key_value-empty (split s b) ∙ ap (λ r. ([], r.0)) rest)
      | inr e ↦ rw e (key_value-push_head c (split s b) ∙ ap (λ r. (c ∷ r.0, r.1)) rest)
    ]

-- The value that a list of token pairs leaves for a key: what stands between the first two "=" of the last pair with
-- the key, in any case, in front of its first "=", or the value there was.
pub last_value : List Bytes → Bytes → Option Bytes → Option Bytes
last_value [] key old = old
last_value (p ∷ ps) key old = last_value ps key (
    if equal (to_upper (before b'=' p)) (to_upper key)
    then some (before b'=' (behind b'=' p))
    else old)

lookup-add_tokens :
    (m : Isupport) (ps : List Bytes) (key : Bytes)
    → lookup (add_tokens m ps).tokens (to_upper key)
      ≡ last_value ps key (lookup m.tokens (to_upper key))
unfolding add_tokens last_value
lookup-add_tokens m [] key = refl
lookup-add_tokens m (p ∷ ps) key =
    lookup-add_tokens (add_token m p) ps key
    ∙ ap (last_value ps key) (
        lookup-insert m.tokens (token_key p) (to_upper key) (token_value p)
        ∙ ap
            (λ r.
              if equal (to_upper (r.0)) (to_upper key)
              then some (r.1)
              else lookup m.tokens (to_upper key))
            (key_value-split p b'='))

-- After AddTokens a key, in any case, has the value of the last pair that names it, in any case, and otherwise what it
-- had before; HasToken tells whether there is one. A pair names what stands in front of its first "=", and its value
-- ends at its second "=".
pub add_tokens_lem :
    (m : Isupport) (ps : List Bytes) (key : Bytes)
    → (get_token (add_tokens m ps) key
        ≡ or_empty (last_value ps key (lookup m.tokens (to_upper key))))
      × (has_token (add_tokens m ps) key
          ≡ is_some (last_value ps key (lookup m.tokens (to_upper key))))
unfolding get_token has_token
add_tokens_lem m ps key =
    (ap or_empty (lookup-add_tokens m ps key), ap is_some (lookup-add_tokens m ps key))
