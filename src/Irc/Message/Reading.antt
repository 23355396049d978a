-- ===== src/Irc/Message/Reading.antt =====
-- What ParseLine reads of each part of a line, with the rest of the line behind it.
use webircgateway.Base.{
  ℕ, zero, suc, ◌≤◌, ◌<◌, ◌≡◌, ◌≢◌, inl, inr, refl, ap, ◌∙◌, true, false, ◌&&◌, ◌||◌, none, List,
  [], ◌∷◌, ◌++◌, append-nil, append_assoc, arith, ◌==◌, Bool-cases, length, length-append, All,
  All-append, ok,
}
use webircgateway.Text.Bytes.{Bytes, codes, Lacks, trim_left, has_prefix, contains}
use webircgateway.Text.Index.{split, split-Lacks, split-append}
use webircgateway.Dict.{Dict, LacksKey, insert-LacksKey}
use webircgateway.Irc.Message.{
  Message, next_token, store_tag, read_tags, read_params, parse_command, token_of,
}
use webircgateway.Irc.Message.Layout.{tag_text, tags_text, last_text, words, params_part}
use webircgateway.Irc.Message.Tokens.{next_token-word, next_token-last, next_token-trailing}

-- A tag that survives: a name, and "=" or ";" or a space nowhere.
pub record TagOk (t : Bytes × Bytes) : Type 0 where
  pub named : t.0 ≢ []
  pub name_space : Lacks b' ' t.0
  pub name_semicolon : Lacks b';' t.0
  pub name_equals : Lacks b'=' t.0
  pub value_space : Lacks b' ' t.1
  pub value_semicolon : Lacks b';' t.1
  pub value_equals : Lacks b'=' t.1

-- No tag has a key of `seen`, and no two have the same.
abbrev pub Fresh : Dict Bytes → Dict Bytes → Type 0
Fresh seen [] = Unit
Fresh seen ((n, v) ∷ ts) = LacksKey n seen × Fresh (seen ++ (n, v) ∷ []) ts

store_tag-text :
    (seen : Dict Bytes) (n v : Bytes)
    → TagOk (n, v)
    → LacksKey n seen
    → store_tag seen (split (tag_text (n, v)) b'=') ≡ seen ++ (n, v) ∷ []
unfolding store_tag
store_tag-text seen [] v h fresh = absurd (h.named refl)
store_tag-text seen (c ∷ n) [] h fresh =
    rw append-nil
      (rw (split-Lacks (c ∷ n) b'=' h.name_equals) (insert-LacksKey seen (c ∷ n) [] fresh))
store_tag-text seen (c ∷ n) (d ∷ v) h fresh =
    rw (split-append (c ∷ n) (d ∷ v) b'=' h.name_equals, split-Lacks (d ∷ v) b'=' h.value_equals)
      (insert-LacksKey seen (c ∷ n) (d ∷ v) fresh)

tag_text-Lacks : (n v : Bytes) → TagOk (n, v) → Lacks b';' (tag_text (n, v))
tag_text-Lacks n [] h = rw append-nil h.name_semicolon
tag_text-Lacks n (d ∷ v) h =
    All-append (λ c. c ≢ b';') n (b'=' ∷ d ∷ v) h.name_semicolon (omega arith, h.value_semicolon)

pub read_tags-text :
    (seen ts : Dict Bytes) (t : Bytes × Bytes)
    → All TagOk (t ∷ ts)
    → Fresh seen (t ∷ ts)
    → read_tags (split (tags_text (t ∷ ts)) b';') seen ≡ seen ++ t ∷ ts
unfolding read_tags
read_tags-text seen [] (n, v) (h, hs) (f, fs) =
    rw (split-Lacks (tag_text (n, v)) b';' (tag_text-Lacks n v h)) (store_tag-text seen n v h f)
read_tags-text seen (u ∷ ts) (n, v) (h, hs) (f, fs) =
    rw (split-append (tag_text (n, v)) (tags_text (u ∷ ts)) b';' (tag_text-Lacks n v h)) (
      ap (read_tags (split (tags_text (u ∷ ts)) b';')) (store_tag-text seen n v h f)
      ∙ read_tags-text (seen ++ (n, v) ∷ []) ts u hs fs
      ∙ append_assoc seen ((n, v) ∷ []) (u ∷ ts))

tag_text-space : (n v : Bytes) → TagOk (n, v) → Lacks b' ' (tag_text (n, v))
tag_text-space n [] h = rw append-nil h.name_space
tag_text-space n (d ∷ v) h =
    All-append (λ c. c ≢ b' ') n (b'=' ∷ d ∷ v) h.name_space (omega arith, h.value_space)

pub tags_text-space :
    (t : Bytes × Bytes) (ts : Dict Bytes) → All TagOk (t ∷ ts) → Lacks b' ' (tags_text (t ∷ ts))
tags_text-space t [] (h, hs) = tag_text-space t.0 t.1 h
tags_text-space t (u ∷ ts) (h, hs) =
    All-append (λ c. c ≢ b' ') (tag_text t) (b';' ∷ tags_text (u ∷ ts)) (tag_text-space t.0 t.1 h)
      (omega arith, tags_text-space u ts hs)

-- A param that may stand before another one.
pub record MiddleOk (p : Bytes) : Type 0 where
  pub not_empty : p ≢ []
  pub no_space : Lacks b' ' p
  pub no_colon : has_prefix p (codes ":") ≡ false

-- Only the last param may hold spaces or start with a colon, and none is empty.
abbrev pub ParamsOk : List Bytes → Type 0
ParamsOk [] = Unit
ParamsOk (p ∷ []) = p ≢ []
ParamsOk (p ∷ q ∷ ps) = MiddleOk p × ParamsOk (q ∷ ps)

contains-Lacks : (p : Bytes) → contains p (codes " ") ≡ false → Lacks b' ' p
unfolding contains has_prefix
contains-Lacks [] h = tt
contains-Lacks (c ∷ p) h = (ground arith, contains-Lacks p (ground arith))

colon-head :
    (c : ℕ) (p : Bytes) → has_prefix (c ∷ p) (codes ":") ≡ false → (true && c == b':') ≡ false
unfolding has_prefix
colon-head c p h = ground arith

-- One round of the loop, on a token that is not empty.
read_params-step :
    (fuel : ℕ) (c : ℕ) (t rest text : Bytes) (seen : List Bytes)
    → next_token text true ≡ (c ∷ t, rest)
    → read_params (suc fuel) text seen ≡ read_params fuel rest (seen ++ (c ∷ t) ∷ [])
unfolding read_params
read_params-step fuel c t rest text seen e = rw e

read_params-nil : (fuel : ℕ) (seen : List Bytes) → read_params (suc fuel) [] seen ≡ ok seen
unfolding read_params next_token trim_left token_of
read_params-nil fuel seen = refl

-- The last param is read whole, spaces included.
next_token-last_text : (c : ℕ) (p : Bytes) → next_token (last_text (c ∷ p)) true ≡ (c ∷ p, [])
next_token-last_text c p =
    elim (Bool-cases (contains (c ∷ p) (codes " ") || has_prefix (c ∷ p) (codes ":"))) [
      | inl e ↦ rw e (next_token-trailing (c ∷ p))
      | inr e ↦ rw e (
          next_token-last c p true (unfold has_prefix in ground arith)
            (contains-Lacks (c ∷ p) (ground arith)))
    ]

read_params-words :
    (fuel : ℕ) (ps seen : List Bytes)
    → ParamsOk ps
    → length ps < fuel
    → read_params fuel (words ps) seen ≡ ok (seen ++ ps)
read_params-words zero ps seen h lt = absurd (omega arith)
read_params-words (suc fuel) [] seen h lt = rw append-nil (read_params-nil fuel seen)
read_params-words (suc fuel) ([] ∷ []) seen h lt = absurd (h refl)
read_params-words (suc fuel) ((c ∷ p) ∷ []) seen h lt =
    read_params-step fuel c p [] (last_text (c ∷ p)) seen (next_token-last_text c p)
    ∙ read_params-words fuel [] (seen ++ (c ∷ p) ∷ []) tt (omega arith)
    ∙ rw append-nil
read_params-words (suc fuel) ([] ∷ q ∷ ps) seen (h, hs) lt = absurd (h.not_empty refl)
read_params-words (suc fuel) ((c ∷ p) ∷ q ∷ ps) seen (h, hs) lt =
    read_params-step fuel c p (words (q ∷ ps)) (words ((c ∷ p) ∷ q ∷ ps)) seen
      (next_token-word c p (words (q ∷ ps)) true (colon-head c p h.no_colon) h.no_space)
    ∙ read_params-words fuel (q ∷ ps) (seen ++ (c ∷ p) ∷ []) hs (omega arith)
    ∙ rw append_assoc

length-words : (ps : List Bytes) → ParamsOk ps → length ps ≤ length (words ps)
length-words [] h = omega arith
length-words ([] ∷ []) h = absurd (h refl)
length-words ((c ∷ p) ∷ []) h = ground arith
length-words (p ∷ q ∷ ps) (h, hs) =
    omega (arith, length-append p (b' ' ∷ words (q ∷ ps)), length-words (q ∷ ps) hs)

-- The word that is the command, with the params behind it.
pub command_token :
    (c : ℕ) (w : Bytes) (ps : List Bytes)
    → Lacks b' ' (c ∷ w)
    → next_token (c ∷ (w ++ params_part ps)) false ≡ (c ∷ w, words ps)
command_token c w [] h = rw append-nil (next_token-last c w false refl h)
command_token c w (p ∷ ps) h = next_token-word c w (words (p ∷ ps)) false refl h

pub parse_command-words :
    (m : Message) (c : ℕ) (w : Bytes) (ps : List Bytes)
    → ParamsOk ps
    → parse_command m (c ∷ w) (words ps)
      ≡ ok (record m { command = c ∷ w; params = m.params ++ ps }, none)
unfolding parse_command
parse_command-words m c w ps h =
    rw
      (read_params-words (suc (length (words ps))) ps m.params h (omega (arith, length-words ps h)))
