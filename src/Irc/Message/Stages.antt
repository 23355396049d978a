-- ===== src/Irc/Message/Stages.antt =====
-- ParseLine's stages, each on the part of a printed line that it reads.
use webircgateway.Base.{
  ℕ, ◌≡◌, ◌≢◌, inl, inr, refl, sym, ap, false, Option, none, some, List, [], ◌∷◌, ◌++◌,
  append_assoc, arith, ◌==◌, Bool-cases, All, Outcome, ok, ◌>>=◌,
}
use webircgateway.Text.Bytes.{Bytes, Lacks, is_newline}
use mathlib.Core.Path.{fun_ext}
use webircgateway.Dict.{Dict, LacksKey, Distinct, LacksKey-append}
use webircgateway.Text.Trim.{Clean, trim-All}
use webircgateway.Irc.Message.{
  parse_line, Mask, Message, next_token, parse_prefix, parse_tags, create_mask, has_source,
  prefix_text, ParseError, new_message,
}
use webircgateway.Irc.Message.Layout.{
  tags_text, tags_part, source_text, source_part, params_part, words,
}
use webircgateway.Irc.Message.Tokens.{next_token-word}
use webircgateway.Irc.Message.Reading.{
  TagOk, Fresh, ParamsOk, read_tags-text, tags_text-space, command_token, parse_command-words,
}

-- A command that is not read as tags or as a source.
pub record CommandOk (c : ℕ) (w : Bytes) : Type 0 where
  pub no_space : Lacks b' ' (c ∷ w)
  pub no_tags : c ≢ b'@'
  pub no_source : c ≢ b':'

prefix_text-none : (p : Mask) → has_source p ≡ false → prefix_text p ≡ []
unfolding prefix_text
prefix_text-none p h = ground arith

-- The line behind the tags.
abbrev pub tail_text : Option Mask → ℕ → Bytes → List Bytes → Bytes
tail_text p c w ps = source_part p ++ ((c ∷ w) ++ params_part ps)

-- What ParseLine returns for a message with this command and these params, once it has the mask.
abbrev pub finished :
    Message → ℕ → Bytes → List Bytes → Mask → Outcome (Message × Option ParseError)
finished m c w ps q =
    ok (record m { prefix = some q; command = c ∷ w; params = m.params ++ ps }, none)

parse_command-tail :
    (m : Message) (c : ℕ) (w : Bytes) (ps : List Bytes)
    → CommandOk c w
    → ParamsOk ps
    → parse_prefix m (c ∷ w) (words ps) ≡ (create_mask [] >>= finished m c w ps)
unfolding parse_prefix
parse_command-tail m c w ps h hp =
    let other : (c == b':') ≡ false = ground arith in
    rw other (
      ap (λ k. create_mask [] >>= k)
        (fun_ext λ q. parse_command-words (record m { prefix = some q }) c w ps hp))

parse_prefix-source :
    (m : Message) (s : Bytes) (c : ℕ) (w : Bytes) (ps : List Bytes)
    → CommandOk c w
    → ParamsOk ps
    → parse_prefix m (b':' ∷ s) ((c ∷ w) ++ params_part ps) ≡ (create_mask s >>= finished m c w ps)
unfolding parse_prefix
parse_prefix-source m s c w ps h hp =
    ap (λ k. create_mask s >>= k)
      (fun_ext λ q.
        rw (command_token c w ps h.no_space)
          (parse_command-words (record m { prefix = some q }) c w ps hp))

-- The stage behind the tags, from its first token on.
abbrev from_source : Message → Bytes → Outcome (Message × Option ParseError)
from_source m s = let t = next_token s false in parse_prefix m t.0 t.1

pub parse_tail :
    (m : Message) (p : Option Mask) (c : ℕ) (w : Bytes) (ps : List Bytes)
    → Lacks b' ' (source_text p)
    → CommandOk c w
    → ParamsOk ps
    → from_source m (tail_text p c w ps) ≡ (create_mask (source_text p) >>= finished m c w ps)
parse_tail m none c w ps hs h hp =
    rw (command_token c w ps h.no_space) (parse_command-tail m c w ps h hp)
parse_tail m (some p) c w ps hs h hp = elim (Bool-cases (has_source p)) [
  | inl e ↦ rw e (
      rw append_assoc (
        rw
          (next_token-word b':' (prefix_text p) ((c ∷ w) ++ params_part ps) false refl
            (omega arith, hs))
          (parse_prefix-source m (prefix_text p) c w ps h hp)))
  | inr e ↦
      rw (e, prefix_text-none p e)
        (rw (command_token c w ps h.no_space) (parse_command-tail m c w ps h hp))
]

-- The first token of that stage does not start the tags.
head_token :
    (p : Option Mask) (c : ℕ) (w : Bytes) (ps : List Bytes)
    → Lacks b' ' (source_text p)
    → CommandOk c w
    → (d : ℕ) × (t : Bytes) × (r : Bytes) × (next_token (tail_text p c w ps) false ≡ (d ∷ t, r))
      × (d ≢ b'@')
head_token none c w ps hs h = (c, w, words ps, command_token c w ps h.no_space, h.no_tags)
head_token (some p) c w ps hs h = elim (Bool-cases (has_source p)) [
  | inl e ↦ (
    b':',
    prefix_text p,
    (c ∷ w) ++ params_part ps,
    rw e (
        rw append_assoc (
          next_token-word b':' (prefix_text p) ((c ∷ w) ++ params_part ps) false refl
            (omega arith, hs))),
    omega arith,
  )
  | inr e ↦ (c, w, words ps, rw e (command_token c w ps h.no_space), h.no_tags)
]

extend :
    (seen ts : Dict Bytes) (n v : Bytes)
    → All (λ t. LacksKey t.0 seen) ts
    → LacksKey n ts
    → All (λ t. LacksKey t.0 (seen ++ (n, v) ∷ [])) ts
extend seen [] n v h f = tt
extend seen ((j, u) ∷ ts) n v (hj, h) (f, fs) =
    (LacksKey-append seen j n v hj (λ e. f (sym e)), extend seen ts n v h fs)

pub Distinct-Fresh :
    (seen ts : Dict Bytes) → All (λ t. LacksKey t.0 seen) ts → Distinct ts → Fresh seen ts
Distinct-Fresh seen [] h d = tt
Distinct-Fresh seen ((n, v) ∷ ts) (hn, h) (f, d) =
    (hn, Distinct-Fresh (seen ++ (n, v) ∷ []) ts (extend seen ts n v h f) d)

LacksKey-nil : (ts : Dict Bytes) → All (λ t. LacksKey {V = Bytes} t.0 []) ts
LacksKey-nil [] = tt
LacksKey-nil (t ∷ ts) = (tt, LacksKey-nil ts)

abbrev pub started : Bytes → Message
started line = record new_message { raw = line }

-- The whole line behind the trim: tags, or none, and the tail.
pub parse_text :
    (line : Bytes) (ts : Dict Bytes) (p : Option Mask) (c : ℕ) (w : Bytes) (ps : List Bytes)
    → All TagOk ts
    → Distinct ts
    → Lacks b' ' (source_text p)
    → CommandOk c w
    → ParamsOk ps
    → (let t = next_token (tags_part ts ++ tail_text p c w ps) false in
        parse_tags (started line) t.0 t.1)
      ≡ (create_mask (source_text p) >>= finished (record (started line) { tags = ts }) c w ps)
unfolding parse_tags
parse_text line [] p c w ps ht hd hs h hp =
    let (d, t, r, e, ne) = head_token p c w ps hs h in
    let other : (d == b'@') ≡ false = ground arith in
    rw e (rw other (rw e at (parse_tail (started line) p c w ps hs h hp)))
parse_text line (t ∷ ts) p c w ps ht hd hs h hp =
    let tail : Bytes = tail_text p c w ps in
    let fresh : Fresh [] (t ∷ ts) = Distinct-Fresh [] (t ∷ ts) (LacksKey-nil (t ∷ ts)) hd in
    rw append_assoc (
      rw
        (next_token-word b'@' (tags_text (t ∷ ts)) tail false refl
          (omega arith, tags_text-space t ts ht))
        (rw (read_tags-text [] ts t ht fresh)
          (parse_tail (record (started line) { tags = t ∷ ts }) p c w ps hs h hp)))

-- ParseLine behind its Trim.
abbrev pub parse_trimmed : Bytes → Outcome (Message × Option ParseError)
parse_trimmed line = let t = next_token line false in parse_tags (started line) t.0 t.1

pub parse_line-Clean : (line : Bytes) → Clean line → parse_line line ≡ parse_trimmed line
unfolding parse_line
parse_line-Clean line h = ap (λ l. parse_trimmed l) (trim-All is_newline line h)
