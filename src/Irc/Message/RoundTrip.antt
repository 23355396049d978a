-- ===== src/Irc/Message/RoundTrip.antt =====
-- ParseLine behind ToLine: what is read back of a printed message.
use webircgateway.Base.{
  ℕ, ◌≡◌, ◌≢◌, inl, inr, refl, sym, ap, ◌∙◌, false, ◌||◌, Option, none, some, List, [], ◌∷◌, ◌++◌,
  append-nil, append_assoc, Bool-cases, All, All-append, ok, ◌>>=◌,
}
use webircgateway.Text.Bytes.{Bytes, codes, Lacks, is_newline, has_prefix, contains}
use webircgateway.Dict.{Dict, Distinct}
use webircgateway.Text.Trim.{Clean}
use webircgateway.Irc.Message.{
  Mask, Message, parse_line, parse_tags, next_token, to_line, create_mask, has_source, prefix_text,
}
use webircgateway.Irc.Message.Layout.{
  tag_text, tags_text, tags_part, source_text, source_part, params_part, words, to_line-text,
}
use webircgateway.Irc.Message.Reading.{TagOk, ParamsOk}
use webircgateway.Irc.Message.Stages.{
  CommandOk, tail_text, started, parse_text, parse_trimmed, parse_line-Clean,
}
use webircgateway.Irc.Message.Masks.{create_mask-full, create_mask-user, create_mask-nick}

abbrev CleanTag : Bytes × Bytes → Type 0
CleanTag (n, v) = Clean n × Clean v

abbrev CommandFits : Bytes → Type 0
CommandFits [] = ⊥
CommandFits (c ∷ w) = CommandOk c w

-- A message that fits on one line: each part has its own separators nowhere, and no line end.
pub record IsPrintable (m : Message) : Type 0 where
  pub tags_ok : All TagOk m.tags
  pub tags_distinct : Distinct m.tags
  pub source_space : Lacks b' ' (source_text m.prefix)
  pub command_fits : CommandFits m.command
  pub params_ok : ParamsOk m.params
  pub tags_clean : All CleanTag m.tags
  pub source_clean : Clean (source_text m.prefix)
  pub command_clean : Clean m.command
  pub params_clean : All Clean m.params

abbrev Kept : ℕ → Type 0
Kept c = is_newline c ≡ false

tag_text-Clean : (n v : Bytes) → CleanTag (n, v) → Clean (tag_text (n, v))
tag_text-Clean n [] (hn, hv) = rw append-nil hn
tag_text-Clean n (c ∷ v) (hn, hv) = All-append (λ c. Kept c) n (b'=' ∷ c ∷ v) hn (refl, hv)

tags_text-Clean : (ts : Dict Bytes) → All CleanTag ts → Clean (tags_text ts)
tags_text-Clean [] h = tt
tags_text-Clean (t ∷ []) (h, hs) = tag_text-Clean t.0 t.1 h
tags_text-Clean (t ∷ u ∷ ts) (h, hs) =
    All-append (λ c. Kept c) (tag_text t) (b';' ∷ tags_text (u ∷ ts)) (tag_text-Clean t.0 t.1 h)
      (refl, tags_text-Clean (u ∷ ts) hs)

tags_part-Clean : (ts : Dict Bytes) → All CleanTag ts → Clean (tags_part ts)
tags_part-Clean [] h = tt
tags_part-Clean (t ∷ ts) h = (
  refl,
  All-append (λ c. Kept c) (tags_text (t ∷ ts)) (b' ' ∷ []) (tags_text-Clean (t ∷ ts) h) (refl, tt),
)

source_part-Clean : (p : Option Mask) → Clean (source_text p) → Clean (source_part p)
source_part-Clean none h = tt
source_part-Clean (some p) h = elim (Bool-cases (has_source p)) [
  | inl e ↦ rw e (refl, All-append (λ c. Kept c) (prefix_text p) (b' ' ∷ []) h (refl, tt))
  | inr e ↦ rw e tt
]

words-Clean : (ps : List Bytes) → All Clean ps → Clean (words ps)
words-Clean [] h = tt
words-Clean (p ∷ []) (h, hs) =
    elim (Bool-cases (contains p (codes " ") || has_prefix p (codes ":"))) [
      | inl e ↦ rw e (refl, h)
      | inr e ↦ rw e h
    ]
words-Clean (p ∷ q ∷ ps) (h, hs) =
    All-append (λ c. Kept c) p (b' ' ∷ words (q ∷ ps)) h (refl, words-Clean (q ∷ ps) hs)

params_part-Clean : (ps : List Bytes) → All Clean ps → Clean (params_part ps)
params_part-Clean [] h = tt
params_part-Clean (p ∷ ps) h = (refl, words-Clean (p ∷ ps) h)

to_line-Clean : (m : Message) → IsPrintable m → Clean (to_line m)
to_line-Clean m h = rw to_line-text (
    All-append (λ c. Kept c) (tags_part m.tags) _ (tags_part-Clean m.tags h.tags_clean)
      (All-append (λ c. Kept c) (source_part m.prefix) _ (source_part-Clean m.prefix h.source_clean)
        (All-append (λ c. Kept c) m.command _ h.command_clean
          (params_part-Clean m.params h.params_clean))))

-- The message as it is read back, with the line in `raw` and the mask q.
abbrev pub reread : Message → Mask → Message
reread m q = record m { raw = to_line m; prefix = some q }

parse_printed :
    (line : Bytes) (m : Message)
    → line ≡ to_line m
    → IsPrintable m
    → parse_trimmed line ≡ (
        create_mask (source_text m.prefix) >>= λ q.
        ok (record m { raw = line; prefix = some q }, none))
parse_printed line m e h = go m.command refl h.command_fits
  where
    go :
        (command : Bytes)
        → m.command ≡ command
        → CommandFits command
        → parse_trimmed line ≡ (
            create_mask (source_text m.prefix) >>= λ q.
            ok (record m { raw = line; prefix = some q }, none))
    go [] ec fits = absurd fits
    go (c ∷ w) ec fits =
        let text : line ≡ tags_part m.tags ++ tail_text m.prefix c w m.params =
          e
          ∙ to_line-text m
          ∙ ap (λ k. tags_part m.tags ++ (source_part m.prefix ++ (k ++ params_part m.params)))
              ec in
        ap (λ l. let t = next_token l false in parse_tags (started line) t.0 t.1) text
        ∙ parse_text line m.tags m.prefix c w m.params h.tags_ok h.tags_distinct h.source_space fits
            h.params_ok
        ∙ ap
            (λ k. create_mask (source_text m.prefix) >>= λ q. ok (
              record { raw = line; tags = m.tags; prefix = some q; command = k; params = m.params },
              none,
            ))
            (sym ec)

-- A printable message is read back with its tags, command and params, and with the mask that
-- createMask makes of the source that ToLine wrote.
pub parse_line-to_line :
    (m : Message)
    → IsPrintable m
    → parse_line (to_line m) ≡ (create_mask (source_text m.prefix) >>= λ q. ok (reread m q, none))
parse_line-to_line m h =
    parse_line-Clean (to_line m) (to_line-Clean m h) ∙ parse_printed (to_line m) m refl h

-- The nick and the username as createMask cuts them.
pub record SourceOk (p : Mask) : Type 0 where
  pub nick_user : Lacks b'!' p.nick
  pub nick_host : Lacks b'@' p.nick
  pub username_host : Lacks b'@' p.username

create_mask-prefix_text :
    (n u h k : Bytes)
    → SourceOk (record { nick = n; username = u; hostname = h; mask = k })
    → h ≡ []
    → (u ≢ [] → n ≢ [])
    → create_mask (prefix_text (record { nick = n; username = u; hostname = h; mask = k }))
      ≡ ok (record {
        nick = n;
        username = u;
        hostname = h;
        mask = prefix_text (record { nick = n; username = u; hostname = h; mask = k });
      })
unfolding prefix_text
create_mask-prefix_text [] [] [] k s e f = create_mask-nick [] tt tt
create_mask-prefix_text [] (d ∷ u) [] k s e f = absurd (f (λ x. cc) refl)
create_mask-prefix_text (c ∷ n) [] [] k s e f = create_mask-nick (c ∷ n) s.nick_user s.nick_host
create_mask-prefix_text (c ∷ n) (d ∷ u) [] k s e f =
    create_mask-user (c ∷ n) (d ∷ u) s.nick_user s.nick_host s.username_host
create_mask-prefix_text n u (b ∷ h) k s e f = absurd (cc)

create_mask-prefix_text_host :
    (n u h k : Bytes)
    → SourceOk (record { nick = n; username = u; hostname = h; mask = k })
    → n ≢ []
    → u ≢ []
    → h ≢ []
    → create_mask (prefix_text (record { nick = n; username = u; hostname = h; mask = k }))
      ≡ ok (record {
        nick = n;
        username = u;
        hostname = u;
        mask = prefix_text (record { nick = n; username = u; hostname = h; mask = k });
      })
unfolding prefix_text
create_mask-prefix_text_host [] u h k s en eu eh = absurd (en refl)
create_mask-prefix_text_host (c ∷ n) [] h k s en eu eh = absurd (eu refl)
create_mask-prefix_text_host (c ∷ n) (d ∷ u) [] k s en eu eh = absurd (eh refl)
create_mask-prefix_text_host (c ∷ n) (d ∷ u) (b ∷ h) k s en eu eh =
    rw append_assoc
      (create_mask-full (c ∷ n) (d ∷ u) (d ∷ u) s.nick_user s.nick_host s.username_host)

-- ParseLine reads back what ToLine wrote: for a printable message whose source has no hostname, and a
-- nick if it has a username, the line parses without error to the same tags, source, command and
-- params, with the line in Raw and the source's text in Mask.
pub parse_line-to_line_user :
    (m : Message) (p : Mask)
    → IsPrintable m
    → m.prefix ≡ some p
    → SourceOk p
    → p.hostname ≡ []
    → (p.username ≢ [] → p.nick ≢ [])
    → parse_line (to_line m) ≡ ok (reread m (record p { mask = prefix_text p }), none)
parse_line-to_line_user m p h e s eh f =
    parse_line-to_line m h
    ∙ ap (λ k. create_mask (source_text k) >>= λ q. ok (reread m q, none)) e
    ∙ ap (λ o. o >>= λ q. ok (reread m q, none))
        (create_mask-prefix_text p.nick p.username p.hostname p.mask s eh f)

-- ToLine writes the username in the place of the hostname: of a printable message from
-- `nick!username@hostname`, all three not empty, ParseLine reads a source whose hostname is the username.
pub parse_line-to_line_host :
    (m : Message) (p : Mask)
    → IsPrintable m
    → m.prefix ≡ some p
    → SourceOk p
    → p.nick ≢ []
    → p.username ≢ []
    → p.hostname ≢ []
    → parse_line (to_line m)
      ≡ ok (reread m (record p { hostname = p.username; mask = prefix_text p }), none)
parse_line-to_line_host m p h e s en eu eh =
    parse_line-to_line m h
    ∙ ap (λ k. create_mask (source_text k) >>= λ q. ok (reread m q, none)) e
    ∙ ap (λ o. o >>= λ q. ok (reread m q, none))
        (create_mask-prefix_text_host p.nick p.username p.hostname p.mask s en eu eh)
