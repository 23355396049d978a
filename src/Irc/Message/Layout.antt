-- ===== src/Irc/Message/Layout.antt =====
-- The line that ToLine writes, laid out with no accumulator.
use webircgateway.Base.{
  ℕ, ◌+◌, ◌-◌, ◌≡◌, inl, inr, refl, ◌∙◌, true, false, ◌||◌, Option, none, some, List, [], ◌∷◌, ◌++◌,
  append-nil, append_assoc, arith, ltb, ◌==◌, if◌then◌else◌, Bool-cases, length,
}
use webircgateway.Text.Bytes.{Bytes, codes, is_empty, has_prefix, contains}
use webircgateway.Dict.{Dict}
use webircgateway.Irc.Message.{
  Mask, Message, write_tag, write_tags, prefix_text, has_source, write_prefix, write_params,
  to_line, start_tags, write_command,
}

abbrev pub tag_text : Bytes × Bytes → Bytes
tag_text (name, value) = name ++ (if is_empty value then [] else b'=' ∷ value)

-- The tags, with ";" between them.
abbrev pub tags_text : Dict Bytes → Bytes
tags_text [] = []
tags_text (t ∷ []) = tag_text t
tags_text (t ∷ u ∷ ts) = tag_text t ++ b';' ∷ tags_text (u ∷ ts)

-- The tags of a line, with the "@" and the space around them.
abbrev pub tags_part : Dict Bytes → Bytes
tags_part [] = []
tags_part (t ∷ ts) = b'@' ∷ (tags_text (t ∷ ts) ++ b' ' ∷ [])

-- What stands behind the ":" of the source, empty where there is none.
abbrev pub source_text : Option Mask → Bytes
source_text none = []
source_text (some p) = prefix_text p

abbrev pub source_part : Option Mask → Bytes
source_part none = []
source_part (some p) = if has_source p then b':' ∷ (prefix_text p ++ b' ' ∷ []) else []

-- The last param, behind a ":" where it needs one.
abbrev pub last_text : Bytes → Bytes
last_text p = if contains p (codes " ") || has_prefix p (codes ":") then b':' ∷ p else p

abbrev pub words : List Bytes → Bytes
words [] = []
words (p ∷ []) = last_text p
words (p ∷ q ∷ ps) = p ++ b' ' ∷ words (q ∷ ps)

abbrev pub params_part : List Bytes → Bytes
params_part [] = []
params_part (p ∷ ps) = b' ' ∷ words (p ∷ ps)

write_tag-text :
    (total count : ℕ) (t : Bytes × Bytes) (line : Bytes)
    → write_tag total count t line
      ≡ line ++ (tag_text t ++ (if ltb count total then b';' ∷ [] else []))
unfolding write_tag
write_tag-text total count (name, []) line = elim (Bool-cases (ltb count total)) [
  | inl e ↦ rw e (simp (append_assoc, append-nil))
  | inr e ↦ rw e (simp append-nil)
]
write_tag-text total count (name, c ∷ value) line = elim (Bool-cases (ltb count total)) [
  | inl e ↦ rw e (simp (append_assoc, append-nil))
  | inr e ↦ rw e (simp (append_assoc, append-nil))
]

write_tags-text :
    (total count : ℕ) (ts : Dict Bytes) (line : Bytes)
    → count + length ts ≡ total
    → write_tags total count ts line ≡ line ++ tags_text ts
unfolding write_tags
write_tags-text total count [] line h = rw append-nil
write_tags-text total count (t ∷ []) line h =
    let last : ltb (count + 1) total ≡ false = ground arith in
    rw (write_tag-text total (count + 1) t line, last) (simp append-nil)
write_tags-text total count (t ∷ u ∷ ts) line h =
    let inner : ltb (count + 1) total ≡ true = ground arith in
    write_tags-text total (count + 1) (u ∷ ts) (write_tag total (count + 1) t line) (omega arith)
    ∙ rw (write_tag-text total (count + 1) t line, inner) (simp append_assoc)

write_params-text :
    (total idx : ℕ) (ps : List Bytes) (line : Bytes)
    → idx + length ps ≡ total
    → write_params total idx ps line ≡ line ++ params_part ps
unfolding write_params
write_params-text total idx [] line h = rw append-nil
write_params-text total idx (p ∷ []) line h = ground arith
write_params-text total idx (p ∷ q ∷ ps) line h =
    let inner : (idx == total - 1) ≡ false = ground arith in
    rw inner (
      write_params-text total (idx + 1) (q ∷ ps) (line ++ b' ' ∷ p) (omega arith)
      ∙ simp append_assoc)

start_tags-cons :
    (t : Bytes × Bytes) (ts : Dict Bytes) → start_tags (t ∷ ts) ≡ b'@' ∷ tags_text (t ∷ ts)
unfolding start_tags
start_tags-cons t ts =
    let pos : ltb 0 (length (t ∷ ts)) ≡ true = ground arith in
    rw pos (write_tags-text (length (t ∷ ts)) 0 (t ∷ ts) (b'@' ∷ []) (omega arith))

headed_text :
    (ts : Dict Bytes) (p : Option Mask) (command : Bytes)
    → write_command (write_prefix p (start_tags ts)) command
      ≡ tags_part ts ++ (source_part p ++ command)
unfolding write_command write_prefix
headed_text [] none command = unfold start_tags in refl
headed_text [] (some p) command = elim (Bool-cases (has_source p)) [
  | inl e ↦ unfold start_tags in rw e (simp append_assoc)
  | inr e ↦ unfold start_tags in rw e
]
headed_text (t ∷ ts) none command = rw (start_tags-cons t ts) (simp append_assoc)
headed_text (t ∷ ts) (some p) command = elim (Bool-cases (has_source p)) [
  | inl e ↦ rw (start_tags-cons t ts) (rw e (simp append_assoc))
  | inr e ↦ rw (start_tags-cons t ts) (rw e (simp append_assoc))
]

-- The line that ToLine writes: tags, source, command and params.
pub to_line-text :
    (m : Message)
    → to_line m ≡ tags_part m.tags ++ (source_part m.prefix ++ (m.command ++ params_part m.params))
unfolding to_line
to_line-text m =
    write_params-text (length m.params) 0 m.params _ (omega arith)
    ∙ rw (headed_text m.tags m.prefix m.command) (simp append_assoc)
