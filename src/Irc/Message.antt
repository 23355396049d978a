-- ===== src/Irc/Message.antt =====
-- pkg/irc/message.go: the message and mask records, ParseLine with nextToken and createMask, and
-- ToLine. A string is a list of bytes; `append` and `+=` build the value from left to right.
pub mod Masks
pub mod Tokens
pub mod Total
pub mod Layout
pub mod Reading
pub mod Stages
pub mod RoundTrip
pub mod Tests
use webircgateway.Base.{
  ℕ, zero, suc, ◌+◌, ◌-◌, Bool, true, false, not, ◌&&◌, ◌||◌, Option, none, some, List, [], ◌∷◌,
  ◌++◌, ltb, ◌==◌, if◌then◌else◌, length, get_elem?, take, drop, Outcome, ok, diverge, ◌>>=◌,
}
use webircgateway.Text.Bytes.{
  Bytes, codes, is_empty, to_upper, trim_left, trim, is_space, is_newline, has_prefix, contains,
}
use webircgateway.Text.Index.{index, slice, split}
use webircgateway.Dict.{Dict, insert}

pub record Mask : Type 0 where
  pub nick : Bytes
  pub username : Bytes
  pub hostname : Bytes
  pub mask : Bytes

-- `prefix` is a pointer, which may be nil.
pub record Message : Type 0 where
  pub raw : Bytes
  pub tags : Dict Bytes
  pub prefix : Option Mask
  pub command : Bytes
  pub params : List Bytes

abbrev pub empty_mask : Mask
empty_mask = record { nick = []; username = []; hostname = []; mask = [] }

abbrev pub new_message : Message
new_message = record { raw = []; tags = []; prefix = some empty_mask; command = []; params = [] }

-- The index is never negative where the program calls it.
unfoldable pub get_param : Message → ℕ → Bytes → Bytes
get_param m idx def = elim (get_elem? m.params idx) [ none ↦ def | some p ↦ p ]

unfoldable pub get_param_u : Message → ℕ → Bytes → Bytes
unfolding get_param to_upper
get_param_u m idx def = to_upper (get_param m idx def)

-- The branches of createMask, on the positions of "!" and "@".
pub mask_at : Bytes → Option ℕ → Option ℕ → Outcome Mask
mask_at s none none = ok (record { nick = s; username = []; hostname = []; mask = s })
mask_at s (some u) (some h) = do
  nick ← slice s 0 u
  username ← slice s (u + 1) h
  hostname ← slice s (h + 1) (length s)
  ok (record { nick = nick; username = username; hostname = hostname; mask = s })
mask_at s (some u) none = do
  nick ← slice s 0 u
  username ← slice s (u + 1) (length s)
  ok (record { nick = nick; username = username; hostname = []; mask = s })
mask_at s none (some h) = do
  username ← slice s 0 h
  hostname ← slice s (h + 1) (length s)
  ok (record { nick = []; username = username; hostname = hostname; mask = s })

pub create_mask : Bytes → Outcome Mask
create_mask s = mask_at s (index s b'!') (index s b'@')

-- s[:spaceIdx] and s[spaceIdx+1:], or s and "" where there is no space
pub cut_at : Bytes → Option ℕ → Bytes × Bytes
cut_at s none = (s, [])
cut_at s (some i) = (take i s, drop (i + 1) s)

-- nextToken behind the TrimLeft
pub token_of : Bytes → Bool → Bytes × Bytes
token_of [] allow_trailing = ([], [])
token_of (c ∷ s) allow_trailing =
    if allow_trailing && c == 58 then (s, []) else cut_at (c ∷ s) (index (c ∷ s) b' ')

pub next_token : Bytes → Bool → Bytes × Bytes
next_token s allow_trailing = token_of (trim_left is_space s) allow_trailing

pub data ParseError : Type 0 where
  empty_line missing_command : ParseError

-- message.Tags[parts[0]] = parts[1], or "" for a tag with no "="
pub store_tag : Dict Bytes → List Bytes → Dict Bytes
store_tag tags [] = tags
store_tag tags ([] ∷ parts) = tags
store_tag tags ((c ∷ name) ∷ []) = insert tags (c ∷ name) []
store_tag tags ((c ∷ name) ∷ value ∷ parts) = insert tags (c ∷ name) value

pub read_tags : List Bytes → Dict Bytes → Dict Bytes
read_tags [] tags = tags
read_tags (t ∷ ts) tags = read_tags ts (store_tag tags (split t b'='))

-- The loop over the params. Fuel: each round but the last takes a byte at least of the rest.
pub read_params : ℕ → Bytes → List Bytes → Outcome (List Bytes)
read_params zero rest params = diverge
read_params (suc fuel) rest params =
    let t = next_token rest true in
    let more = read_params fuel t.1 (params ++ t.0 ∷ []) in if is_empty t.0 then ok params else more

pub parse_command : Message → Bytes → Bytes → Outcome (Message × Option ParseError)
parse_command m [] rest = ok (m, some missing_command)
parse_command m (c ∷ token) rest = do
  params ← read_params (suc (length rest)) rest m.params
  ok (record m { command = c ∷ token; params = params }, none)

pub parse_prefix : Message → Bytes → Bytes → Outcome (Message × Option ParseError)
parse_prefix m [] rest = do p ← create_mask []; parse_command (record m { prefix = some p }) [] rest
parse_prefix m (c ∷ token) rest =
    if c == 58
    then (create_mask token >>= λ p.
        let t = next_token rest false in parse_command (record m { prefix = some p }) t.0 t.1)
    else (create_mask [] >>= λ p. parse_command (record m { prefix = some p }) (c ∷ token) rest)

pub parse_tags : Message → Bytes → Bytes → Outcome (Message × Option ParseError)
parse_tags m [] rest = ok (m, some empty_line)
parse_tags m (c ∷ token) rest =
    if c == 64
    then (let t = next_token rest false in
        parse_prefix (record m { tags = read_tags (split token b';') m.tags }) t.0 t.1)
    else parse_prefix m (c ∷ token) rest

-- ParseLine returns the message beside the error.
unfoldable pub parse_line : Bytes → Outcome (Message × Option ParseError)
unfolding parse_tags parse_prefix parse_command read_params read_tags store_tag next_token token_of
    cut_at create_mask mask_at trim trim_left split slice index insert
parse_line input =
    let line = trim is_newline input in
    let t = next_token line false in parse_tags (record new_message { raw = line }) t.0 t.1

-- One round of the loop over the tags; `count` is tagCount behind its increment.
pub write_tag : ℕ → ℕ → Bytes × Bytes → Bytes → Bytes
write_tag total count (name, value) line =
    let named = line ++ name in
    let valued = if not (is_empty value) then named ++ b'=' ∷ value else named in
    if ltb count total then valued ++ b';' ∷ [] else valued

pub write_tags : ℕ → ℕ → Dict Bytes → Bytes → Bytes
write_tags total count [] line = line
write_tags total count (t ∷ ts) line =
    write_tags total (count + 1) ts (write_tag total (count + 1) t line)

-- The local `prefix` of ToLine.
pub prefix_text : Mask → Bytes
prefix_text p =
    let named = if not (is_empty p.nick) then p.nick else [] in
    let with_user =
      if not (is_empty p.username) && not (is_empty p.nick)
      then named ++ b'!' ∷ p.username
      else if not (is_empty p.username)
      then named ++ p.username
      else named in
    if not (is_empty p.hostname) && not (is_empty with_user)
    then with_user ++ b'@' ∷ p.username
    else if not (is_empty p.hostname)
    then with_user ++ p.hostname
    else with_user

abbrev pub has_source : Mask → Bool
has_source p = not (is_empty p.nick) || not (is_empty p.username) || not (is_empty p.hostname)

pub write_prefix : Option Mask → Bytes → Bytes
write_prefix none line = line
write_prefix (some p) line =
    if has_source p
    then (if not (is_empty line)
        then line ++ b' ' ∷ b':' ∷ prefix_text p
        else line ++ b':' ∷ prefix_text p)
    else line

pub write_params : ℕ → ℕ → List Bytes → Bytes → Bytes
write_params total idx [] line = line
write_params total idx (p ∷ ps) line = write_params total (idx + 1) ps (
    if idx == total - 1 && (contains p (codes " ") || has_prefix p (codes ":"))
    then line ++ b' ' ∷ b':' ∷ p
    else line ++ b' ' ∷ p)

pub start_tags : Dict Bytes → Bytes
start_tags ts = if ltb 0 (length ts) then write_tags (length ts) 0 ts (b'@' ∷ []) else []

pub write_command : Bytes → Bytes → Bytes
write_command line command = if not (is_empty line) then line ++ b' ' ∷ command else line ++ command

unfoldable pub to_line : Message → Bytes
unfolding start_tags write_tags write_tag write_prefix prefix_text write_command write_params
    contains has_prefix
to_line m =
    let headed = write_command (write_prefix m.prefix (start_tags m.tags)) m.command in
    write_params (length m.params) 0 m.params headed
