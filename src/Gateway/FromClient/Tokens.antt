-- ===== src/Gateway/FromClient/Tokens.antt =====
-- The parts of an EXTJWT token.
use webircgateway.Base.{
  ℕ, zero, suc, ◌-◌, ◌≤◌, ◌<◌, ◌≡◌, inl, inr, refl, ap, ◌∙◌, false, List, [], ◌∷◌, ◌++◌, append-nil,
  append_assoc, arith, ltb, Bool-cases, length, take, drop, length-drop, All, ok, ◌>>=◌,
  append-take, length-take,
}
use webircgateway.Text.Bytes.{Bytes, codes}
use webircgateway.Irc.Message.{Message, to_line}
use webircgateway.Gateway.Client.{Client, Signal, send_data}
use webircgateway.Gateway.Client.Lifecycle.{IsLive, send_live}
use webircgateway.Gateway.FromClient.{send_parts, send_token}

pub concat : List Bytes → Bytes
concat [] = []
concat (p ∷ ps) = p ++ concat ps

-- The signal of a line for the client with these params behind those of m.
unfoldable pub data_signal : Message → List Bytes → Signal
data_signal m params = (codes "data", to_line (record m { params = m.params ++ params }), [])

unfoldable pub part_signals : Message → List Bytes → List Signal
part_signals m [] = []
part_signals m (p ∷ ps) = data_signal m (codes "*" ∷ p ∷ []) ∷ part_signals m ps

-- How a token is split: parts of 200 bytes, and a last one of 200 at most.
pub record SplitsInto (token : Bytes) (parts : List Bytes) (last : Bytes) : Type 0 where
  pub joined : concat parts ++ last ≡ token
  pub full : All (λ p. length p ≡ 200) parts
  pub short : length last ≤ 200

send_parts_lem :
    (fuel : ℕ) (m : Message) (token : Bytes) (c : Client)
    → length token < fuel
    → IsLive c
    → c.shutting_down ≡ false
    → (parts : List Bytes) × (last : Bytes) × (send_parts fuel m token c
        ≡ ok (record c { signals = c.signals ++ part_signals m parts }, last))
      × SplitsInto token parts last
unfolding send_parts part_signals send_data data_signal concat
send_parts_lem zero m token c l live serving = absurd (omega arith)
send_parts_lem (suc fuel) m token c l live serving = elim (Bool-cases (ltb 200 (length token))) [
  | inl e ↦
      let cut : length (drop 200 token) ≡ length token - 200 = length-drop 200 token in
      let shorter : length (drop 200 token) < fuel = ground arith in
      let d : Client = record c {
        signals = c.signals ++ data_signal m (codes "*" ∷ take 200 token ∷ []) ∷ [];
      } in
      let (parts, last, q, s) = send_parts_lem fuel m (drop 200 token) d shorter (live) serving in
      (
        take 200 token ∷ parts,
        last,
        rw e (
            ap (λ o. o >>= λ c. send_parts fuel m (drop 200 token) c)
              (send_live (codes "data")
                (to_line (record m { params = m.params ++ codes "*" ∷ take 200 token ∷ [] }) ∷ []) c
                live serving)
            ∙ q
            ∙ simp append_assoc),
        record {
          joined =
              append_assoc (take 200 token) (concat parts) last
              ∙ ap (λ r. take 200 token ++ r) s.joined
              ∙ append-take 200 token;
          full = (length-take 200 token (ground arith), s.full);
          short = s.short;
        },
      )
  | inr e ↦
      ([], token, simp (e, append-nil), record { joined = refl; full = tt; short = ground arith })
]

-- For a live client that is not shutting down, a token is sent whole: in lines of 200 bytes each, which carry a "*"
-- in front of their part, and a last line with the rest of it, of 200 bytes at most.
pub send_token_lem :
    (m : Message) (token : Bytes) (c : Client)
    → IsLive c
    → c.shutting_down ≡ false
    → (parts : List Bytes) × (last : Bytes) × (send_token m token c
        ≡ ok (record c {
          signals = (c.signals ++ part_signals m parts) ++ data_signal m (last ∷ []) ∷ [];
        }))
      × SplitsInto token parts last
unfolding send_token send_data data_signal
send_token_lem m token c live serving =
    let (parts, last, q, s) =
      send_parts_lem (suc (length token)) m token c (omega arith) live serving in
    (
      parts,
      last,
      rw q (
          send_live (codes "data") (_ ∷ [])
            (record c { signals = c.signals ++ part_signals m parts }) (live) serving),
      s,
    )
