-- ===== src/Gateway/Transports/Delivery.antt =====
-- A tcp client reads the data lines that were sent before its shutdown, in their order, and then the end.
use webircgateway.Base.{
  ◌≡◌, inl, inr, refl, ap, ◌∙◌, Bool, true, false, List, [], ◌∷◌, ◌++◌, map, if◌then◌else◌,
  Bool-cases, Returns,
}
use webircgateway.Text.Bytes.{Bytes, codes, equal}
use webircgateway.Gateway.Client.{Client, Signal}
use webircgateway.Gateway.Client.Lifecycle.{IsLive, LifeOp, run, run_lem, sent_by, closes, shut}
use webircgateway.Gateway.Transports.Wire.{WireOp, writes, closes_conn, tcp_wire}

-- The texts of the data signals, in their order.
unfoldable pub data_texts : List Signal → List Bytes
data_texts [] = []
data_texts ((kind, text, reason) ∷ signals) =
    let rest = data_texts signals in if equal kind (codes "data") then text ∷ rest else rest

-- A text as a line of its own.
abbrev pub write_line : Bytes → WireOp
write_line text = writes (text ++ b'\n' ∷ [])

abbrev pub ending : Bool → List WireOp
ending closed = if closed then closes_conn ∷ [] else []

tcp_wire_lem :
    (signals : List Signal) (closed : Bool)
    → tcp_wire signals closed ≡ map write_line (data_texts signals) ++ ending closed
unfolding tcp_wire data_texts
tcp_wire_lem [] closed = refl
tcp_wire_lem ((kind, text, reason) ∷ signals) closed =
    elim (Bool-cases (equal kind (codes "data"))) [
      | inl e ↦ rw e (ap (◌∷◌ (write_line text)) (tcp_wire_lem signals closed))
      | inr e ↦ rw e (tcp_wire_lem signals closed)
    ]

-- A tcp connection of a fresh client: whatever signals and shutdowns the gateway asks for, in any order and number, no
-- call panics, and what handleConn then writes is a line for each data signal asked for before the first
-- shutdown, in their order, with the connection's end behind them if there was a shutdown.
pub delivery_lem :
    (ops : List LifeOp) (c : Client)
    → IsLive c
    → c.shutting_down ≡ false
    → c.signals ≡ []
    → Returns (run ops c) (λ d.
      tcp_wire d.signals d.signals_closed
      ≡ map write_line (data_texts (sent_by ops)) ++ ending (closes ops))
delivery_lem ops c h live none_sent = elim (Bool-cases (closes ops)) [
  | inl e ↦ (
    shut (record c { signals = c.signals ++ sent_by ops }),
    run_lem ops c h live ∙ rw e refl,
    tcp_wire_lem (c.signals ++ sent_by ops) true ∙ rw (e, none_sent) refl,
  )
  | inr e ↦ (
    record c { signals = c.signals ++ sent_by ops },
    run_lem ops c h live ∙ rw e refl,
    tcp_wire_lem (c.signals ++ sent_by ops) c.signals_closed
        ∙ rw (e, none_sent, h.closed, live) refl,
  )
]
