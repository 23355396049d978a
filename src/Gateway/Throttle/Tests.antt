-- ===== src/Gateway/Throttle/Tests.antt =====
-- The throttled channel with one line.
use webircgateway.Base.{◌≤◌, ◌≡◌, ◌⊎◌, refl, true, some, [], ◌∷◌, arith}
use webircgateway.Text.Bytes.{codes}
use webircgateway.Gateway.Throttle.{
  Throttled, new_throttled_string_channel, Moves, takes, sends, ends, Reach, start, next,
}
use webircgateway.Gateway.Throttle.Order.{InOrder, Reach-InOrder}
use webircgateway.Gateway.Throttle.Drains.{stops, goes, Drained, Runs-Drained}

abbrev one_sent : Throttled
one_sent = record new_throttled_string_channel {
  sent = codes "NICK a" ∷ [];
  waiting = codes "NICK a" ∷ [];
}

abbrev all_sent : Throttled
all_sent = record one_sent { waiting_closed = true }

abbrev taken : Throttled
taken = record all_sent { waiting = []; held = some (codes "NICK a") }

Reach-one_sent : Reach one_sent
Reach-one_sent = next (start refl) (sends (codes "NICK a") refl (omega arith) refl)

Reach-InOrder_example : InOrder one_sent
Reach-InOrder_example = Reach-InOrder {s = one_sent} Reach-one_sent

Runs-Drained_example :
    (1 ≤ 203) × (taken.sent ≡ all_sent.sent) × (((u : Throttled) × Moves taken u) ⊎ Drained taken)
Runs-Drained_example =
    Runs-Drained all_sent taken 1 (next Reach-one_sent (ends refl refl)) refl
      (goes (stops refl) (takes (codes "NICK a") [] refl refl refl))
