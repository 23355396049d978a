-- ===== src/Gateway/Throttle/Drains.antt =====
-- A throttled channel whose sender is done hands over all that it was sent.
use webircgateway.Base.{
  ℕ, suc, ◌+◌, ◌*◌, ◌≤◌, ◌≡◌, ◌⊎◌, inl, inr, refl, sym, ap, ◌∙◌, true, false, Option, none, some,
  [], ◌∷◌, append-nil, arith, if◌then◌else◌, Bool-cases, Option-cases, length, length-append,
  List-cases,
}
use webircgateway.Text.Bytes.{Bytes}
use webircgateway.Gateway.Throttle.{
  Throttled, Moves, takes, hands_on, closes, receives, moves, Reach, next,
}
use webircgateway.Gateway.Throttle.Order.{InOrder, Reach-InOrder}

-- n moves of the goroutine and the reader, in any order.
pub data Runs (s : Throttled) : ℕ → Throttled → Type 0 where
  stops : {t : Throttled} → t ≡ s → Runs s 0 t
  goes : {n : ℕ} {t u : Throttled} → Runs s n t → Moves t u → Runs s (suc n) u

held_weight : Option Bytes → ℕ
held_weight none = 0
held_weight (some line) = 2

-- The moves that are still to come: three for a line that waits, two for one that is held, one for one that is
-- ready, and the closing.
weight : Throttled → ℕ
weight s =
    3 * length s.waiting
    + (held_weight s.held + (length s.ready + (if s.ready_closed then 0 else 1)))

Moves-weight : {s t : Throttled} → Moves s t → weight s ≡ suc (weight t)
unfolding weight held_weight
Moves-weight {s} (takes line rest free w e) = rw e (rw (free, w) (omega arith))
Moves-weight {s} (hands_on line holds room e) =
    rw e (rw holds (omega (arith, length-append s.ready (line ∷ []))))
Moves-weight {s} (closes free w closed open_still e) = rw e (rw (free, w, open_still) (omega arith))
Moves-weight {s} (receives line rest r e) = rw e (rw r (omega arith))

-- What the moves leave alone.
record Follows (s t : Throttled) : Type 0 where
  sent_is : t.sent ≡ s.sent
  closed_is : t.waiting_closed ≡ s.waiting_closed

Moves-Follows : {s t : Throttled} → Moves s t → Follows s t
Moves-Follows (takes line rest free w e) = record {
  sent_is = ap (λ t. t.sent) e;
  closed_is = ap (λ t. t.waiting_closed) e;
}
Moves-Follows (hands_on line holds room e) = record {
  sent_is = ap (λ t. t.sent) e;
  closed_is = ap (λ t. t.waiting_closed) e;
}
Moves-Follows (closes free w closed open_still e) = record {
  sent_is = ap (λ t. t.sent) e;
  closed_is = ap (λ t. t.waiting_closed) e;
}
Moves-Follows (receives line rest r e) = record {
  sent_is = ap (λ t. t.sent) e;
  closed_is = ap (λ t. t.waiting_closed) e;
}

Runs-Reach : {s t : Throttled} {n : ℕ} → Reach s → Runs s n t → Reach t
Runs-Reach r (stops e) = rw e r
Runs-Reach r (goes rs m) = next (Runs-Reach r rs) (moves m)

Runs-Follows : {s t : Throttled} {n : ℕ} → Runs s n t → Follows s t
Runs-Follows (stops e) = record {
  sent_is = ap (λ t. t.sent) e;
  closed_is = ap (λ t. t.waiting_closed) e;
}
Runs-Follows (goes rs m) =
    let f = Runs-Follows rs in
    let g = Moves-Follows m in
    record { sent_is = g.sent_is ∙ f.sent_is; closed_is = g.closed_is ∙ f.closed_is }

Runs-weight : {s t : Throttled} {n : ℕ} → Runs s n t → n + weight t ≡ weight s
Runs-weight (stops e) = omega (arith, ap weight e)
Runs-weight (goes rs m) = omega (arith, Runs-weight rs, Moves-weight m)

-- Nothing is left to do: all lines are with the reader, and its channel is closed.
pub record Drained (s : Throttled) : Type 0 where
  pub all_received : s.received ≡ s.sent
  pub none_ready : s.ready ≡ []
  pub closed : s.ready_closed ≡ true

progress :
    (s : Throttled)
    → InOrder s
    → s.waiting_closed ≡ true
    → ((t : Throttled) × Moves s t) ⊎ Drained s
progress s h c = elim (List-cases s.ready) [
  | inr (line, rest, r) ↦ inl (_, receives line rest r refl)
  | inl r ↦ elim (Option-cases s.held) [
    | inr (line, holds) ↦ inl (_, hands_on line holds (omega (arith, ap length r)) refl)
    | inl free ↦ elim (List-cases s.waiting) [
      | inr (line, rest, w) ↦ inl (_, takes line rest free w refl)
      | inl w ↦ elim (Bool-cases s.ready_closed) [
        | inl closed ↦ inr (record {
          all_received = sym (h.ordered ∙ rw (r, free, w) (append-nil s.received));
          none_ready = r;
          closed = closed;
        })
        | inr open_still ↦ inl (_, closes free w c open_still refl)
      ]
    ]
  ]
]

weight-InOrder : (s : Throttled) → InOrder s → weight s ≤ 203
unfolding weight held_weight
weight-InOrder s h = few s.held (Bool-cases s.ready_closed)
  where
    few :
        (o : Option Bytes)
        → (s.ready_closed ≡ true) ⊎ (s.ready_closed ≡ false)
        → 3 * length s.waiting
            + (held_weight o + (length s.ready + (if s.ready_closed then 0 else 1)))
          ≤ 203
    few none (inl e) = rw e (omega (arith, h.waiting_few, h.ready_few))
    few none (inr e) = rw e (omega (arith, h.waiting_few, h.ready_few))
    few (some line) (inl e) = rw e (omega (arith, h.waiting_few, h.ready_few))
    few (some line) (inr e) = rw e (omega (arith, h.waiting_few, h.ready_few))

-- From every state that a new channel reaches and whose sender has closed it, goroutine and reader make at most 203
-- moves, in whatever order; and wherever they stand, either a move is possible or the reader has received
-- every line that was sent, and its channel is closed. So the reader gets all, and then the end.
pub Runs-Drained :
    (s t : Throttled) (n : ℕ)
    → Reach s
    → s.waiting_closed ≡ true
    → Runs s n t
    → (n ≤ 203) × (t.sent ≡ s.sent) × (((u : Throttled) × Moves t u) ⊎ Drained t)
Runs-Drained s t n r closed runs =
    let f = Runs-Follows runs in
    (
      omega (arith, Runs-weight runs, weight-InOrder s (Reach-InOrder r)),
      f.sent_is,
      progress t (Reach-InOrder (Runs-Reach r runs)) (f.closed_is ∙ closed),
    )
