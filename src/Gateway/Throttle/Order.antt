-- ===== src/Gateway/Throttle/Order.antt =====
-- The lines come out of a throttled channel as they went in, and few of them wait.
use webircgateway.Base.{
  ◌≤◌, ◌≡◌, refl, sym, ap, ◌∙◌, true, Option, none, some, List, [], ◌∷◌, ◌++◌, append_assoc, arith,
  length, length-append,
}
use webircgateway.Text.Bytes.{Bytes}
use webircgateway.Gateway.Throttle.{
  Throttled, capacity, Moves, takes, hands_on, closes, receives, Step, moves, sends, ends, Reach,
  start, next,
}

abbrev pub held_line : Option Bytes → List Bytes
held_line none = []
held_line (some line) = line ∷ []

-- What holds of the channel at all times.
pub record InOrder (s : Throttled) : Type 0 where
  pub ordered : s.sent ≡ s.received ++ (s.ready ++ (held_line s.held ++ s.waiting))
  pub waiting_few : length s.waiting ≤ capacity
  pub ready_few : length s.ready ≤ capacity
  pub closed_empty :
      s.ready_closed ≡ true → (s.waiting_closed ≡ true) × (s.held ≡ none) × (s.waiting ≡ [])

Moves-InOrder : {s t : Throttled} → Moves s t → InOrder s → InOrder t
Moves-InOrder {s} (takes line rest free w e) h = rw e (record {
  ordered = h.ordered ∙ rw (free, w) refl;
  waiting_few = omega (arith, h.waiting_few, ap length w);
  ready_few = h.ready_few;
  closed_empty = λ c. absurd (cc (w, (h.closed_empty c).2));
})
Moves-InOrder {s} (hands_on line holds room e) h = rw e (record {
  ordered =
      h.ordered
      ∙ rw holds (ap (◌++◌ s.received) (sym (append_assoc s.ready (line ∷ []) s.waiting)));
  waiting_few = h.waiting_few;
  ready_few = omega (arith, room, length-append s.ready (line ∷ []));
  closed_empty = λ c. absurd (cc (holds, (h.closed_empty c).1));
})
Moves-InOrder {s} (closes free w closed open_still e) h = rw e (record {
  ordered = h.ordered;
  waiting_few = h.waiting_few;
  ready_few = h.ready_few;
  closed_empty = λ c. (closed, free, w);
})
Moves-InOrder {s} (receives line rest r e) h = rw e (record {
  ordered =
      h.ordered
      ∙ rw r (sym (append_assoc s.received (line ∷ []) (rest ++ (held_line s.held ++ s.waiting))));
  waiting_few = h.waiting_few;
  ready_few = omega (arith, h.ready_few, ap length r);
  closed_empty = h.closed_empty;
})

at_end :
    (a b c d : List Bytes) (line : Bytes)
    → (a ++ (b ++ (c ++ d))) ++ line ∷ [] ≡ a ++ (b ++ (c ++ (d ++ line ∷ [])))
at_end a b c d line = simp append_assoc

Step-InOrder : {s t : Throttled} → Step s t → InOrder s → InOrder t
Step-InOrder (moves m) h = Moves-InOrder m h
Step-InOrder {s} (sends line open_still room e) h = rw e (record {
  ordered =
      ap (λ l. l ++ line ∷ []) h.ordered
      ∙ at_end s.received s.ready (held_line s.held) s.waiting line;
  waiting_few = omega (arith, room, length-append s.waiting (line ∷ []));
  ready_few = h.ready_few;
  closed_empty = λ c. absurd (cc (open_still, (h.closed_empty c).0));
})
Step-InOrder {s} (ends open_still e) h = rw e (record {
  ordered = h.ordered;
  waiting_few = h.waiting_few;
  ready_few = h.ready_few;
  closed_empty = λ c. (refl, (h.closed_empty c).1, (h.closed_empty c).2);
})

-- In every state that a new channel reaches, however sender, goroutine and reader take turns, the lines received are
-- the first of those sent, in their order and with none lost: the others wait, at most 50 on each side and
-- one between. Where the reader's side is closed, nothing waits in front of it and the sender's is closed.
pub Reach-InOrder : {s : Throttled} → Reach s → InOrder s
Reach-InOrder (start e) = rw e (record {
  ordered = refl;
  waiting_few = omega arith;
  ready_few = omega arith;
  closed_empty = λ c. absurd (cc);
})
Reach-InOrder (next r st) = Step-InOrder st (Reach-InOrder r)
