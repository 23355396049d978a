-- ===== src/Gateway/Transports/Kiwiirc/Safe.antt =====
-- In every state of a kiwiirc session: which messages panic or wait, and that nothing else does.
use webircgateway.Base.{
  ◌≡◌, ◌≢◌, ◌↔◌, ◌⊎◌, inl, inr, refl, sym, ap, ◌∙◌, Bool, true, false, Option, none, some, List, [],
  ◌∷◌, arith, ◌==◌, Bool-cases, length, Outcome, ok, panic, diverge, Returns, subst, Returns-value,
}
use webircgateway.Text.Bytes.{Bytes, codes}
use mathlib.Core.Option.{some-injective}
use webircgateway.Dict.{Dict, EachValue, lookup-EachValue, insert-EachValue, erase-EachValue}
use webircgateway.Gateway.Client.{Client}
use webircgateway.Gateway.Client.Lifecycle.{IsLive, apply}
use webircgateway.Gateway.Transports.Kiwiirc.{
  Channel, Session, send_frame, on_message, close_all, on_read_error, send_frames, signal_frames,
  finish,
}
use webircgateway.Gateway.Transports.Kiwiirc.Steps.{
  Step, reads, fails, acts, works, hears, ends, removes, Reach, opened, after,
}
use webircgateway.Gateway.Transports.Kiwiirc.Messages.{
  StartsSpaced, ToFull, Ends, spaced-panic, on_message-Ends,
}
use webircgateway.Gateway.Transports.Kiwiirc.Sound.{
  IsSound, EachSound, Stays, finish-IsSound, apply-IsLive, shutdown-IsLive, route-Stays,
  send_frame-EachSound,
}

close_all-EachSound :
    (m : Dict Channel) → EachValue IsSound m → Returns (close_all m) (EachValue IsSound)
unfolding close_all
close_all-EachSound [] h = ([], refl, tt)
close_all-EachSound ((id, ch) ∷ m) (hc, h) =
    let (c, e, l) = shutdown-IsLive (codes "client_closed") ch.client hc.live in
    let (rest, q, k) = close_all-EachSound m h in
    (
      (id, record ch { closed = true; client = c }) ∷ rest,
      rw e (rw q refl),
      (
        record {
          live = l;
          recv_with = hc.recv_with;
          wait_with = hc.wait_with;
          closed_if = inr refl;
          few = hc.few;
        },
        k,
      ),
    )

on_read_error-EachSound : (s : Session) → EachSound s → Returns (on_read_error s) EachSound
unfolding on_read_error
on_read_error-EachSound s h =
    let (m, e, k) = close_all-EachSound s.channels h in
    (record s { channels = m; reading = false }, rw e refl, k)

on_message-Stays :
    (made : Client × Bool) (msg : Bytes) (s : Session)
    → IsLive (made.0)
    → EachSound s
    → (on_message made msg s ≡ panic) ⊎ Returns (on_message made msg s) Stays
unfolding on_message
on_message-Stays made [] s l h = inr (some s, refl, inr (s, refl, h))
on_message-Stays made (b ∷ msg) s l h = elim (Bool-cases (b == b' ')) [
  | inl e ↦ inl (spaced-panic made b msg s e)
  | inr e ↦ inr (route-Stays made b msg s l h (ground arith))
]

send_frames-EachSound : (fs : List Bytes) (s : Session) → EachSound s → EachSound (send_frames fs s)
unfolding send_frames
send_frames-EachSound [] s h = h
send_frames-EachSound (f ∷ fs) s h =
    send_frames-EachSound fs (send_frame f s) (send_frame-EachSound f s h)

Stays-some : (r : Option Session) (t : Session) → Stays r → r ≡ some t → EachSound t
Stays-some r t (inl e) q = absurd (ground arith)
Stays-some r t (inr (u, e, h)) q = subst EachSound (some-injective u t (sym e ∙ q)) h

Step-EachSound : (s t : Session) → EachSound s → Step s t → EachSound t
Step-EachSound s t h (reads made msg r l e) = elim (on_message-Stays made msg s l h) [
  | inl p ↦ absurd (ground arith)
  | inr o ↦ Stays-some (some t) t (Returns-value Stays (on_message made msg s) (some t) o e) refl
]
Step-EachSound s t h (fails r e) =
    Returns-value EachSound (on_read_error s) t (on_read_error-EachSound s h) e
Step-EachSound s t h (acts id ch op c e q w) =
    let v = lookup-EachValue IsSound s.channels id ch h e in
    let l = Returns-value IsLive (apply op ch.client) c (apply-IsLive op ch.client v.live) q in
    rw w (
      insert-EachValue IsSound s.channels id _ h (record {
        live = l;
        recv_with = v.recv_with;
        wait_with = v.wait_with;
        closed_if = v.closed_if;
        few = v.few;
      }))
Step-EachSound s t h (works id ch line rest e q w) =
    let v = lookup-EachValue IsSound s.channels id ch h e in
    rw w (
      insert-EachValue IsSound s.channels id _ h (record {
        live = v.live;
        recv_with = v.recv_with;
        wait_with = v.wait_with;
        closed_if = v.closed_if;
        few = omega (arith, v.few, ap length q);
      }))
Step-EachSound s t h (hears id ch sig e li q w) =
    let v = lookup-EachValue IsSound s.channels id ch h e in
    rw w (
      insert-EachValue IsSound ((send_frames (signal_frames id sig) s).channels) id _
        (send_frames-EachSound (signal_frames id sig) s h)
        (record {
          live = v.live;
          recv_with = v.recv_with;
          wait_with = v.wait_with;
          closed_if = v.closed_if;
          few = v.few;
        }))
Step-EachSound s t h (ends id ch ch' e li n c q w) =
    let v = lookup-EachValue IsSound s.channels id ch h e in
    rw w (
      insert-EachValue IsSound s.channels id ch' h
        (Returns-value IsSound (finish ch) ch' (finish-IsSound ch v li) q))
Step-EachSound s t h (removes id ch e q w) = rw w (erase-EachValue IsSound s.channels id h)

Reach-EachSound : {s : Session} → Reach s → EachSound s
Reach-EachSound (opened e) = rw e tt
Reach-EachSound (after {s} {t} r step) = Step-EachSound s t (Reach-EachSound r) step

-- The listener of a channel, if it is still in its loop, can end without closing anything twice.
abbrev pub CanFinish : Channel → Type 0
CanFinish ch = (ch.listening ≡ false) ⊎ ((ch' : Channel) × (finish ch ≡ ok ch'))

IsSound-CanFinish : (ch : Channel) → IsSound ch → CanFinish ch
IsSound-CanFinish ch h = elim (Bool-cases ch.listening) [
  | inl e ↦ (let (ch', q, k) = finish-IsSound ch h e in inr (ch', q))
  | inr e ↦ inl e
]

each-CanFinish : (m : Dict Channel) → EachValue IsSound m → EachValue CanFinish m
each-CanFinish [] h = tt
each-CanFinish ((id, ch) ∷ m) (c, h) = (IsSound-CanFinish ch c, each-CanFinish m h)

-- A message panics exactly if it starts with a space, waits exactly if it is for an open channel whose Recv is full, and
-- returns in every other case.
abbrev pub Decided : Client × Bool → Bytes → Session → Type 0
Decided made msg s =
    ((on_message made msg s ≡ panic) ↔ StartsSpaced msg)
    × ((on_message made msg s ≡ ok none) ↔ ToFull msg s)
    × (on_message made msg s ≢ diverge)

not_both : {o : Outcome (Option Session)} {t : Session} → o ≡ ok (some t) → o ≡ ok none → ⊥
not_both e p = cc

Ends-Decided :
    (made : Client × Bool) (msg : Bytes) (s : Session) → Ends made msg s → Decided made msg s
Ends-Decided made msg s (inl (starts, e, n)) =
    ((λ p. starts, λ p. e), (λ p. absurd (cc), λ f. absurd (n f)), λ p. cc)
Ends-Decided made msg s (inr (inl (n, e, full))) =
    ((λ p. absurd (cc), λ p. absurd (n p)), (λ p. full, λ f. e), λ p. cc)
Ends-Decided made msg s (inr (inr (n, f, (t, e)))) = (
  (λ p. absurd (cc), λ p. absurd (n p)),
  (λ p. absurd (not_both e p), λ full. absurd (f full)),
  λ p. cc,
)

-- In every state that a session reaches, however its goroutines take turns: a message, for which makeChannel may make a
-- live client, panics exactly if it starts with a space, waits exactly if its first space is behind its first byte and
-- the bytes between name an open channel whose Recv is full, and else returns; the loop behind the session's failure
-- returns; and no listener that is still in its loop closes a channel twice when it ends.
pub Reach-safe :
    (s : Session) (made : Client × Bool) (msg : Bytes)
    → Reach s
    → IsLive (made.0)
    → Decided made msg s
      × ((t : Session) × (on_read_error s ≡ ok t))
      × EachValue CanFinish s.channels
Reach-safe s made msg r l =
    let h = Reach-EachSound r in
    let (t, e, k) = on_read_error-EachSound s h in
    (Ends-Decided made msg s (on_message-Ends made msg s h), (t, e), each-CanFinish s.channels h)
