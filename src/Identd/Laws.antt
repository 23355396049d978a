-- ===== src/Identd/Laws.antt =====
-- The ident server's entries as a function of two ports.
use webircgateway.Base.{
  ℕ, ◌≡◌, inl, inr, refl, sym, ap, ap₂, ◌∙◌, Bool, ◌&&◌, Option, none, some, List, [], ◌∷◌, ◌++◌,
  arith, ◌==◌, if◌then◌else◌, Bool-cases,
}
use webircgateway.Text.Bytes.{Bytes, equal, equal_iff, Lacks}
use webircgateway.Text.Decimal.{format, format-injective, format-Lacks}
use webircgateway.Dict.{Dict, lookup, lookup-insert, lookup-erase}
use webircgateway.Identd.Server.{entry_key, add_ident, remove_ident}

-- Two texts that are cut at the same first separator have the same two parts.
cut_injective :
    (sep : ℕ) (a b c d : Bytes)
    → Lacks sep a
    → Lacks sep c
    → a ++ sep ∷ b ≡ c ++ sep ∷ d
    → (a ≡ c) × (b ≡ d)
cut_injective sep [] b [] d la lc e = (refl, cc)
cut_injective sep [] b (y ∷ c) d la (hy, lc) e = absurd (hy (cc))
cut_injective sep (x ∷ a) b [] d (hx, la) lc e = absurd (hx (cc))
cut_injective sep (x ∷ a) b (y ∷ c) d (hx, la) (hy, lc) e =
    let (front, back) = cut_injective sep a b c d la lc (cc) in let head : x ≡ y = cc in (cc, back)

-- The entries' keys tell every two pairs of ports apart.
pub entry_key-injective : (l r l' r' : ℕ) → entry_key l r ≡ entry_key l' r' → (l ≡ l') × (r ≡ r')
unfolding entry_key
entry_key-injective l r l' r' e =
    let (el, er) =
      cut_injective b'-' (format l) (format r) (format l') (format r')
        (format-Lacks b'-' l (omega arith)) (format-Lacks b'-' l' (omega arith)) e in
    (format-injective l l' el, format-injective r r' er)

-- The calls that change the entries.
pub data IdentOp : Type 0 where
  add : ℕ → ℕ → Bytes → IdentOp
  remove : ℕ → ℕ → IdentOp

pub run : List IdentOp → Dict Bytes → Dict Bytes
run [] entries = entries
run (add l r ident ∷ ops) entries = run ops (add_ident l r ident entries)
run (remove l r ∷ ops) entries = run ops (remove_ident l r entries)

abbrev same_ports : ℕ → ℕ → ℕ → ℕ → Bool
same_ports l r l' r' = l == l' && r == r'

-- The ident of a pair of ports after the calls: that of the last AddIdent for it, unless a RemoveIdent
-- for it came later.
pub ident_of : List IdentOp → ℕ → ℕ → Option Bytes → Option Bytes
ident_of [] l r old = old
ident_of (add l' r' ident ∷ ops) l r old =
    ident_of ops l r (if same_ports l' r' l r then some ident else old)
ident_of (remove l' r' ∷ ops) l r old =
    ident_of ops l r (if same_ports l' r' l r then none else old)

key_test : (l r l' r' : ℕ) → equal (entry_key l r) (entry_key l' r') ≡ same_ports l r l' r'
key_test l r l' r' = elim (Bool-cases (same_ports l r l' r')) [
  | inl e ↦
      let el : l ≡ l' = ground arith in
      let er : r ≡ r' = ground arith in (equal_iff _ _).1 (ap₂ entry_key el er) ∙ sym e
  | inr e ↦ elim (Bool-cases (equal (entry_key l r) (entry_key l' r'))) [
    | inl f ↦
        let (el, er) = entry_key-injective l r l' r' ((equal_iff _ _).0 f) in absurd (ground arith)
    | inr f ↦ f ∙ sym e
  ]
]

-- After any sequence of AddIdent and RemoveIdent a pair of ports has the ident of the last AddIdent for it,
-- none if a RemoveIdent for it came later, and what it had before if no call names it; calls for
-- other pairs never interfere.
pub lookup-run :
    (ops : List IdentOp) (entries : Dict Bytes) (l r : ℕ)
    → lookup (run ops entries) (entry_key l r) ≡ ident_of ops l r (lookup entries (entry_key l r))
unfolding run ident_of
lookup-run [] entries l r = refl
lookup-run (add l' r' ident ∷ ops) entries l r =
    lookup-run ops (add_ident l' r' ident entries) l r
    ∙ ap (ident_of ops l r) (
        unfold add_ident in
        lookup-insert entries (entry_key l' r') (entry_key l r) ident
        ∙ ap (λ b. if b then some ident else lookup entries (entry_key l r)) (key_test l' r' l r))
lookup-run (remove l' r' ∷ ops) entries l r =
    lookup-run ops (remove_ident l' r' entries) l r
    ∙ ap (ident_of ops l r) (
        unfold remove_ident in
        lookup-erase entries (entry_key l' r') (entry_key l r)
        ∙ ap (λ b. if b then none else lookup entries (entry_key l r)) (key_test l' r' l r))
