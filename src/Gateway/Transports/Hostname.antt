-- ===== src/Gateway/Transports/Hostname.antt =====
-- The host name that a transport gives a client resolves back to the client's address.
use webircgateway.Base.{
  ◌≡◌, ◌⊎◌, inl, inr, refl, ap, true, Option, none, some, List, [], ◌∷◌, arith, ◌==◌, Bool-cases,
  ok, panic,
}
use webircgateway.Text.Bytes.{Bytes, equal_iff, trim}
use webircgateway.Gateway.Transports.{
  Resolver, is_only, confirmed, first_name, remote_hostname, guarded_name, kiwi_hostname,
}

-- A host name that a client may carry: its address, or a name that DNS resolves to this address alone.
abbrev pub Confirmed : Resolver → Bytes → Bytes → Type 0
Confirmed res remote name = (name ≡ remote) ⊎ (res.lookup_ip name ≡ some (remote ∷ []))

is_only_lem :
    (addrs : Option (List Bytes)) (remote : Bytes)
    → is_only addrs remote ≡ true
    → addrs ≡ some (remote ∷ [])
is_only_lem none remote e = absurd (ground arith)
is_only_lem (some []) remote e = absurd (ground arith)
is_only_lem (some (a ∷ [])) remote e = ap (λ a. some (a ∷ [])) ((equal_iff a remote).0 e)
is_only_lem (some (a ∷ b ∷ addrs)) remote e = absurd (ground arith)

module _ (res : Resolver) where
  confirmed-Confirmed : (remote name : Bytes) → Confirmed res remote (confirmed res remote name)
  unfolding confirmed
  confirmed-Confirmed remote name =
      let potential = trim (λ c. c == b'.') name in
      elim (Bool-cases (is_only (res.lookup_ip potential) remote)) [
        | inl e ↦ rw e (inr (is_only_lem (res.lookup_ip potential) remote e))
        | inr e ↦ rw e (inl refl)
      ]

  guarded_name-Confirmed :
      (remote : Bytes) (names : Option (List Bytes))
      → Confirmed res remote (guarded_name res remote names)
  unfolding guarded_name
  guarded_name-Confirmed remote none = inl refl
  guarded_name-Confirmed remote (some []) = inl refl
  guarded_name-Confirmed remote (some (name ∷ names)) = confirmed-Confirmed remote name

  first_name-guarded :
      (remote : Bytes) (names : Option (List Bytes))
      → ((names ≡ some []) × (first_name res remote names ≡ panic))
        ⊎ (first_name res remote names ≡ ok (guarded_name res remote names))
  unfolding first_name guarded_name
  first_name-guarded remote none = inr refl
  first_name-guarded remote (some []) = inl (refl, refl)
  first_name-guarded remote (some (name ∷ names)) = inr refl

  -- The kiwiirc transport gives a client its address for a name, or a name that resolves to this address alone. The other three
  -- transports give the same name, or panic, which happens only where DNS answers with no name and no error.
  pub remote_hostname_lem :
      (remote : Bytes)
      → Confirmed res remote (kiwi_hostname res remote)
        × (((res.lookup_addr remote ≡ some []) × (remote_hostname res remote ≡ panic))
            ⊎ (remote_hostname res remote ≡ ok (kiwi_hostname res remote)))
  unfolding remote_hostname kiwi_hostname
  remote_hostname_lem remote = (
    guarded_name-Confirmed remote (res.lookup_addr remote),
    first_name-guarded remote (res.lookup_addr remote),
  )
