-- ===== src/Dnsbl/Reverse.antt =====
-- The loops that swap items from both ends reverse a list.
use webircgateway.Base.{
  ℕ, zero, suc, ◌+◌, ◌-◌, ◌/◌, ◌<◌, ◌≡◌, ◌⊎◌, inl, inr, refl, sym, ap, ◌∙◌, Bool, true, false, some,
  List, [], ◌∷◌, ◌++◌, append-nil, append_assoc, arith, ltb, length, get_elem?, set, length-append,
  ok,
}
use mathlib.Core.List.{reverse, reverse-cons, reverse-append, append-nil}
use webircgateway.Dnsbl.{swap_while}

-- The test of a loop over a list of this length agrees with i < j wherever the two meet.
abbrev pub AgreesOn : ℕ → (ℕ → ℕ → Bool) → Type 0
AgreesOn n test = (i j : ℕ) → (i + j + 1 ≡ n) ⊎ ((n ≡ 0) × (i ≡ 0) × (j ≡ 0)) → test i j ≡ ltb i j

-- Where the loop stops on a list of even length.
meets_empty :
    (n k : ℕ) → n ≡ k + k → (k + (k + 0 - 1) + 1 ≡ n) ⊎ ((n ≡ 0) × (k ≡ 0) × (k + 0 - 1 ≡ 0))
meets_empty n zero e = inr (e, refl, refl)
meets_empty n (suc k) e = inl (omega arith)

module _ {A : Type 0} where
  get_elem?-append : (a r : List A) (x : A) → get_elem? (a ++ x ∷ r) (length a) ≡ some x
  get_elem?-append [] r x = refl
  get_elem?-append (y ∷ a) r x = get_elem?-append a r x

  set-append : (a r : List A) (x v : A) → set (a ++ x ∷ r) (length a) v ≡ a ++ v ∷ r
  set-append [] r x v = refl
  set-append (y ∷ a) r x v = ap (◌∷◌ y) (set-append a r x v)

  -- Two ends around a middle: where the second stands.
  module _ (pre m post : List A) (x y : A) where
    second_place : length pre + length m + 1 ≡ length (pre ++ x ∷ m)
    second_place = omega (arith, length-append pre (x ∷ m))

    second_assoc : (v : A) → (pre ++ x ∷ m) ++ v ∷ post ≡ pre ++ (x ∷ (m ++ v ∷ post))
    second_assoc v = append_assoc pre (x ∷ m) (v ∷ post)

    get_elem?-second : get_elem? (pre ++ (x ∷ (m ++ y ∷ post))) (length pre + length m + 1) ≡ some y
    get_elem?-second = rw (second_place, ← second_assoc y) (get_elem?-append (pre ++ x ∷ m) post y)

    set-second :
        (v : A)
        → set (pre ++ (x ∷ (m ++ y ∷ post))) (length pre + length m + 1) v
          ≡ pre ++ (x ∷ (m ++ v ∷ post))
    set-second v =
        rw (second_place, ← second_assoc y, ← second_assoc v) (set-append (pre ++ x ∷ m) post y v)

  swap_step :
      (pre m post : List A) (x y : A) (test : ℕ → ℕ → Bool) (fuel : ℕ)
      → test (length pre) (length pre + length m + 1) ≡ true
      → swap_while test
          (suc fuel)
          (length pre)
          (length pre + length m + 1)
          (pre ++ (x ∷ (m ++ y ∷ post)))
        ≡ swap_while test fuel
            (length pre + 1)
            (length pre + length m)
            (pre ++ (y ∷ (m ++ x ∷ post)))
  unfolding swap_while
  swap_step pre m post x y test fuel e =
      let back : length pre + length m + 1 - 1 ≡ length pre + length m = omega arith in
      rw e (
        rw (get_elem?-append pre (m ++ y ∷ post) x) (
          rw (get_elem?-second pre m post x y) (
            rw (set-append pre (m ++ y ∷ post) x y)
              (rw (set-second pre m post y y x) (rw back refl)))))

  -- A list is empty, has one item, or has two ends.
  data Ends : List A → Type 0 where
    no_item : Ends []
    one_item : (x : A) → Ends (x ∷ [])
    two_ends : {xs : List A} (x y : A) (m : List A) → xs ≡ x ∷ (m ++ y ∷ []) → Ends xs

  push_end : (x : A) (xs : List A) → Ends xs → Ends (x ∷ xs)
  push_end x [] e = one_item x
  push_end x (y ∷ []) e = two_ends x y [] refl
  push_end x (y ∷ z ∷ zs) (two_ends a b m q) = two_ends x b (a ∷ m) (ap (◌∷◌ x) q)

  Ends-cases : (xs : List A) → Ends xs
  Ends-cases [] = no_item
  Ends-cases (x ∷ xs) = push_end x xs (Ends-cases xs)

  reverse-ends :
      (x y : A) (m post : List A)
      → reverse (x ∷ (m ++ y ∷ [])) ++ post ≡ y ∷ (reverse m ++ x ∷ post)
  reverse-ends x y m post =
      rw (reverse-cons x (m ++ y ∷ []), reverse-append m (y ∷ []))
        (append_assoc (y ∷ reverse m) (x ∷ []) post)

  -- What the loop has yet to do: the middle, between two ends of one length that are done.
  module _ (test : ℕ → ℕ → Bool) (n : ℕ) (agrees : AgreesOn n test) where
    stops_at :
        (fuel : ℕ) (pre xs : List A) (j : ℕ)
        → test (length pre) j ≡ false
        → swap_while test (suc fuel) (length pre) j xs ≡ ok xs
    unfolding swap_while
    stops_at fuel pre xs j e = rw e refl

    swap_while-middle :
        (fuel : ℕ) (pre mid post : List A)
        → length pre ≡ length post
        → n ≡ length pre + (length mid + length post)
        → length mid < fuel
        → Ends mid
        → swap_while test fuel (length pre) (length pre + length mid - 1) (pre ++ (mid ++ post))
          ≡ ok (pre ++ (reverse mid ++ post))
    swap_while-middle zero pre mid post p q l e = absurd (omega arith)
    swap_while-middle (suc fuel) pre _ post p q l no_item =
        stops_at fuel pre (pre ++ post) (length pre + 0 - 1) (
          agrees (length pre) (length pre + 0 - 1) (meets_empty n (length pre) (omega (arith, q)))
          ∙ ground arith)
    swap_while-middle (suc fuel) pre _ post p q l (one_item x) =
        stops_at fuel pre (pre ++ x ∷ post) (length pre + 1 - 1)
          (agrees (length pre) (length pre + 1 - 1) (inl (omega arith)) ∙ ground arith)
    swap_while-middle (suc fuel) pre mid post p q l (two_ends x y m e) =
        let size : length mid ≡ length m + 2 =
          ap length e ∙ omega (arith, length-append m (y ∷ [])) in
        let last : length pre + length mid - 1 ≡ length pre + length m + 1 = omega arith in
        let body : pre ++ (mid ++ post) ≡ pre ++ (x ∷ (m ++ y ∷ post)) =
          rw e (ap (λ l. pre ++ x ∷ l) (append_assoc m (y ∷ []) post)) in
        let turn : test (length pre) (length pre + length m + 1) ≡ true =
          agrees (length pre) (length pre + length m + 1) (inl (omega arith)) ∙ ground arith in
        let done =
          swap_while-middle fuel (pre ++ y ∷ []) m (x ∷ post)
            (omega (arith, length-append pre (y ∷ []))) (omega (arith, length-append pre (y ∷ [])))
            (omega arith) (Ends-cases m) in
        let from : length pre + 1 ≡ length (pre ++ y ∷ []) =
          omega (arith, length-append pre (y ∷ [])) in
        let to : length pre + length m ≡ length (pre ++ y ∷ []) + length m - 1 =
          omega (arith, length-append pre (y ∷ [])) in
        let rest : pre ++ (y ∷ (m ++ x ∷ post)) ≡ (pre ++ y ∷ []) ++ (m ++ x ∷ post) =
          sym (append_assoc pre (y ∷ []) (m ++ x ∷ post)) in
        let turned : (pre ++ y ∷ []) ++ (reverse m ++ x ∷ post) ≡ pre ++ (reverse mid ++ post) =
          append_assoc pre (y ∷ []) (reverse m ++ x ∷ post)
          ∙ ap (λ l. pre ++ l) (sym (rw e (reverse-ends x y m post))) in
        rw (body, last)
          (swap_step pre m post x y test fuel turn ∙ rw (from, to, rest) (done ∙ ap ok turned))

  -- The whole loop, from the first item and the last one.
  pub swap_while-reverse :
      (test : ℕ → ℕ → Bool) (xs : List A)
      → AgreesOn (length xs) test
      → swap_while test (suc (length xs)) 0 (length xs - 1) xs ≡ ok (reverse xs)
  swap_while-reverse test xs agrees =
      let from : length xs - 1 ≡ 0 + length xs - 1 = omega arith in
      let done =
        swap_while-middle test (length xs) agrees (suc (length xs)) [] xs [] refl (omega arith)
          (omega arith) (Ends-cases xs) in
      ap (swap_while test (suc (length xs)) 0 (length xs - 1)) (sym (append-nil xs))
      ∙ rw from done
      ∙ ap ok (append-nil (reverse xs))

-- Both loops of toDnsBlHostname stop in time.
pub half-AgreesOn : (n : ℕ) → AgreesOn n (λ i j. ltb i (n / 2))
half-AgreesOn n i j h = ground arith

pub ltb-AgreesOn : (n : ℕ) → AgreesOn n ltb
ltb-AgreesOn n i j h = refl
