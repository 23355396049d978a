-- ===== src/Gateway/Config/Keeps.antt =====
-- Which options the tests on a section's name leave alone.
use webircgateway.Base.{
  ◌≡◌, inl, inr, refl, ap, ◌∙◌, Bool, true, false, not, ◌&&◌, List, [], ◌∷◌, ◌++◌, map,
  if◌then◌else◌, Bool-cases, All,
}
use webircgateway.Text.Bytes.{Bytes, codes, is_empty, has_prefix}
use webircgateway.Gateway.Config.{ConfigUpstream, ConfigServer, Config}
use webircgateway.Gateway.Config.Sections.{
  Section, Sources, read_upstream, trimmed, read_verify, text_of, bool_of,
}
use webircgateway.Gateway.Config.Load.{
  read_fileserving, is_upstream, option_tests, list_tests, run_tests,
}

abbrev pub Keeps : {X : Type 0} → (Config → X) → Bool × (Config → Config) → Type 0
Keeps f (b, read) = (c : Config) → f (read c) ≡ f c

module _ {X : Type 0} (f : Config → X) where
  pub when-Keeps :
      (b : Bool) (read : Config → Config) (c : Config)
      → Keeps f (b, read)
      → f (if b then read c else c) ≡ f c
  when-Keeps true read c k = k c
  when-Keeps false read c k = refl

  run_tests-Keeps :
      (tests : List (Bool × (Config → Config))) (c : Config)
      → All (Keeps f) tests
      → f (run_tests tests c) ≡ f c
  unfolding run_tests
  run_tests-Keeps [] c h = refl
  run_tests-Keeps ((b, read) ∷ tests) c (k, h) =
      run_tests-Keeps tests (if b then read c else c) h ∙ when-Keeps b read c k

  -- One test among others that leave the field alone.
  run_tests-one :
      (g : X → X) (b : Bool) (read : Config → Config) (pre post : List (Bool × (Config → Config)))
      (c : Config)
      → All (Keeps f) pre
      → ((c : Config) → f (read c) ≡ g (f c))
      → All (Keeps f) post
      → f (run_tests (pre ++ (b, read) ∷ post) c) ≡ (if b then g (f c) else f c)
  unfolding run_tests
  run_tests-one g true read [] post c h e k = run_tests-Keeps post (read c) k ∙ e c
  run_tests-one g false read [] post c h e k = run_tests-Keeps post c k
  run_tests-one g b read ((b', read') ∷ pre) post c (l, h) e k =
      run_tests-one g b read pre post (if b' then read' c else c) h e k
      ∙ ap (λ x. if b then g x else x) (when-Keeps b' read' c l)

abbrev pub Tracked : Type 0
Tracked = List ConfigServer × List ConfigUpstream × List Bytes

abbrev pub tracked : Config → Tracked
tracked c = (c.servers, c.upstreams, c.plugins)

read_verify-Keeps : (s : Section) → Keeps tracked (true, read_verify s)
unfolding read_verify
read_verify-Keeps s c =
    elim (Bool-cases (
      not (is_empty (text_of s (codes "recaptcha_secret") []))
      && not (is_empty (text_of s (codes "recaptcha_key") [])))) [
        | inl e ↦ rw e refl
        | inr e ↦ rw e refl
      ]

read_fileserving-Keeps : (s : Section) → Keeps tracked (true, read_fileserving s)
unfolding read_fileserving
read_fileserving-Keeps s c = elim (Bool-cases (bool_of s (codes "enabled") false)) [
  | inl e ↦ rw e refl
  | inr e ↦ rw e refl
]

-- The options behind the first tests are not the ones tracked.
pub option_tests-tracked :
    (s : Section) (c : Config) → tracked (run_tests (option_tests s) c) ≡ tracked c
unfolding option_tests
option_tests-tracked s c = run_tests-Keeps tracked (option_tests s) c (
  (λ c. refl),
  (
    read_verify-Keeps s,
    (
      (λ c. refl),
      ((λ c. refl), ((λ c. refl), ((λ c. refl), ((λ c. refl), (read_fileserving-Keeps s, tt))))),
    ),
  ),
)

module _ (src : Sources) (s : Section) (c : Config) where
  pub list_tests-servers : (run_tests (list_tests src s) c).servers ≡ c.servers
  unfolding list_tests
  list_tests-servers =
      run_tests-Keeps (λ c. c.servers) (list_tests src s) c
        (
          (λ c. refl),
          (
            (λ c. refl),
            ((λ c. refl), ((λ c. refl), ((λ c. refl), ((λ c. refl), ((λ c. refl), tt))))),
          ),
        )

  pub list_tests-upstreams :
      (run_tests (list_tests src s) c).upstreams
      ≡ (if is_upstream s then c.upstreams ++ read_upstream s ∷ [] else c.upstreams)
  unfolding list_tests
  list_tests-upstreams =
      run_tests-one (λ c. c.upstreams) (λ l. l ++ read_upstream s ∷ []) _ _ (_ ∷ []) _ c
        ((λ c. refl), tt) (λ c. refl)
        ((λ c. refl), ((λ c. refl), ((λ c. refl), ((λ c. refl), ((λ c. refl), tt)))))

  pub list_tests-plugins : (run_tests (list_tests src s) c).plugins ≡ (
      if has_prefix s.name (codes "plugins")
      then c.plugins ++ map trimmed s.key_strings
      else c.plugins)
  unfolding list_tests
  list_tests-plugins =
      run_tests-one (λ c. c.plugins) (λ l. l ++ map trimmed s.key_strings) _ _ (_ ∷ _ ∷ _ ∷ []) _ c
        ((λ c. refl), ((λ c. refl), ((λ c. refl), tt))) (λ c. refl)
        ((λ c. refl), ((λ c. refl), ((λ c. refl), tt)))
