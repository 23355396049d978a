-- ===== src/Recaptcha.antt =====
-- pkg/recaptcha/recaptcha.go: what a captcha's response is worth, and the errors that the service reports. The HTTP client
-- and the JSON decoder are fields of Service.
use webircgateway.Base.{
  ◌≡◌, ◌⊎◌, inl, inr, refl, arith, Bool, true, false, List, [], ◌∷◌, if◌then◌else◌,
}
use webircgateway.Text.Bytes.{Bytes}

-- R
pub record R : Type 0 where
  pub url : Bytes
  pub secret : Bytes
  pub last_errors : List Bytes

pub record GoogleResponse : Type 0 where
  pub success : Bool
  pub error_codes : List Bytes

-- What comes of PostForm and of the read of the body; an error is its text.
pub data Reply : Type 0 where
  post_fails read_fails body : Bytes → Reply

-- The POST of a secret and a response to a URL, and json.Unmarshal.
pub record Service : Type 0 where
  pub post_form : Bytes → Bytes → Bytes → Reply
  pub unmarshal : Bytes → Bytes ⊎ GoogleResponse

-- LastError
unfoldable pub last_error : R → List Bytes
last_error r = r.last_errors

-- make([]string, 1) is a list with an empty text in it.
abbrev with_errors : R → List Bytes → R
with_errors r errors = record r { last_errors = [] ∷ errors }

judge : R → Bytes ⊎ GoogleResponse → R × Bool
judge r (inl e) = (with_errors r (e ∷ []), false)
judge r (inr gr) = (with_errors r (if gr.success then [] else gr.error_codes), gr.success)

judge_reply : Service → R → Reply → R × Bool
unfolding judge
judge_reply s r (post_fails e) = (with_errors r (e ∷ []), false)
judge_reply s r (read_fails e) = (with_errors r (e ∷ []), false)
judge_reply s r (body text) = judge r (s.unmarshal text)

-- VerifyResponse
unfoldable pub verify_response : Service → Bytes → R → R × Bool
unfolding judge_reply
verify_response s response r = judge_reply s r (s.post_form r.url r.secret response)

-- The service's word for a response: a body was read, and decoded to a success.
abbrev pub Accepts : Service → R → Bytes → Type 0
Accepts s r response =
    (text : Bytes) × (gr : GoogleResponse) × (s.post_form r.url r.secret response ≡ body text)
    × (s.unmarshal text ≡ inr gr)
    × (gr.success ≡ true)

judge-Accepts :
    (s : Service) (r : R) (response text : Bytes) (answer : Bytes ⊎ GoogleResponse)
    → s.post_form r.url r.secret response ≡ body text
    → s.unmarshal text ≡ answer
    → (judge r answer).1 ≡ true
    → Accepts s r response
unfolding judge
judge-Accepts s r response text (inl e) h k v = absurd (ground arith)
judge-Accepts s r response text (inr gr) h k v = (text, gr, h, k, v)

judge_reply-Accepts :
    (s : Service) (r : R) (response : Bytes) (reply : Reply)
    → s.post_form r.url r.secret response ≡ reply
    → (judge_reply s r reply).1 ≡ true
    → Accepts s r response
unfolding judge_reply
judge_reply-Accepts s r response (post_fails e) h v = absurd (ground arith)
judge_reply-Accepts s r response (read_fails e) h v = absurd (ground arith)
judge_reply-Accepts s r response (body text) h v =
    judge-Accepts s r response text (s.unmarshal text) h refl v

-- A response is verified only if the service accepts it.
pub verify_response-Accepts :
    (s : Service) (r : R) (response : Bytes)
    → (verify_response s response r).1 ≡ true
    → Accepts s r response
unfolding verify_response
verify_response-Accepts s r response v =
    judge_reply-Accepts s r response (s.post_form r.url r.secret response) refl v
