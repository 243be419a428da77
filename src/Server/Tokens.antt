-- ===== src/Server/Tokens.antt =====
-- internal/auth/session.go: the signature of the token in the session cookie. The base64 text of the HMAC is
-- a parameter.
use dockstack.Prelude.{
  ◌≡◌, ◌↔◌, refl, sym, ap, ◌∙◌, Bool, true, false, Option, none, some, [], ◌∷◌, ◌++◌, text_eq,
  text_eq_iff, text_eq_self, Text, ◌==◌, if◌then◌else◌, arith,
}
use dockstack.Prelude.Splitting.{Lacks}

-- `signed[:strings.LastIndex(signed, ".")]`, if there is a dot
unfoldable pub unsafe_parse_token : Text → Option Text
unsafe_parse_token [] = none
unsafe_parse_token (c ∷ cs) = elim (unsafe_parse_token cs) [
  | some token ↦ some (c ∷ token)
  | none ↦ if c == b'.' then some [] else none
]

module _ (mac : Text → Text) where
  -- `SignToken`
  unfoldable pub sign_token : Text → Text
  sign_token token = token ++ b'.' ∷ mac token

  -- `VerifySignature`: the token and whether the signature is its own
  unfoldable pub verify_parsed : (signed : Text) → Option Text → Text × Bool
  verify_parsed signed none = ([], false)
  verify_parsed signed (some token) = (token, text_eq (sign_token token) signed)

  unfoldable pub verify_signature : (signed : Text) → Text × Bool
  verify_signature signed = verify_parsed signed (unsafe_parse_token signed)

-- A text without a dot, as base64 is.
abbrev pub NoDot : Text → Type 0
NoDot = Lacks b'.'

parse_none : (text : Text) → NoDot text → unsafe_parse_token text ≡ none
unfolding unsafe_parse_token
parse_none [] h = refl
parse_none (c ∷ cs) (h, hs) = rw (parse_none cs hs, h) refl

parse_sign :
    (token text : Text) → NoDot text → unsafe_parse_token (token ++ b'.' ∷ text) ≡ some token
unfolding unsafe_parse_token
parse_sign [] text h = rw (parse_none text h) refl
parse_sign (c ∷ token) text h = rw (parse_sign token text h) refl

verified_only :
    (mac : Text → Text) (signed token : Text) (parsed : Option Text)
    → verify_parsed mac signed parsed ≡ (token, true)
    → signed ≡ sign_token mac token
unfolding verify_parsed
verified_only mac signed token none h = absurd (ground (arith, ap (λ p. p.1) h))
verified_only mac signed token (some t) h =
    sym ((text_eq_iff (sign_token mac t) signed).0 (ap (λ p. p.1) h))
    ∙ ap (λ p. sign_token mac p.0) h

-- A signed token is accepted.
pub own_verifies :
    (mac : Text → Text) (token : Text)
    → NoDot (mac token)
    → verify_signature mac (sign_token mac token) ≡ (token, true)
unfolding verify_signature verify_parsed sign_token
own_verifies mac token plain =
    rw (parse_sign token (mac token) plain, text_eq_self (token ++ b'.' ∷ mac token)) refl

-- If the text of an HMAC has no dot, a cookie is accepted with a token exactly if it is the signed token:
-- tokens with dots too, and no other signature.
pub verify_signature_iff :
    (mac : Text → Text) (signed token : Text)
    → ((t : Text) → NoDot (mac t))
    → (verify_signature mac signed ≡ (token, true)) ↔ (signed ≡ sign_token mac token)
unfolding verify_signature
verify_signature_iff mac signed token plain = (
  verified_only mac signed token (unsafe_parse_token signed),
  λ e. ap (verify_signature mac) e ∙ own_verifies mac token (plain token),
)
