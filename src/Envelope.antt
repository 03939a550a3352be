-- ===== src/Envelope.antt =====
-- forgeboss/control/envelope.py: the bytes that are signed, and signed envelopes.
pub mod Verify
use forge_boss.Base.{
  ℕ, ◌+◌, ◌/◌, ◌%◌, ◌∷◌, ◌++◌, ◌&&◌, not, List, [], Option, none, some, ltb, if◌then◌else◌, Text,
  codes,
}
use forge_boss.Value.{Value, obj, str, Fields, append_field, without}
use forge_boss.Runtime.{Runtime}

-- `text.encode("utf-8")`, one character; a surrogate has no encoding.
unfoldable pub utf8_char : ℕ → Option (List ℕ)
utf8_char c =
    if ltb c 128
    then some (c ∷ [])
    else if ltb c 2048
    then some ((192 + c / 64) ∷ (128 + c % 64) ∷ [])
    else if not (ltb c 55296) && ltb c 57344
    then none
    else if ltb c 65536
    then some ((224 + c / 4096) ∷ (128 + c / 64 % 64) ∷ (128 + c % 64) ∷ [])
    else some
        ((240 + c / 262144) ∷ (128 + c / 4096 % 64) ∷ (128 + c / 64 % 64) ∷ (128 + c % 64) ∷ [])

abbrev joined : Option (List ℕ) → Option (List ℕ) → Option (List ℕ)
joined (some a) (some b) = some (a ++ b)
joined _ _ = none

unfoldable pub utf8 : Text → Option (List ℕ)
unfolding utf8_char
utf8 [] = some []
utf8 (c ∷ s) = joined (utf8_char c) (utf8 s)

-- `canonical(obj)`, with `none` for `UnicodeEncodeError`
unfoldable pub canonical : Runtime → Value → Option (List ℕ)
unfolding utf8
canonical rt value = utf8 (rt.dumps value)

abbrev pub signature_prefix : Text
signature_prefix = codes "hmac-sha256:"

-- The digest of the entries under the secret
unfoldable pub digest_of : Runtime → List ℕ → Fields → Option Text
unfolding canonical
digest_of rt secret body = elim (canonical rt (obj body)) [
  | none ↦ none
  | some message ↦ some (rt.hmac_hex secret message)
]

-- `sign_envelope`
unfoldable pub sign_envelope : Runtime → List ℕ → Fields → Option Fields
unfolding digest_of without append_field
sign_envelope rt secret payload =
    let body = without "signature" payload in
    elim (digest_of rt secret body) [
      | none ↦ none
      | some digest ↦ some (append_field body "signature" (str (signature_prefix ++ digest)))
    ]
