-- ===== src/Daemon/Connect.antt =====
-- forgeboss/control/auth.py, and the method `connect` of forgeboss/control/daemon.py with the nonces
-- that the daemon remembers. The first two clocks are `time.time()` of the check and of the record.
pub mod Authentic
pub mod Soundness
pub mod Replay
mod Examples
use forge_boss.Base.{
  ℕ, ◌*◌, ◌/◌, ◌-◌, ◌+◌, zero, suc, ◌==◌, Bool, true, false, not, ◌||◌, List, [], ◌∷◌, ◌++◌, Option,
  none, some, if◌then◌else◌, ltb, length, any, all, is_empty, Text, codes, eq_text, starts_with,
  Result, ok, err, raise_if, or_raise, from_option, ◌>>=◌, ◌>>◌,
}
use forge_boss.Base.Int.{ℤ, pos, negsuc, ◌-ℤ◌, ltb_ℤ}
use forge_boss.Value.{
  tick, Float, finite, Value, null, bool, int, float, str, arr, obj, Items, nil, cons, Fields, end,
  field, get, get_or,
}
use forge_boss.Runtime.{Runtime}
use forge_boss.Runtime.Conversions.{Conversions, to_int, text_or_empty, or_empty}
use forge_boss.Envelope.{digest_of, signature_prefix}

pub data AuthError : Type 0 where
  not_a_number : AuthError
  nonce_too_short : AuthError
  timestamp_expired : AuthError
  proof_missing : AuthError
  unicode_error : AuthError
  digest_not_ascii : AuthError
  proof_mismatch : AuthError

pub data ConnectError : Type 0 where
  version_not_a_number : ConnectError
  protocol_mismatch : ConnectError
  capabilities_not_array : ConnectError
  auth_failed : AuthError → ConnectError
  auth_replay : ConnectError

-- The nonces that the daemon remembers after a request, and whether it is accepted
pub record Connected : Type 0 where
  pub nonces : List (Text × ℤ)
  pub answer : Result ConnectError (Unit {0})

abbrev pub auth_window_seconds : ℕ
auth_window_seconds = 30

module _ (rt : Runtime) (c : Conversions) where
  unfoldable pub material : Fields → Result AuthError Fields
  material p = do
    version ← from_option not_a_number (to_int c (get_or (int (pos 0)) "protocolVersion" p))
    stamp ← from_option not_a_number (to_int c (get_or (int (pos 0)) "timestamp" p))
    ok (
        field "protocolVersion" (int version) (
          field "client" (str (text_or_empty c (get "client" p))) (
            field "capabilities" (or_empty (get "capabilities" p)) (
              field "timestamp" (int stamp)
                (field "nonce" (str (text_or_empty c (get "nonce" p))) end)))))

  unfoldable pub make_connect_proof : Fields → List ℕ → Result AuthError Text
  make_connect_proof p secret = do
    claims ← material p
    digest ← from_option unicode_error (digest_of rt secret claims)
    ok (signature_prefix ++ digest)

  -- `abs(now - ts) > 30`
  abbrev pub is_outside : ℤ → ℤ → Bool
  is_outside now stamp =
      ltb_ℤ (pos (auth_window_seconds * tick)) (now -ℤ stamp)
      || ltb_ℤ (pos (auth_window_seconds * tick)) (stamp -ℤ now)

  abbrev pub in_ticks : ℤ → ℤ
  in_ticks (pos n) = pos (n * tick)
  in_ticks (negsuc n) = negsuc ((n + 1) * tick - 1)

  unfoldable pub verify_connect_proof : Fields → List ℕ → ℤ → Result AuthError (Unit {0})
  verify_connect_proof p secret now = do
    stamp ← from_option not_a_number (to_int c (get_or (int (pos 0)) "timestamp" p))
    let nonce = text_or_empty c (get "nonce" p)
    let proof = text_or_empty c (get "authProof" p)
    raise_if (ltb (length nonce) 24) nonce_too_short
    raise_if (is_outside now (in_ticks stamp)) timestamp_expired
    raise_if (not (starts_with proof signature_prefix)) proof_missing
    wanted ← make_connect_proof p secret
    raise_if (not (all (λ x. ltb x 128) proof)) digest_not_ascii
    raise_if (not (eq_text proof wanted)) proof_mismatch

  abbrev pub is_array : Value → Bool
  is_array (arr items) = true
  is_array _ = false

  -- `{k: v for … if now - v < 60}`
  unfoldable pub recent_nonces : ℤ → List (Text × ℤ) → List (Text × ℤ)
  recent_nonces now [] = []
  recent_nonces now (entry ∷ nonces) =
      let rest = recent_nonces now nonces in
      if ltb_ℤ (now -ℤ entry.1) (pos (60 * tick)) then entry ∷ rest else rest

  -- `nonce in self.connect_nonces`
  unfoldable pub has_nonce : Text → List (Text × ℤ) → Bool
  has_nonce nonce [] = false
  has_nonce nonce (entry ∷ nonces) = eq_text nonce entry.0 || has_nonce nonce nonces

  -- The nonces from then on, and the answer
  unfoldable pub use_nonce : Text → ℤ → List (Text × ℤ) → Connected
  use_nonce nonce now nonces =
      let recent = recent_nonces now nonces in
      if has_nonce nonce recent
      then record { nonces = recent; answer = err auth_replay }
      else record { nonces = recent ++ ((nonce, now) ∷ []); answer = ok tt }

  abbrev pub of_auth : Result AuthError (Unit {0}) → Result ConnectError (Unit {0})
  of_auth (ok done) = ok done
  of_auth (err e) = err (auth_failed e)

  -- `connect` up to its check of the proof
  unfoldable pub authenticate : List ℕ → Fields → ℤ → Result ConnectError (Unit {0})
  authenticate secret p checked = do
    version ← from_option version_not_a_number (to_int c (get_or (int (pos 0)) "protocolVersion" p))
    raise_if (ltb_ℤ version (pos 1) || ltb_ℤ (pos 1) version) protocol_mismatch
    raise_if (not (is_array (or_empty (get "capabilities" p)))) capabilities_not_array
    of_auth (verify_connect_proof p secret checked)

  -- The rest of `connect`
  abbrev pub admit : Text → ℤ → List (Text × ℤ) → Result ConnectError (Unit {0}) → Connected
  admit nonce now nonces (err e) = record { nonces = nonces; answer = err e }
  admit nonce now nonces (ok done) = use_nonce nonce now nonces

  unfoldable pub connect : List ℕ → Fields → ℤ → ℤ → List (Text × ℤ) → Connected
  connect secret p checked now nonces =
      admit (text_or_empty c (get "nonce" p)) now nonces (authenticate secret p checked)
