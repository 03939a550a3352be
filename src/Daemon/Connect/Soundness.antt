-- ===== src/Daemon/Connect/Soundness.antt =====
-- Which connections are accepted.
use forge_boss.Base.{
  Result-cases, inl, inr, ℕ, ◌*◌, ◌≡◌, refl, sym, ap, true, false, List, [], ◌∷◌, arith, Text,
  eq_text, eq_text_iff, all, ltb, ok, Bool-cases,
}
use forge_boss.Base.Int.{ℤ, pos, ◌≤ℤ◌, ◌-ℤ◌, ltb_ℤ}
use forge_boss.Value.{tick, Fields, get}
use forge_boss.Runtime.{Runtime}
use forge_boss.Runtime.Conversions.{Conversions, text_or_empty}
use forge_boss.Daemon.Connect.{recent_nonces, has_nonce, use_nonce, authenticate, connect}
use forge_boss.Daemon.Connect.Replay.{Used, Used-recent, Used-last, has_nonce_of_Used}
use forge_boss.Daemon.Connect.Authentic.{
  IsAuthentic, authenticate-IsAuthentic, IsAuthentic-authenticate,
}

module _ (rt : Runtime) (c : Conversions) where
  -- Every earlier use of the nonce is at least 60 seconds ago.
  abbrev pub IsFresh : Text → ℤ → List (Text × ℤ) → Type 0
  IsFresh nonce now ns = (at : ℤ) → Used rt c nonce at ns → pos (60 * tick) ≤ℤ (now -ℤ at)

  IsFresh-has_nonce :
      (nonce : Text) (now : ℤ) (ns : List (Text × ℤ))
      → has_nonce rt c nonce (recent_nonces rt c now ns) ≡ false
      → IsFresh nonce now ns
  IsFresh-has_nonce nonce now ns absent at used =
      elim (Bool-cases (ltb_ℤ (now -ℤ at) (pos (60 * tick)))) [
        | inl recent ↦ absurd (
            ground (
              arith,
              absent,
              has_nonce_of_Used rt c nonce at _ (Used-recent rt c nonce at now ns recent used),
            ))
        | inr old ↦ ground arith
      ]

  has_nonce-IsFresh :
      (nonce : Text) (now : ℤ) (ns : List (Text × ℤ))
      → IsFresh nonce now ns
      → has_nonce rt c nonce (recent_nonces rt c now ns) ≡ false
  unfolding has_nonce recent_nonces Used
  has_nonce-IsFresh nonce now [] fresh = refl
  has_nonce-IsFresh nonce now (entry ∷ ns) fresh =
      let rest = has_nonce-IsFresh nonce now ns (λ at used. fresh at (inr used)) in
      elim (Bool-cases (ltb_ℤ (now -ℤ entry.1) (pos (60 * tick)))) [
        | inl recent ↦ elim (Bool-cases (eq_text nonce entry.0)) [
          | inl same ↦
              let named : nonce ≡ entry.0 = (eq_text_iff nonce entry.0).0 same in
              let aged = fresh entry.1 (inl (ap (λ x. (x, entry.1)) (sym named))) in
              absurd (ground arith)
          | inr other ↦ rw (recent, other, rest)
        ]
        | inr old ↦ rw (old, rest)
      ]

  -- A connection is accepted only if its protocol version is 1, its capabilities are an array, its
  -- nonce has at least 24 characters, its timestamp is at most 30 seconds before or after the check,
  -- its proof is the digest under the secret of its version, client, capabilities, timestamp and
  -- nonce, and every remembered use of the nonce is at least 60 seconds old; the nonce is then
  -- remembered with its time.
  pub connect-IsAuthentic :
      (secret : List ℕ) (p : Fields) (checked now : ℤ) (ns : List (Text × ℤ))
      → (connect rt c secret p checked now ns).answer ≡ ok tt
      → IsAuthentic rt c secret p checked
        × IsFresh (text_or_empty c (get "nonce" p)) now ns
        × Used rt c
            (text_or_empty c (get "nonce" p))
            now
            (connect rt c secret p checked now ns).nonces
  unfolding connect use_nonce
  connect-IsAuthentic secret p checked now ns h =
      elim (Result-cases (authenticate rt c secret p checked)) [
        | inl (done, verified) ↦
            let nonce : Text = text_or_empty c (get "nonce" p) in
            let fresh : has_nonce rt c nonce (recent_nonces rt c now ns) ≡ false =
              ground (arith, verified) in
            (
              authenticate-IsAuthentic rt c secret p checked verified,
              IsFresh-has_nonce nonce now ns fresh,
              rw (verified, fresh) (Used-last rt c nonce now (recent_nonces rt c now ns)),
            )
        | inr (e, failed) ↦ absurd (ground (arith, failed))
      ]

  -- With a digest of ASCII characters, a request is accepted that has version 1, an array of
  -- capabilities, a nonce of at least 24 characters, a timestamp at most 30 seconds before or after
  -- the check and, as its proof, the digest under the secret of its version, client, capabilities,
  -- timestamp and nonce, if every remembered use of the nonce is at least 60 seconds old.
  pub connect_accepts :
      (secret : List ℕ) (p : Fields) (checked now : ℤ) (ns : List (Text × ℤ))
      → (a : IsAuthentic rt c secret p checked) → all (λ x. ltb x 128) a.digest ≡ true
      → IsFresh (text_or_empty c (get "nonce" p)) now ns
      → (connect rt c secret p checked now ns).answer ≡ ok tt
  unfolding connect use_nonce
  connect_accepts secret p checked now ns a plain fresh = rw (
    IsAuthentic-authenticate rt c secret p checked a plain,
    has_nonce-IsFresh (text_or_empty c (get "nonce" p)) now ns fresh,
  )
