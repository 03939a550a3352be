-- ===== src/Daemon/Connect/Replay.antt =====
-- A nonce is good for one connection in a minute.
use forge_boss.Base.{
  Result-cases, ℕ, ◌*◌, ◌≡◌, ◌≢◌, refl, sym, ap, ◌∙◌, subst, true, false, List, [], ◌∷◌, ◌++◌,
  arith, Text, eq_text_refl, ok, Bool-cases, ◌⊎◌, inl, inr,
}
use forge_boss.Base.Int.{ℤ, pos, ◌-ℤ◌, ◌≤ℤ◌, ltb_ℤ, -ℤ_parts}
use forge_boss.Value.{tick, Fields, get}
use forge_boss.Runtime.{Runtime}
use forge_boss.Runtime.Conversions.{Conversions, text_or_empty}
use forge_boss.Daemon.Connect.{
  recent_nonces, has_nonce, use_nonce, authenticate, Connected, connect,
}

module _ (rt : Runtime) (c : Conversions) where
  -- The nonce was used at that time.
  unfoldable pub Used : Text → ℤ → List (Text × ℤ) → Type 0
  Used nonce at [] = ⊥
  Used nonce at (entry ∷ nonces) = (entry ≡ (nonce, at)) ⊎ Used nonce at nonces

  Used-append :
      (nonce : Text) (at : ℤ) (ns ms : List (Text × ℤ))
      → Used nonce at ns
      → Used nonce at (ns ++ ms)
  unfolding Used
  Used-append nonce at [] ms used = elim used [ ]
  Used-append nonce at (entry ∷ ns) ms (inl same) = inl same
  Used-append nonce at (entry ∷ ns) ms (inr rest) = inr (Used-append nonce at ns ms rest)

  pub Used-last :
      (nonce : Text) (at : ℤ) (ns : List (Text × ℤ)) → Used nonce at (ns ++ ((nonce, at) ∷ []))
  unfolding Used
  Used-last nonce at [] = inl refl
  Used-last nonce at (entry ∷ ns) = inr (Used-last nonce at ns)

  pub Used-recent :
      (nonce : Text) (at now : ℤ) (ns : List (Text × ℤ))
      → ltb_ℤ (now -ℤ at) (pos (60 * tick)) ≡ true
      → Used nonce at ns
      → Used nonce at (recent_nonces rt c now ns)
  unfolding Used recent_nonces
  Used-recent nonce at now [] recent used = elim used [ ]
  Used-recent nonce at now (entry ∷ ns) recent (inl same) =
      let time : entry.1 ≡ at = ap (λ x. x.1) same in
      let kept : ltb_ℤ (now -ℤ entry.1) (pos (60 * tick)) ≡ true =
        subst (λ x. ltb_ℤ (now -ℤ x) (pos (60 * tick)) ≡ true) (sym time) recent in
      rw kept (inl same)
  Used-recent nonce at now (entry ∷ ns) recent (inr rest) =
      let later = Used-recent nonce at now ns recent rest in
      elim (Bool-cases (ltb_ℤ (now -ℤ entry.1) (pos (60 * tick)))) [
        | inl kept ↦ rw kept (inr later)
        | inr gone ↦ rw gone later
      ]

  pub has_nonce_of_Used :
      (nonce : Text) (at : ℤ) (ns : List (Text × ℤ))
      → Used nonce at ns
      → has_nonce rt c nonce ns ≡ true
  unfolding Used has_nonce
  has_nonce_of_Used nonce at [] used = elim used [ ]
  has_nonce_of_Used nonce at (entry ∷ ns) (inl same) =
      let named : entry.0 ≡ nonce = ap (λ x. x.0) same in rw (named, eq_text_refl nonce)
  has_nonce_of_Used nonce at (entry ∷ ns) (inr rest) =
      ground (arith, has_nonce_of_Used nonce at ns rest)

  use_nonce-answer :
      (nonce : Text) (now : ℤ) (ns : List (Text × ℤ))
      → (use_nonce rt c nonce now ns).answer ≡ ok tt
      → (has_nonce rt c nonce (recent_nonces rt c now ns) ≡ false)
        × ((use_nonce rt c nonce now ns).nonces ≡ recent_nonces rt c now ns ++ ((nonce, now) ∷ []))
  unfolding use_nonce
  use_nonce-answer nonce now ns h =
      let fresh : has_nonce rt c nonce (recent_nonces rt c now ns) ≡ false = ground arith in
      (fresh, rw fresh)

  connect-answer :
      (secret : List ℕ) (p : Fields) (checked now : ℤ) (ns : List (Text × ℤ))
      → (connect rt c secret p checked now ns).answer ≡ ok tt
      → connect rt c secret p checked now ns
        ≡ use_nonce rt c (text_or_empty c (get "nonce" p)) now ns
  unfolding connect
  connect-answer secret p checked now ns h =
      elim (Result-cases (authenticate rt c secret p checked)) [
        | inl (done, verified) ↦ rw verified
        | inr (e, failed) ↦ absurd (ground (arith, failed))
      ]

  -- Requests one after the other, accepted or not, and the time of the last
  pub data Requests (secret : List ℕ) : List (Text × ℤ) → ℤ → List (Text × ℤ) → ℤ → Type 0 where
    none_more : (ns : List (Text × ℤ)) (t : ℤ) → Requests secret ns t ns t
    one_more :
        (ns ms : List (Text × ℤ)) (s t now checked : ℤ) (p : Fields)
        → Requests secret ns s ms t
        → t ≤ℤ now
        → Requests secret ns s (connect rt c secret p checked now ms).nonces now

  earlier_recent :
      (at now later : ℤ)
      → now ≤ℤ later
      → ltb_ℤ (later -ℤ at) (pos (60 * tick)) ≡ true
      → ltb_ℤ (now -ℤ at) (pos (60 * tick)) ≡ true
  earlier_recent at now later before recent = ground (arith, -ℤ_parts now at, -ℤ_parts later at)

  connect-Used :
      (secret : List ℕ) (nonce : Text) (at now checked : ℤ) (p : Fields) (ns : List (Text × ℤ))
      → ltb_ℤ (now -ℤ at) (pos (60 * tick)) ≡ true
      → Used nonce at ns
      → Used nonce at (connect rt c secret p checked now ns).nonces
  unfolding connect use_nonce
  connect-Used secret nonce at now checked p ns recent used =
      let kept = Used-recent nonce at now ns recent used in
      elim (Result-cases (authenticate rt c secret p checked)) [
        | inl (done, verified) ↦
            elim (Bool-cases
              (has_nonce rt c (text_or_empty c (get "nonce" p)) (recent_nonces rt c now ns))) [
                | inl known ↦ rw (verified, known) kept
                | inr fresh ↦ rw (verified, fresh) (Used-append nonce at _ _ kept)
              ]
        | inr (e, failed) ↦ rw failed used
      ]

  Requests-Used :
      (secret : List ℕ) (nonce : Text) (at later : ℤ) (ns ms : List (Text × ℤ)) (s t : ℤ)
      → Requests secret ns s ms t
      → t ≤ℤ later
      → ltb_ℤ (later -ℤ at) (pos (60 * tick)) ≡ true
      → Used nonce at ns
      → Used nonce at ms
  Requests-Used secret nonce at later ns ms s t (none_more _ _) before recent used = used
  Requests-Used secret nonce at later ns out s now (one_more _ ms _ t _ checked p more follows)
        before recent used =
      let held =
        Requests-Used secret nonce at later ns ms s t more (ground (arith, follows, before)) recent
          used in
      connect-Used secret nonce at now checked p ms (earlier_recent at now later before recent) held

  -- After a connection with a nonce, and whatever requests to connect follow it, none with that
  -- nonce is accepted in the next 60 seconds.
  pub connect-once :
      (secret : List ℕ) (p q : Fields) (checked now rechecked later : ℤ)
      (before ms : List (Text × ℤ)) (t : ℤ)
      → (connect rt c secret p checked now before).answer ≡ ok tt
      → Requests secret (connect rt c secret p checked now before).nonces now ms t
      → t ≤ℤ later
      → ltb_ℤ (later -ℤ now) (pos (60 * tick)) ≡ true
      → text_or_empty c (get "nonce" q) ≡ text_or_empty c (get "nonce" p)
      → (connect rt c secret q rechecked later ms).answer ≢ ok tt
  connect-once secret p q checked now rechecked later before ms t accepts more follows recent same
        again =
      let nonce : Text = text_or_empty c (get "nonce" p) in
      let first = connect-answer secret p checked now before accepts in
      let (_, made) =
        use_nonce-answer nonce now before
          (ap (λ (x : Connected). x.answer) (sym first) ∙ accepts) in
      let used =
        subst (Used nonce now) (sym (ap (λ (x : Connected). x.nonces) first ∙ made))
          (Used-last nonce now (recent_nonces rt c now before)) in
      let held = Requests-Used secret nonce now later _ ms now t more follows recent used in
      let second = connect-answer secret q rechecked later ms again in
      let (fresh, _) =
        use_nonce-answer _ later ms (ap (λ (x : Connected). x.answer) (sym second) ∙ again) in
      let known = has_nonce_of_Used nonce now _ (Used-recent nonce now later ms recent held) in
      ground (arith, fresh, known, same)
