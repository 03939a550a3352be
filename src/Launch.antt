-- ===== src/Launch.antt =====
-- forgeboss/control/governed_launch.py: signed attestations of governed launches. `secret` is bytes;
-- `now` is `None` or a finite time, and `clock` is `time.time()`.
mod Terms
mod Entries
pub mod Soundness
pub mod Arguments
pub mod RoundTrip
mod Examples
unfoldable pub use Terms.*
unfoldable pub use Entries.*
use forge_boss.Base.{
  ℕ, zero, suc, ◌*◌, ◌+◌, ◌-◌, Bool, true, false, not, ◌||◌, ◌&&◌, ◌==◌, List, [], ◌∷◌, ◌++◌,
  Option, none, some, String, if◌then◌else◌, ltb, leb, all, length, is_empty, Text, codes, eq_text,
  starts_with, Result, ok, err, raise_if, or_raise, from_option, ◌>>=◌, ◌>>◌,
}
use forge_boss.Base.Int.{ℤ, pos, negsuc, ◌+ℤ◌, ◌-ℤ◌, ltb_ℤ, leb_ℤ}
use forge_boss.Value.{
  tick, Float, finite, Value, null, bool, int, float, str, arr, obj, Items, nil, cons, Fields, end,
  field, get, without, append_field, of_texts, to_float,
}
use forge_boss.Runtime.{Runtime}
use forge_boss.Store.Governance.{is_text}
use forge_boss.Envelope.{utf8, digest_of, signature_prefix}
use forge_boss.Policy.ReuseReview.{strict_keys}
use forge_boss.Policy.Signed.{drop_prefix}

-- The first `n` characters
unfoldable pub take_text : ℕ → Text → Text
take_text zero s = []
take_text (suc n) [] = []
take_text (suc n) (c ∷ s) = c ∷ take_text n s

abbrev pub or_null : Option Text → Value
or_null none = null
or_null (some t) = str t

-- `value == number`, for a number of ticks that is not negative
unfoldable pub equals_amount : ℕ → Value → Bool
equals_amount n (bool b) = (if b then tick else 0) == n
equals_amount n (int (pos k)) = k * tick == n
equals_amount n (float (finite (pos k))) = k == n
equals_amount n _ = false

-- `value == texts`, for a list of texts
unfoldable pub items_equal : List Text → Items → Bool
items_equal [] nil = true
items_equal (t ∷ ts) (cons (str s) items) = eq_text s t && items_equal ts items
items_equal _ _ = false

unfoldable pub equals_texts : List Text → Value → Bool
equals_texts ts (arr items) = items_equal ts items
equals_texts ts _ = false

unfoldable pub equals_option : Option Text → Value → Bool
equals_option none null = true
equals_option (some t) (str s) = eq_text s t
equals_option _ _ = false

abbrev pub launch_body : Bound → ℤ → ℤ → Text → Fields
launch_body b issued expires nonce = field "schema" (int (pos 1)) (
    field "kind" (str launch_kind) (
      field "taskId" (str b.task_id) (
        field "repository" (str b.repository) (
          field "baseSha" (str b.base_sha) (
            field "runId" (str b.run_id) (
              field "worktreePath" (str b.worktree_path) (
                field "runtimeId" (str b.runtime_id) (
                  field "runnerRelpath" (str b.runner_relpath) (
                    field "runnerSha256" (str b.runner_sha256) (
                      field "allowedPaths" (arr (of_texts b.allowed_paths)) (
                        field "allowedTools" (arr (of_texts b.allowed_tools)) (
                          field "provider" (or_null b.provider) (
                            field "model" (or_null b.model) (
                              field "budgetUsd" (float (finite (pos b.budget_usd))) (
                                field "issuedAt" (float (finite issued)) (
                                  field "expiresAt" (float (finite expires))
                                    (field "nonce" (str nonce) end)))))))))))))))))

-- `for key, value in expected.items()`
unfoldable pub check_binding : Bound → Fields → Result LaunchError (Unit {0})
check_binding b att = do
  raise_if (not (is_text b.task_id (get "taskId" att))) (binding_mismatch "taskId")
  raise_if (not (is_text b.repository (get "repository" att))) (binding_mismatch "repository")
  raise_if (not (is_text b.base_sha (get "baseSha" att))) (binding_mismatch "baseSha")
  raise_if (not (is_text b.run_id (get "runId" att))) (binding_mismatch "runId")
  raise_if (not (is_text b.worktree_path (get "worktreePath" att)))
      (binding_mismatch "worktreePath")
  raise_if (not (is_text b.runtime_id (get "runtimeId" att))) (binding_mismatch "runtimeId")
  raise_if (not (is_text b.runner_relpath (get "runnerRelpath" att)))
      (binding_mismatch "runnerRelpath")
  raise_if (not (is_text b.runner_sha256 (get "runnerSha256" att)))
      (binding_mismatch "runnerSha256")
  raise_if (not (equals_texts b.allowed_paths (get "allowedPaths" att)))
      (binding_mismatch "allowedPaths")
  raise_if (not (equals_texts b.allowed_tools (get "allowedTools" att)))
      (binding_mismatch "allowedTools")
  raise_if (not (equals_option b.provider (get "provider" att))) (binding_mismatch "provider")
  raise_if (not (equals_option b.model (get "model" att))) (binding_mismatch "model")
  raise_if (not (equals_amount b.budget_usd (get "budgetUsd" att))) (binding_mismatch "budgetUsd")

unfoldable pub check_nonce : Value → Result LaunchError (Unit {0})
check_nonce (str nonce) = raise_if (ltb (length nonce) 16) nonce_invalid
check_nonce _ = err nonce_invalid

-- Issued at most 5 seconds from now, not over, and no longer than the longest lifetime
unfoldable pub check_times : ℤ → ℤ → ℤ → Result LaunchError (Unit {0})
check_times issued expires now = do
  raise_if (ltb_ℤ (now +ℤ pos (5 * tick)) issued) in_the_future
  raise_if (leb_ℤ expires now) expired
  raise_if (leb_ℤ expires issued || ltb_ℤ (pos (max_launch_ttl_seconds * tick)) (expires -ℤ issued))
      ttl_invalid

-- The part of a signature after its first colon, which ends its prefix
unfoldable pub signed_digest : Value → Option Text
signed_digest (str sig) =
    let supplied = drop_prefix signature_prefix sig in
    if starts_with sig signature_prefix then some supplied else none
signed_digest _ = none

-- `float(value)` that is finite; `times_invalid` for both failures
unfoldable pub finite_time : Option Float → Result LaunchError ℤ
finite_time (some (finite z)) = ok z
finite_time _ = err times_invalid

abbrev pub at_time : Option ℤ → ℤ → ℤ
at_time none clock = clock
at_time (some now) clock = now

-- A number of seconds in ticks
abbrev pub seconds : ℤ → ℤ
seconds (pos n) = pos (n * tick)
seconds (negsuc n) = negsuc ((n + 1) * tick - 1)

module _ (rt : Runtime) (host : Host) where
  -- `str(nonce or hashlib.sha256(…).hexdigest()[:32])`
  unfoldable pub nonce_of : Launch → ℤ → Option Text → Result LaunchError Text
  nonce_of l issued (some (c ∷ s)) = ok (c ∷ s)
  nonce_of l issued _ = do
    encoded ←
        from_option unicode_error
          (utf8 (l.task_id ++ (b':' ∷ l.run_id ++ (b':' ∷ host.show_time issued))))
    ok (take_text 32 (rt.sha256_hex encoded))

  unfoldable pub issue_governed_launch_attestation :
      List ℕ → Launch → ℤ → Option ℤ → Option Text → ℤ → Result LaunchError Fields
  issue_governed_launch_attestation secret l ttl now given clock = do
    raise_if (ltb (length secret) 32) secret_invalid
    let issued = at_time now clock
    raise_if (leb_ℤ ttl (pos 0) || ltb_ℤ (pos max_launch_ttl_seconds) ttl) ttl_out_of_range
    bound ← launch_binding rt host l
    fresh ← nonce_of l issued given
    let body = launch_body bound issued (rt.add_float issued (seconds ttl)) fresh
    digest ← from_option unicode_error (digest_of rt secret body)
    ok (append_field body "signature" (str (signature_prefix ++ digest)))

  unfoldable pub verify_fields : List ℕ → Launch → Option ℤ → ℤ → Fields → Result LaunchError Fields
  verify_fields secret l now clock att = do
    or_raise fields_not_canonical (strict_keys required_fields "launch attestation" att)
    raise_if
        (not (equals_amount tick (get "schema" att)) || not (is_text launch_kind (get "kind" att)))
        unsupported
    raise_if (ltb (length secret) 32) secret_invalid
    supplied ← from_option signature_invalid (signed_digest (get "signature" att))
    wanted ← from_option unicode_error (digest_of rt secret (without "signature" att))
    raise_if (not (all (λ c. ltb c 128) supplied)) digest_not_ascii
    raise_if (not (eq_text supplied wanted)) signature_mismatch
    issued ← finite_time (to_float rt.parse_float (get "issuedAt" att))
    expires ← finite_time (to_float rt.parse_float (get "expiresAt" att))
    check_times issued expires (at_time now clock)
    expected ← launch_binding rt host l
    check_binding expected att
    check_nonce (get "nonce" att)
    ok (without "signature" att)

  unfoldable pub verify_governed_launch_attestation :
      List ℕ → Launch → Option ℤ → ℤ → Value → Result LaunchError Fields
  verify_governed_launch_attestation secret l now clock (obj att) =
      verify_fields secret l now clock att
  verify_governed_launch_attestation secret l now clock _ = err not_an_object
