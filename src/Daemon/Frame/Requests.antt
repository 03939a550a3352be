-- ===== src/Daemon/Frame/Requests.antt =====
-- Which frames are requests.
use forge_boss.Base.{
  ℕ, ◌≡◌, ◌≤◌, ◌≢◌, ◌↔◌, refl, ap, ◌∙◌, subst, true, false, not, List, [], ◌∷◌, some, arith, Text,
  codes, eq_text_iff, eq_text_refl, elem, length, ltb, ok, raise_if, from_option, from_option-eq-ok,
  >>=-eq-ok,
}
use forge_boss.Value.{Value, str, obj, Fields, end, get, get_or}
use forge_boss.Store.Governance.{is_text}
use forge_boss.Daemon.Frame.{
  Decoder, frame_too_large, invalid_json, type_not_req, id_required, method_required,
  params_not_object, max_frame_bytes, mutations, filled_text, is_object, is_string, check_request,
  parsed, frame_object, parse_frame,
}

abbrev IsFilled : Value → Text → Type 0
IsFilled v t = (v ≡ str t) × (t ≢ [])

-- A request: an object of the right type, with an id, a method and an object of parameters, and a
-- text as the key if its method changes state
pub record IsRequest (d : Decoder) (line : List ℕ) (fs : Fields) : Type 0 where
  pub small : length line ≤ max_frame_bytes
  pub reads : parsed d line ≡ some (obj fs)
  pub typed : get "type" fs ≡ str (codes "req")
  pub id : Text
  pub has_id : IsFilled (get "id" fs) id
  pub method : Text
  pub has_method : IsFilled (get "method" fs) method
  pub has_params : (params : Fields) × (get_or (obj end) "params" fs ≡ obj params)
  pub keyed : elem method mutations ≡ true → (key : Text) × (get "idempotencyKey" fs ≡ str key)

filled_text-IsFilled : (v : Value) (t : Text) → filled_text v ≡ some t → IsFilled v t
unfolding filled_text
filled_text-IsFilled (str []) t h = cc
filled_text-IsFilled (str (c ∷ s)) t h =
    let same : c ∷ s ≡ t = ground arith in (ap str same, λ e. ground (arith, same, e))
filled_text-IsFilled _ t h = cc

IsFilled-filled_text : (v : Value) (t : Text) → IsFilled v t → filled_text v ≡ some t
unfolding filled_text
IsFilled-filled_text v [] h = absurd (h.1 refl)
IsFilled-filled_text v (c ∷ s) h = rw h.0

is_object-obj : (v : Value) → is_object v ≡ true → (fs : Fields) × (v ≡ obj fs)
is_object-obj (obj fs) h = (fs, refl)
is_object-obj _ h = cc

is_string-str : (v : Value) → is_string v ≡ true → (t : Text) × (v ≡ str t)
is_string-str (str t) h = (t, refl)
is_string-str _ h = cc

is_text-str : (t : Text) (v : Value) → is_text t v ≡ true → v ≡ str t
is_text-str t (str s) h = ground (arith, eq_text_iff s t, eq_text_iff t s)
is_text-str t _ h = cc

frame_object-obj : (v : Value) (fs : Fields) → frame_object v ≡ ok fs → v ≡ obj fs
unfolding frame_object
frame_object-obj (obj gs) fs h = ground arith
frame_object-obj _ fs h = cc

parse_frame-IsRequest :
    (d : Decoder) (line : List ℕ) (fs : Fields) → parse_frame d line ≡ ok fs → IsRequest d line fs
unfolding parse_frame check_request
parse_frame-IsRequest d line fs h =
    let (_, small, a) =
      >>=-eq-ok (raise_if (ltb max_frame_bytes (length line)) frame_too_large) _ h in
    let (value, reads, b) = >>=-eq-ok (from_option invalid_json (parsed d line)) _ a in
    let (gs, opened, c) = >>=-eq-ok (frame_object value) _ b in
    let (_, checks, last) = >>=-eq-ok (check_request gs) _ c in
    let same : gs ≡ fs = ground arith in
    let (_, typed, e) =
      >>=-eq-ok (raise_if (not (is_text (codes "req") (get "type" gs))) type_not_req) _ checks in
    let (id, has_id, f) = >>=-eq-ok (from_option id_required (filled_text (get "id" gs))) _ e in
    let (method, has_method, g) =
      >>=-eq-ok (from_option method_required (filled_text (get "method" gs))) _ f in
    let (_, params, i) =
      >>=-eq-ok (raise_if (not (is_object (get_or (obj end) "params" gs))) params_not_object) _ g in
    subst (IsRequest d line) same (record {
      small = ground arith;
      reads = from_option-eq-ok invalid_json _ reads ∙ ap some (frame_object-obj value gs opened);
      typed = is_text-str (codes "req") (get "type" gs) (ground arith);
      id = id;
      has_id = filled_text-IsFilled (get "id" gs) id (from_option-eq-ok id_required _ has_id);
      method = method;
      has_method =
          filled_text-IsFilled (get "method" gs) method
            (from_option-eq-ok method_required _ has_method);
      has_params = is_object-obj (get_or (obj end) "params" gs) (ground arith);
      keyed = λ mutates. is_string-str (get "idempotencyKey" gs) (ground (arith, mutates, i));
    })

IsRequest-parse_frame :
    (d : Decoder) (line : List ℕ) (fs : Fields) → IsRequest d line fs → parse_frame d line ≡ ok fs
unfolding parse_frame check_request frame_object
IsRequest-parse_frame d line fs r =
    let small : ltb max_frame_bytes (length line) ≡ false = ground (arith, r.small) in
    let id = IsFilled-filled_text (get "id" fs) r.id r.has_id in
    let method = IsFilled-filled_text (get "method" fs) r.method r.has_method in
    let (params, object) = r.has_params in
    elim (elem r.method mutations)
        as (λ b. elem r.method mutations ≡ b → parse_frame d line ≡ ok fs) [
          | true ↦ λ mutates.
              let (key, keyed) = r.keyed mutates in
              rw (
                small,
                r.reads,
                r.typed,
                eq_text_refl (codes "req"),
                id,
                method,
                object,
                mutates,
                keyed,
              )
          | false ↦ λ reads.
              rw (small, r.reads, r.typed, eq_text_refl (codes "req"), id, method, object, reads)
        ]
      refl

-- A line is accepted as a request just if it has at most 256 KiB and is a JSON object of type "req"
-- with an id and a method that are not empty, an object of parameters, or none, and, if the method
-- changes state, a text as its key; the request is that object.
pub parse_frame_iff :
    (d : Decoder) (line : List ℕ) (fs : Fields) → (parse_frame d line ≡ ok fs) ↔ IsRequest d line fs
parse_frame_iff d line fs = (parse_frame-IsRequest d line fs, IsRequest-parse_frame d line fs)
