-- ===== src/Daemon/Frame.antt =====
-- forgeboss/control/protocol.py: the frames of requests and responses.
pub mod Requests
mod Examples
use forge_boss.Base.{
  ℕ, ◌*◌, Bool, true, false, not, ◌||◌, ◌&&◌, List, [], ◌∷◌, Option, none, some, String,
  if◌then◌else◌, ltb, length, is_empty, Text, codes, eq_text, elem, Result, ok, err, raise_if,
  from_option, ◌>>=◌, ◌>>◌,
}
use forge_boss.Value.{Value, null, bool, str, obj, Fields, end, field, get, get_or}
use forge_boss.Store.Governance.{is_text}

-- What `bytes.decode("utf-8")` and `json.loads` give, with `none` for what they raise
pub record Decoder : Type 0 where
  pub decode : List ℕ → Option Text
  pub loads : Text → Option Value

pub data FrameError : Type 0 where
  frame_too_large : FrameError
  invalid_json : FrameError
  frame_not_object : FrameError
  type_not_req : FrameError
  id_required : FrameError
  method_required : FrameError
  params_not_object : FrameError
  idempotency_required : FrameError

abbrev pub max_frame_bytes : ℕ
max_frame_bytes = 256 * 1024

abbrev pub mutations : List Text
mutations =
    codes "task.create"
    ∷ codes "task.create_governed"
    ∷ codes "run.launch_governed"
    ∷ codes "workspace.claim"
    ∷ codes "workspace.heartbeat"
    ∷ codes "workspace.release"
    ∷ codes "worker.admit"
    ∷ []

-- `isinstance(value, str) and value`
unfoldable pub filled_text : Value → Option Text
filled_text (str []) = none
filled_text (str (c ∷ s)) = some (c ∷ s)
filled_text _ = none

abbrev pub is_object : Value → Bool
is_object (obj fs) = true
is_object _ = false

abbrev pub is_string : Value → Bool
is_string (str s) = true
is_string _ = false

unfoldable pub check_request : Fields → Result FrameError (Unit {0})
check_request fs = do
  raise_if (not (is_text (codes "req") (get "type" fs))) type_not_req
  id ← from_option id_required (filled_text (get "id" fs))
  method ← from_option method_required (filled_text (get "method" fs))
  raise_if (not (is_object (get_or (obj end) "params" fs))) params_not_object
  raise_if (elem method mutations && not (is_string (get "idempotencyKey" fs))) idempotency_required

abbrev pub parsed : Decoder → List ℕ → Option Value
parsed d line = elim (d.decode line) [ none ↦ none | some text ↦ d.loads text ]

unfoldable pub frame_object : Value → Result FrameError Fields
frame_object (obj fs) = ok fs
frame_object _ = err frame_not_object

unfoldable pub parse_frame : Decoder → List ℕ → Result FrameError Fields
parse_frame d line = do
  raise_if (ltb max_frame_bytes (length line)) frame_too_large
  value ← from_option invalid_json (parsed d line)
  fs ← frame_object value
  check_request fs
  ok fs

-- `response`, for a payload or an error that is an object, `end` for `None`
unfoldable pub response : Value → Bool → Fields → Fields → Fields
response id true payload problem =
    field "type" (str (codes "res"))
      (field "id" id (field "ok" (bool true) (field "payload" (obj payload) end)))
response id false payload end = field "type" (str (codes "res")) (
    field "id" id (
      field "ok" (bool false) (
        field "error"
          (obj (
            field "code" (str (codes "UNKNOWN"))
              (field "message" (str (codes "unknown error")) end)))
          end)))
response id false payload problem =
    field "type" (str (codes "res"))
      (field "id" id (field "ok" (bool false) (field "error" (obj problem) end)))
