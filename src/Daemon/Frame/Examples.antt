-- ===== src/Daemon/Frame/Examples.antt =====
-- Frames on concrete data, and the theorem at one.
use forge_boss.Base.{◌≡◌, ◌↔◌, refl, false, [], some, Text, codes, eq_text, elem, ok, err}
use forge_boss.Value.{Value, null, str, obj, Fields, end, field, get, get_or, has}
use forge_boss.Daemon.Frame.{
  Decoder, idempotency_required, filled_text, check_request, frame_object, parse_frame, response,
}
use forge_boss.Daemon.Frame.Requests.{IsRequest, parse_frame_iff}

abbrev request : Text → Value → Fields
request method key =
    field "type" (str (codes "req"))
      (field "id" (str (codes "1")) (field "method" (str method) (field "idempotencyKey" key end)))

-- A decoder whose one document is given
abbrev reads : Fields → Decoder
reads fs = record { decode = λ line. some line; loads = λ text. some (obj fs) }

-- The operations that the tests run
opened : Unit {0}
unfolding eq_text elem get get_or has filled_text check_request frame_object parse_frame response
opened = tt

keyless_read :
    parse_frame (reads (request (codes "health") null)) [] ≡ ok (request (codes "health") null)
unfolding opened
keyless_read = refl

keyless_change :
    parse_frame (reads (request (codes "worker.admit") null)) [] ≡ err idempotency_required
unfolding opened
keyless_change = refl

-- The empty text is a key, which `_idem` takes for none.
empty_key :
    parse_frame (reads (request (codes "worker.admit") (str []))) []
    ≡ ok (request (codes "worker.admit") (str []))
unfolding opened
empty_key = refl

refusal :
    response (str (codes "1")) false end end
    ≡ field "type" (str (codes "res")) (
        field "id" (str (codes "1")) (
          field "ok" (Value.bool false) (
            field "error"
              (obj (
                field "code"
                  (str (codes "UNKNOWN"))
                  (field "message" (str (codes "unknown error")) end)))
              end)))
unfolding opened
refusal = refl

parse_frame_iff_example :
    (parse_frame (reads (request (codes "health") null)) [] ≡ ok (request (codes "health") null))
    ↔ IsRequest (reads (request (codes "health") null)) [] (request (codes "health") null)
parse_frame_iff_example =
    parse_frame_iff (reads (request (codes "health") null)) [] (request (codes "health") null)
