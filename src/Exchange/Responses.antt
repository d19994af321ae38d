-- ===== src/Exchange/Responses.antt =====
-- exchange/response.go and the end of exchange/submit.go: what the answer to a submitted action
-- means. Bodies are JSON values, and their keys are written as the server writes them.
pub mod Submitted
mod Examples
use hypersdk_go.Json.{Json, Fields, null, text, array, object, boolean, number, get_field}
use hypersdk_go.Prelude.{
  ℕ, Bool, true, false, ◌&&◌, ◌||◌, Option, none, some, String, string_eq, ◌==◌, ltb, leb,
  if◌then◌else◌, Result, ok, err, ◌>>=◌,
}

-- `ActionResponseData`: the default body, a body of a documented type, or an unknown one.
pub data ResponseData : Type 0 where
  default_data : ResponseData
  typed_data : String → Json → ResponseData
  unknown_data : Option Json → ResponseData

-- `ActionResponseError`: a message, or a payload that is no text.
pub data Message : Type 0 where
  said : String → Message
  payload : Json → Message

pub record ActionError : Type 0 where
  pub status : String
  pub message : Message

-- `ActionResponse`
pub record ActionResponse : Type 0 where
  pub status : String
  pub kind : String
  pub body : Option ResponseData
  pub error : Option ActionError

pub data DecodeError : Type 0 where
  not_an_envelope : DecodeError
  bad_data : String → DecodeError

-- A field that is a Go string: missing and null leave it empty, and another type is an error.
abbrev string_field : Option Json → Option String
string_field none = some ""
string_field (some null) = some ""
string_field (some (text s)) = some s
string_field (some _) = none

abbrev pub documented_type : String → Bool
documented_type kind =
    kind == "createVault"
    || kind == "order"
    || kind == "cancel"
    || kind == "twapOrder"
    || kind == "twapCancel"

-- What the HTTP transport returned: an error, no response, or a status with a body that was read,
-- or was not. A body that is no JSON is `none`.
pub data HttpResult : Type 0 where
  transport_failed : ℕ → HttpResult
  nil_response : HttpResult
  replied : ℕ → Result ℕ (Option Json) → HttpResult

pub data PostError : Type 0 where
  request_failed read_failed : ℕ → PostError
  unexpected_response : PostError
  api_error : ℕ → PostError

-- The results of `post`: a response, a response with its error, or an error only.
pub data Posted : Type 0 where
  submitted : ActionResponse → Posted
  rejected : ActionResponse → ActionError → Posted
  failed : PostError → Posted

-- Whether encoding/json takes a body for the Go type of a documented kind is `fits`.
module _ (fits : String → Json → Bool) where
  abbrev pub typed : String → Option Json → Result DecodeError ResponseData
  typed kind none = err (bad_data kind)
  typed kind (some raw) = if fits kind raw then ok (typed_data kind raw) else err (bad_data kind)

  -- `decodeActionResponseData`
  unfoldable pub decode_data : String → Option Json → Result DecodeError ResponseData
  decode_data kind raw =
      if kind == "default"
      then ok default_data
      else if documented_type kind
      then typed kind raw
      else ok (unknown_data raw)

  abbrev with_data :
      String → String → Result DecodeError ResponseData → Result DecodeError ActionResponse
  with_data status kind (err e) = err e
  with_data status kind (ok decoded_body) =
      ok (record { status = status; kind = kind; body = some decoded_body; error = none })

  -- The body of a response with status "ok"; one that is no object with a text type is kept as it
  -- is.
  abbrev decode_typed :
      String → Json → Option String → Option Json → Result DecodeError ActionResponse
  decode_typed status raw none content =
      ok
        (record { status = status; kind = ""; body = some (unknown_data (some raw)); error = none })
  decode_typed status raw (some kind) content = with_data status kind (decode_data kind content)

  abbrev decode_body : String → Json → Result DecodeError ActionResponse
  decode_body status (object fs) =
      decode_typed status (object fs) (string_field (get_field "type" fs)) (get_field "data" fs)
  decode_body status raw = decode_typed status raw none none

  -- `decodeActionResponseError`
  abbrev pub decode_error : String → Json → ActionError
  decode_error status (text s) = record { status = status; message = said s }
  decode_error status raw = record { status = status; message = payload raw }

  abbrev pub no_body : String → Result DecodeError ActionResponse
  no_body status = ok (record { status = status; kind = ""; body = none; error = none })

  -- A response that is there and is not null.
  abbrev decode_present : String → Json → Result DecodeError ActionResponse
  decode_present status raw =
      if status == "ok"
      then decode_body status raw
      else ok (record {
        status = status;
        kind = "";
        body = none;
        error = some (decode_error status raw);
      })

  abbrev decode_response : String → Option Json → Result DecodeError ActionResponse
  decode_response status none = no_body status
  decode_response status (some null) = no_body status
  decode_response status (some raw) = decode_present status raw

  abbrev decode_envelope : Option String → Option Json → Result DecodeError ActionResponse
  decode_envelope none response = err not_an_envelope
  decode_envelope (some status) response = decode_response status response

  -- `ActionResponse.UnmarshalJSON`
  unfoldable pub decode_action : Json → Result DecodeError ActionResponse
  decode_action null = no_body ""
  decode_action (object fs) =
      decode_envelope (string_field (get_field "status" fs)) (get_field "response" fs)
  decode_action _ = err not_an_envelope

  abbrev judged : ActionResponse → Option ActionError → Posted
  judged a none = submitted a
  judged a (some e) = rejected a e

  abbrev decoded : Result DecodeError ActionResponse → Posted
  decoded (err e) = failed unexpected_response
  decoded (ok a) = judged a a.error

  abbrev parsed : Option Json → Posted
  parsed none = failed unexpected_response
  parsed (some body) = decoded (decode_action body)

  abbrev read : ℕ → Result ℕ (Option Json) → Posted
  read status (err e) = failed (read_failed e)
  read status (ok body) =
      if ltb status 200 || leb 300 status then failed (api_error status) else parsed body

  -- `Client.post`, from the answer of the transport on.
  unfoldable pub post_answer : HttpResult → Posted
  post_answer (transport_failed e) = failed (request_failed e)
  post_answer nil_response = failed unexpected_response
  post_answer (replied status body) = read status body
