-- ===== src/Exchange/Responses/Submitted.antt =====
-- exchange/response.go and exchange/submit.go: what a submission reports, for every answer.
use hypersdk_go.Json.{Json, null, text, array, object, boolean, number, get_field, as_text}
use package.text.Mathlib.TextEquality.{eq_iff}
use hypersdk_go.Prelude.{
  ℕ, ◌≡◌, ◌≤◌, ◌<◌, refl, Bool, true, false, ◌||◌, Option, none, some, String, string_eq, ◌==◌, ltb,
  leb, Result, ok, err, Bool-cases, inl, inr, ◌⊎◌, arith,
}
use hypersdk_go.Exchange.Responses.{
  ActionResponse, ActionError, Message, said, payload, DecodeError, documented_type, typed,
  decode_data, with_data, decode_typed, decode_body, decode_error, decode_present, decode_response,
  decode_envelope, decode_action, string_field, HttpResult, transport_failed, nil_response, replied,
  request_failed, read_failed, unexpected_response, api_error, Posted, submitted, rejected, failed,
  judged, decoded, parsed, read, post_answer,
}

-- A response that is missing or null.
abbrev pub IsAbsent : Option Json → Type 0
IsAbsent none = Unit
IsAbsent (some null) = Unit
IsAbsent (some _) = ⊥

-- The message of an error is the response: its text, or else the response itself.
abbrev pub Conveys : Option Json → Message → Type 0
Conveys none m = ⊥
Conveys (some null) m = ⊥
Conveys (some (text s)) m = m ≡ said s
Conveys (some raw) m = m ≡ payload raw

-- A status is a text, or is left out.
abbrev pub IsText : Option Json → Type 0
IsText none = Unit
IsText (some null) = Unit
IsText (some (text s)) = Unit
IsText (some _) = ⊥

abbrev pub IsMistyped : Option Json → Type 0
IsMistyped none = ⊥
IsMistyped (some null) = ⊥
IsMistyped (some (text s)) = ⊥
IsMistyped (some _) = Unit

-- What the error says of an answer with this status and response, and what none says.
abbrev pub Verdict : String → Option Json → Option ActionError → Type 0
Verdict status response none = (status ≡ "ok") ⊎ IsAbsent response
Verdict status response (some e) =
    ((status == "ok") ≡ false) × (e.status ≡ status) × Conveys response e.message

module _ (fits : String → Json → Bool) where
  abbrev pub Unfit : String → Option Json → Type 0
  Unfit kind none = Unit
  Unfit kind (some raw) = fits kind raw ≡ false

  -- A response of a documented type whose data is missing, or is not that of the type.
  abbrev pub BadData : Option Json → Type 0
  BadData (some (object fs)) =
      let kind = as_text (get_field "type" fs) in
      (documented_type kind ≡ true) × Unfit kind (get_field "data" fs)
  BadData _ = ⊥

  -- What a submission reports of an object with this status and response.
  abbrev pub Reports : Option Json → Option Json → Posted → Type 0
  Reports status response (submitted a) =
      IsText status × (a.status ≡ as_text status) × Verdict (as_text status) response none
  Reports status response (rejected a e) =
      IsText status × (a.status ≡ as_text status) × Verdict (as_text status) response (some e)
  Reports status response (failed e) =
      (e ≡ unexpected_response) × (IsMistyped status ⊎ ((as_text status ≡ "ok") × BadData response))

  abbrev pub Means : Option Json → Posted → Type 0
  Means (some (object fs)) p = Reports (get_field "status" fs) (get_field "response" fs) p
  Means (some null) p = Reports none none p
  Means _ p = p ≡ failed unexpected_response

  -- What a submission reports of what the transport returned.
  abbrev pub IsFair : HttpResult → Posted → Type 0
  IsFair (transport_failed e) p = p ≡ failed (request_failed e)
  IsFair nil_response p = p ≡ failed unexpected_response
  IsFair (replied status (err e)) p = p ≡ failed (read_failed e)
  IsFair (replied status (ok body)) p =
      (((status < 200) ⊎ (300 ≤ status)) × (p ≡ failed (api_error status)))
      ⊎ ((200 ≤ status) × (status < 300) × Means body p)

  abbrev Decodes : String → Option Json → Result DecodeError ActionResponse → Type 0
  Decodes status response (err e) = (status ≡ "ok") × BadData response
  Decodes status response (ok a) = (a.status ≡ status) × Verdict status response a.error

  -- A body with data of a type, under a response that says so.
  decode_data-Decodes :
      (status kind : String) (content response : Option Json)
      → status ≡ "ok"
      → ((documented_type kind ≡ true) → Unfit kind content → BadData response)
      → Decodes status response (with_data fits status kind (decode_data fits kind content))
  unfolding decode_data
  decode_data-Decodes status kind content response good bad =
      elim (Bool-cases (kind == "default")) [
        | inl default ↦ rw default (refl, inl good)
        | inr other ↦ rw other (elim (Bool-cases (documented_type kind)) [
          | inl documented ↦ rw documented (go content (bad documented))
          | inr unknown ↦ rw unknown (refl, inl good)
        ])
      ]
    where
      go :
          (content : Option Json)
          → (Unfit kind content → BadData response)
          → Decodes status response (with_data fits status kind (typed fits kind content))
      go none bad = (good, bad tt)
      go (some raw) bad = elim (Bool-cases (fits kind raw)) [
        | inl fit ↦ rw fit (refl, inl good)
        | inr unfit ↦ rw unfit (good, bad unfit)
      ]

  decode_typed-Decodes :
      (status : String) (raw : Json) (type content response : Option Json)
      → status ≡ "ok"
      → ((documented_type (as_text type) ≡ true) → Unfit (as_text type) content → BadData response)
      → Decodes status response (decode_typed fits status raw (string_field type) content)
  decode_typed-Decodes status raw none content response good bad =
      decode_data-Decodes status "" content response good bad
  decode_typed-Decodes status raw (some null) content response good bad =
      decode_data-Decodes status "" content response good bad
  decode_typed-Decodes status raw (some (text s)) content response good bad =
      decode_data-Decodes status s content response good bad
  decode_typed-Decodes status raw (some (boolean b)) content response good bad = (refl, inl good)
  decode_typed-Decodes status raw (some (number n)) content response good bad = (refl, inl good)
  decode_typed-Decodes status raw (some (array js)) content response good bad = (refl, inl good)
  decode_typed-Decodes status raw (some (object fs)) content response good bad = (refl, inl good)

  decode_body-Decodes :
      (status : String) (raw : Json)
      → status ≡ "ok"
      → Decodes status (some raw) (decode_body fits status raw)
  decode_body-Decodes status (object fs) good =
      decode_typed-Decodes status (object fs) (get_field "type" fs) (get_field "data" fs)
        (some (object fs)) good (λ d u. (d, u))
  decode_body-Decodes status null good = (refl, inl good)
  decode_body-Decodes status (boolean b) good = (refl, inl good)
  decode_body-Decodes status (number n) good = (refl, inl good)
  decode_body-Decodes status (text s) good = (refl, inl good)
  decode_body-Decodes status (array js) good = (refl, inl good)

  decode_present-Decodes :
      (status : String) (raw : Json)
      → (((status == "ok") ≡ false)
          → Verdict status (some raw) (some (decode_error fits status raw)))
      → Decodes status (some raw) (decode_present fits status raw)
  decode_present-Decodes status raw h = elim (Bool-cases (status == "ok")) [
    | inl good ↦ rw good (decode_body-Decodes status raw ((eq_iff status "ok").0 good))
    | inr bad ↦ rw bad (refl, h bad)
  ]

  decode_response-Decodes :
      (status : String) (response : Option Json)
      → Decodes status response (decode_response fits status response)
  decode_response-Decodes status none = (refl, inr tt)
  decode_response-Decodes status (some null) = (refl, inr tt)
  decode_response-Decodes status (some (text s)) =
      decode_present-Decodes status (text s) (λ b. (b, refl, refl))
  decode_response-Decodes status (some (boolean b)) =
      decode_present-Decodes status (boolean b) (λ b. (b, refl, refl))
  decode_response-Decodes status (some (number n)) =
      decode_present-Decodes status (number n) (λ b. (b, refl, refl))
  decode_response-Decodes status (some (array js)) =
      decode_present-Decodes status (array js) (λ b. (b, refl, refl))
  decode_response-Decodes status (some (object fs)) =
      decode_present-Decodes status (object fs) (λ b. (b, refl, refl))

  judged-Reports :
      (status response : Option Json) (a : ActionResponse) (e : Option ActionError)
      → IsText status
      → a.status ≡ as_text status
      → Verdict (as_text status) response e
      → Reports status response (judged fits a e)
  judged-Reports status response a none t s v = (t, s, v)
  judged-Reports status response a (some e) t s v = (t, s, v)

  decoded-Reports :
      (status response : Option Json) (r : Result DecodeError ActionResponse)
      → IsText status
      → Decodes (as_text status) response r
      → Reports status response (decoded fits r)
  decoded-Reports status response (err e) t d = (refl, inr d)
  decoded-Reports status response (ok a) t d = judged-Reports status response a a.error t d.0 d.1

  decode_envelope-Reports :
      (status response : Option Json)
      → Reports status response (decoded fits (decode_envelope fits (string_field status) response))
  decode_envelope-Reports none response =
      decoded-Reports none response _ tt (decode_response-Decodes "" response)
  decode_envelope-Reports (some null) response =
      decoded-Reports (some null) response _ tt (decode_response-Decodes "" response)
  decode_envelope-Reports (some (text s)) response =
      decoded-Reports (some (text s)) response _ tt (decode_response-Decodes s response)
  decode_envelope-Reports (some (boolean b)) response = (refl, inl tt)
  decode_envelope-Reports (some (number n)) response = (refl, inl tt)
  decode_envelope-Reports (some (array js)) response = (refl, inl tt)
  decode_envelope-Reports (some (object fs)) response = (refl, inl tt)

  parsed-Means : (body : Option Json) → Means body (parsed fits body)
  unfolding decode_action
  parsed-Means none = refl
  parsed-Means (some null) = (tt, refl, inr tt)
  parsed-Means (some (object fs)) =
      decode_envelope-Reports (get_field "status" fs) (get_field "response" fs)
  parsed-Means (some (boolean b)) = refl
  parsed-Means (some (number n)) = refl
  parsed-Means (some (text s)) = refl
  parsed-Means (some (array js)) = refl

  read-IsFair :
      (status : ℕ) (body : Result ℕ (Option Json))
      → IsFair (replied status body) (read fits status body)
  read-IsFair status (err e) = refl
  read-IsFair status (ok body) = elim (Bool-cases (ltb status 200 || leb 300 status)) [
    | inl bad ↦ rw bad (inl (ground arith, refl))
    | inr good ↦ rw good (inr (ground arith, ground arith, parsed-Means body))
  ]

  -- What a submission reports is what the server answered. Without an error, the HTTP status is a
  -- success and the "status" of the body is "ok" or its "response" is missing or null, where a null
  -- body has neither: a rejection with a response never passes for a submission. A rejection has a "status" that is not "ok",
  -- which is also that of the error, and the error conveys the response. Every other report names
  -- its cause: the transport, the HTTP status, a body that is no such object, or, with status "ok",
  -- data that is missing for or does not fit a documented type.
  pub post_answer-IsFair : (h : HttpResult) → IsFair h (post_answer fits h)
  unfolding post_answer
  post_answer-IsFair (transport_failed e) = refl
  post_answer-IsFair nil_response = refl
  post_answer-IsFair (replied status body) = read-IsFair status body
