-- ===== src/Exchange/Responses/Examples.antt =====
-- exchange/response.go and exchange/submit.go: answers of the server.
use hypersdk_go.Json.{Json, null, text, object, done, field, get_field}
use hypersdk_go.Prelude.{◌≡◌, refl, Bool, true, none, some, String, ok, string_eq}
use hypersdk_go.Exchange.Responses.{
  default_data, said, decode_data, decode_action, HttpResult, replied, api_error, submitted,
  rejected, failed, post_answer,
}
use hypersdk_go.Exchange.Responses.Submitted.{IsFair, post_answer-IsFair}

runs : Unit {0}
unfolding get_field decode_data decode_action post_answer
runs = tt

abbrev any_data : String → Json → Bool
any_data kind raw = true

abbrev answer : String → Json → HttpResult
answer status response =
    replied 200 (ok (some (object (field "status" (text status) (field "response" response done)))))

accepted :
    post_answer any_data (answer "ok" (object (field "type" (text "default") done)))
    ≡ submitted (record { status = "ok"; kind = "default"; body = some default_data; error = none })
unfolding runs
accepted = refl

refused :
    post_answer any_data (answer "err" (text "Insufficient margin"))
    ≡ rejected
        (record {
          status = "err";
          kind = "";
          body = none;
          error = some (record { status = "err"; message = said "Insufficient margin" });
        })
        (record { status = "err"; message = said "Insufficient margin" })
unfolding runs
refused = refl

-- A rejection without a response passes for a submission.
silent_rejection :
    post_answer any_data (answer "err" null)
    ≡ submitted (record { status = "err"; kind = ""; body = none; error = none })
unfolding runs
silent_rejection = refl

server_error : post_answer any_data (replied 502 (ok none)) ≡ failed (api_error 502)
unfolding runs
server_error = refl

abbrev margin : HttpResult
margin = answer "err" (text "Insufficient margin")

post_answer-IsFair_example : IsFair any_data margin (post_answer any_data margin)
post_answer-IsFair_example = post_answer-IsFair any_data margin
