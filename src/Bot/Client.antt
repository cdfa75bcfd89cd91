-- ===== src/Bot/Client.antt =====
-- services/bot/internal/gateway/client.go: the requests that the bot makes of the gateway, and what it
-- makes of the responses. net/http and encoding/json are arguments, by what they answer.
pub mod Polling
use price_scount.Base.{
  ℕ, zero, suc, ◌+◌, String, Bool, true, false, not, ◌&&◌, ◌||◌, Option, none, some, List, [], ◌∷◌,
  ◌++◌, ◌==◌, leb, str_eq, if◌then◌else◌,
}
use price_scount.Base.Text.{join, format_int}
use price_scount.Base.Int.{Float64, float_zero}

pub data Field : Type 0 where
  text : String → Field
  integer : ℕ → Field
  price : Float64 → Field

-- A request: the method, the path, the body by its fields, and whether a response is decoded.
pub record Request : Type 0 where
  pub method : String
  pub path : String
  pub body : Option (List (String × Field))
  pub has_out : Bool

pub data ClientError : Type 0 where
  marshal_failed build_failed http_failed decode_failed timed_out : ClientError
  -- The status, and the error of the body if it has one.
  gateway_error : ℕ → String → ClientError

pub data Got (A : Type 0) : Type 0 where
  got : A → Got A
  client_error : ClientError → Got A

-- A response: its status, the error field of its body, and the value that the body decodes to.
pub record Response (A : Type 0) : Type 0 where
  pub status : ℕ
  pub error : String
  pub decoded : Option A

-- What one request meets.
pub record Exchange (A : Type 0) : Type 0 where
  pub marshals : Bool
  pub builds : Bool
  pub response : Option (Response A)

abbrev pub is_present : Option (List (String × Field)) → Bool
is_present none = false
is_present (some fields) = true

-- The part of do behind the response; `blank` is the value that is left as it was.
abbrev pub read_response : {A : Type 0} → Bool → A → Response A → Got A
read_response has_out blank r =
    if leb 400 r.status
    then client_error (gateway_error r.status r.error)
    else if has_out && not (r.status == 204)
    then (elim r.decoded [ none ↦ client_error decode_failed | some a ↦ got a ])
    else got blank

-- do.
unfoldable pub perform : {A : Type 0} → Request → A → Exchange A → Got A
perform q blank x =
    if is_present q.body && not x.marshals
    then client_error marshal_failed
    else if not x.builds
    then client_error build_failed
    else (elim x.response [
      | none ↦ client_error http_failed
      | some r ↦ read_response q.has_out blank r
    ])

abbrev pub get_request : String → Request
get_request path = record { method = "GET"; path = path; body = none; has_out = true }

abbrev pub post_request : String → List (String × Field) → Bool → Request
post_request path fields has_out = record {
  method = "POST";
  path = path;
  body = some fields;
  has_out = has_out;
}

-- StartLookup and the requests of PollLookup.
abbrev pub start_lookup_request : String → Request
start_lookup_request raw_url = post_request "/lookup" (("url", text raw_url) ∷ []) true

abbrev pub poll_request : String → Request
poll_request lookup_id = get_request (join ("/lookup/" ∷ lookup_id ∷ []))

pub record CreateSubscriptionRequest : Type 0 where
  pub chat_id : ℕ
  pub lookup_id : String
  pub min_price : Float64
  pub max_price : Float64

-- CreateSubscription.
abbrev pub create_subscription_request : CreateSubscriptionRequest → Request
create_subscription_request r =
    post_request "/subscriptions"
      (("chat_id", integer r.chat_id)
        ∷ ("lookup_id", text r.lookup_id)
        ∷ ("min_price", price r.min_price)
        ∷ ("max_price", price r.max_price)
        ∷ [])
      true

-- ListSubscriptions. url.QueryEscape leaves a decimal number as it is.
abbrev pub list_request : ℕ → Request
list_request chat_id = get_request (join ("/subscriptions?chat_id=" ∷ format_int chat_id ∷ []))

abbrev pub subscription_path : String → String
subscription_path sub_id = join ("/subscriptions/" ∷ sub_id ∷ [])

abbrev pub price_field : String → Option Float64 → List (String × Field)
price_field name none = []
price_field name (some p) = (name, price p) ∷ []

-- patchAction; encoding/json writes the fields of a map in the order of their names.
abbrev pub patch_request : ℕ → String → String → Option Float64 → Option Float64 → Request
patch_request chat_id sub_id action min_price max_price = record {
  method = "PATCH";
  path = subscription_path sub_id;
  body = some (
      ("action", text action)
      ∷ ("chat_id", integer chat_id)
      ∷ (price_field "max_price" max_price ++ price_field "min_price" min_price));
  has_out = false;
}

-- PauseSubscription, ResumeSubscription and EditSubscription.
abbrev pub pause_request : ℕ → String → Request
pause_request chat_id sub_id = patch_request chat_id sub_id "pause" none none

abbrev pub resume_request : ℕ → String → Request
resume_request chat_id sub_id = patch_request chat_id sub_id "resume" none none

abbrev pub edit_request : ℕ → String → Float64 → Float64 → Request
edit_request chat_id sub_id min_price max_price =
    patch_request chat_id sub_id "edit" (some min_price) (some max_price)

-- DeleteSubscription.
abbrev pub delete_request : ℕ → String → Request
delete_request chat_id sub_id = record {
  method = "DELETE";
  path = subscription_path sub_id;
  body = some (("chat_id", integer chat_id) ∷ []);
  has_out = false;
}

-- ForceCheck.
abbrev pub force_request : ℕ → String → Request
force_request chat_id sub_id =
    post_request (join ("/subscriptions/" ∷ sub_id ∷ "/check" ∷ []))
      (("chat_id", integer chat_id) ∷ []) false

-- GetHistory.
abbrev pub history_request : ℕ → String → Request
history_request chat_id sub_id =
    get_request (join ("/subscriptions/" ∷ sub_id ∷ "/history?chat_id=" ∷ format_int chat_id ∷ []))

-- What GET /lookup/:id answers.
pub record LookupResult : Type 0 where
  pub status : String
  pub name : String
  pub price : Float64
  pub url : String
  pub error : String

abbrev pub blank_lookup : LookupResult
blank_lookup = record { status = ""; name = ""; price = float_zero; url = ""; error = "" }

abbrev pub is_final : LookupResult → Bool
is_final r = str_eq r.status "done" || str_eq r.status "failed"

-- An end of PollLookup, and the requests that it made.
pub record Polled : Type 0 where
  pub result : Got LookupResult
  pub requests : ℕ

abbrev pub one_more : Polled → Polled
one_more p = record { result = p.result; requests = suc p.requests }

module _ (exchange : ℕ → Exchange LookupResult) (lookup_id : String) where
  -- PollLookup, with the number of ticks that are taken before the context is done, and the number
  -- of the next request.
  unfoldable pub poll_lookup : ℕ → ℕ → Polled
  poll_lookup zero i = record { result = client_error timed_out; requests = 0 }
  poll_lookup (suc ticks) i = elim (perform (poll_request lookup_id) blank_lookup (exchange i)) [
    | client_error e ↦ record { result = client_error e; requests = 1 }
    | got r ↦ elim (is_final r) [
      | true ↦ record { result = got r; requests = 1 }
      | false ↦ one_more (poll_lookup ticks (i + 1))
    ]
  ]
