-- ===== src/Problem/Responses.antt =====
-- problem.go: the problems that the library makes, one for each status.
pub mod Dropped
use yuna.Prelude.{ℕ, String, Option, none, some, List, [], ◌∷◌}
use yuna.World.{Any, violations}
use yuna.Problem.{ProblemDetails, Error, join}

-- A nil map is `none`.
abbrev pub Violations : Type 0
Violations = Option (List (String × List String))

abbrev standard : String → String → ℕ → ProblemDetails
standard title detail code = record {
  type_uri = "about:blank";
  title = title;
  detail = detail;
  instance_uri = "";
  status_code = code;
  extensions = some [];
  headers = [];
  error = none;
}

-- A nil map is put into the extensions as an empty one.
abbrev pub as_any : Violations → Any
as_any none = violations []
as_any (some vs) = violations vs

abbrev bad_request_detail : Violations → String
bad_request_detail none =
    "Request cannot be processed because the request was not understood by the server or malformed."
bad_request_detail (some []) =
    "Request cannot be processed because the request was not understood by the server or malformed."
bad_request_detail (some (v ∷ vs)) = "Request validation failed. See 'violations' for details."

unfoldable pub bad_request : Violations → ProblemDetails
bad_request vs = record (standard "Bad Request" (bad_request_detail vs) 400) {
  extensions = some (("violations", as_any vs) ∷ []);
}

unfoldable pub unauthorized : ProblemDetails
unauthorized = standard "Unauthorized" "Authorization is required to perform this action." 401

unfoldable pub forbidden : ProblemDetails
forbidden =
    standard "Forbidden" "You don't have the required role/permissions to perform this action." 403

unfoldable pub not_found : ProblemDetails
not_found = standard "Not Found" "The requested resource could not be found." 404

unfoldable pub method_not_allowed : List String → ProblemDetails
method_not_allowed allowed =
    record (standard "Method Not Allowed" "The requested method is not allowed on this resource."
      405) { headers = ("Allow", allowed) ∷ [] }

unfoldable pub not_acceptable : ProblemDetails
not_acceptable =
    record (standard "Not Acceptable"
      "Server cannot produce a response matching the acceptable content types." 406) {
        extensions = none;
      }

unfoldable pub conflict : ProblemDetails
conflict = standard "Conflict" "The request could not be completed due to a conflict." 409

unfoldable pub gone : ProblemDetails
gone = standard "Gone" "The requested resource is no longer available." 410

unfoldable pub unsupported_media_type : ProblemDetails
unsupported_media_type =
    standard "Unsupported Media Type"
      "The request entity has a media type which the server or resource does not support." 415

abbrev unprocessable_detail : Violations → String
unprocessable_detail none = "The request entity could not be processed."
unprocessable_detail (some []) = "The request entity could not be processed."
unprocessable_detail (some (v ∷ vs)) =
    "The request entity could not be processed due to validation errors. See 'violations' for details."

abbrev unprocessable_extensions : Violations → List (String × Any)
unprocessable_extensions none = []
unprocessable_extensions (some []) = []
unprocessable_extensions (some (v ∷ vs)) = ("violations", violations (v ∷ vs)) ∷ []

unfoldable pub unprocessable_entity : Violations → ProblemDetails
unprocessable_entity vs = record (standard "Unprocessable Entity" (unprocessable_detail vs) 422) {
  extensions = some (unprocessable_extensions vs);
}

unfoldable pub too_many_requests : ProblemDetails
too_many_requests =
    standard "Too Many Requests" "The request was rate-limited. Try again later." 429

-- errors.Join of a list
unfoldable pub join_all : List Error → Error
unfolding join
join_all [] = none
join_all (e ∷ es) = join e (join_all es)

unfoldable pub internal_server_error : List Error → ProblemDetails
unfolding join_all
internal_server_error errs =
    record (standard "Internal Server Error"
      "Server encountered an internal error processing the request. Please try again later." 500) {
        error = join_all errs;
      }

unfoldable pub bad_gateway : ProblemDetails
bad_gateway =
    standard "Bad Gateway" "The server received an invalid response from an upstream server." 502

unfoldable pub service_unavailable : ProblemDetails
service_unavailable =
    standard "Service Unavailable"
      "The server is currently unable to handle the request due to a temporary overloading or maintenance of the server. Please try again later."
      503

unfoldable pub gateway_timeout : ProblemDetails
gateway_timeout =
    record (standard "Gateway Timeout"
      "The server timed out while proxying the request to the upstream server. Please try again later."
      504) { extensions = none }
