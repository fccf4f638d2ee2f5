-- ===== src/Util/ErrorPage.antt =====
-- `generateErrorPage` of src/util/utils.cpp.
use nawa.Common.{ℕ, List, [], ◌∷◌, ◌++◌, ◌==◌, if◌then◌else◌, Bytes, codes}
use nawa.Common.Number.{to_string}

-- The cases of the switch: status, error and explanation, which some leave empty.
abbrev Case : Type 0
Case = ℕ × Bytes × Bytes

error_cases : List Case
error_cases =
    (400, codes "Bad Request", codes "The server cannot process your request.")
    ∷ (401, codes "Unauthorized", codes "The necessary credentials have not been provided.")
    ∷ (403, codes "Forbidden", codes "You do not have the necessary permissions to view this page.")
    ∷ (404, codes "Not Found", codes "The requested URL was not found on this server.")
    ∷ (
      405,
      codes "Method Not Allowed",
      codes "The used request method is not supported for the requested resource.",
    )
    ∷ (
      406,
      codes "Not Applicable",
      codes
          "The requested function is unable to produce a resource that satisfies your browser's Accept header.",
    )
    ∷ (408, codes "Request Timeout", codes "A timeout occurred while waiting for your request.")
    ∷ (
      409,
      codes "Conflict",
      codes "The request cannot be processed due to a conflict on the underlying resource.",
    )
    ∷ (410, codes "Gone", codes "The requested resource is no longer available.")
    ∷ (
      415,
      codes "Unsupported Media Type",
      codes "Your browser has requested a media type that cannot be provided by this resource.",
    )
    ∷ (418, codes "I'm a teapot", codes "I cannot brew coffee for you.")
    ∷ (429, codes "Too Many Requests", [])
    ∷ (451, codes "Unavailable For Legal Reasons", [])
    ∷ (
      500,
      codes "Internal Server Error",
      codes "The server encountered an internal error and is unable to fulfill your request.",
    )
    ∷ (501, codes "Not Implemented", codes "The server is not able to fulfill your request.")
    ∷ (
      503,
      codes "Service Unavailable",
      codes "This service is currently unavailable. Please try again later.",
    )
    ∷ []

select : ℕ → List Case → Bytes × Bytes
select status [] = (codes "Unknown Error", [])
select status ((s, error, explanation) ∷ cases) =
    let rest = select status cases in if s == status then (error, explanation) else rest

unfoldable pub generate_error_page : ℕ → Bytes
unfolding select error_cases
generate_error_page http_status =
    let (error, explanation) = select http_status error_cases in
    codes "<!DOCTYPE html><html><head><title>"
    ++ (to_string http_status
        ++ (codes " "
            ++ (error
                ++ (codes "</title></head><body><h1>"
                    ++ (error
                        ++ (codes "</h1><p>" ++ (explanation ++ codes "</p></body></html>")))))))
