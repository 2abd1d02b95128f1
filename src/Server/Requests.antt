-- ===== src/Server/Requests.antt =====
-- backend/src/server.ts: which origins the server allows, and what its error handler answers.
use Prim.Native.Char.{Char, code}
use Prim.Native.String.{◌∷◌ as ◌cons◌}
use crew_link.Base.{
  ℕ, String, Bool, true, false, Option, none, some, List, [], ◌∷◌, map, leb, eqb, ◌≡◌, refl,
  if◌then◌else◌, ◌==◌,
}
use mathlib.Core.Option
use crew_link.Number.{Number}
use crew_link.Text.{trim_start, trim_end}

-- `true` reflects the origin of the request.
pub data CorsOrigin : Type 0 where
  reflected : CorsOrigin
  hosts : List String → CorsOrigin

abbrev pub on_head : Char → List String → List String
on_head c [] = []
on_head c (s ∷ rest) = (c cons s) ∷ rest

-- `.split(',')`
unfoldable pub split_commas : String → List String
split_commas String.[] = "" ∷ []
split_commas (String.◌∷◌ c s) =
    let rest = split_commas s in if eqb (code c) b',' then "" ∷ rest else on_head c rest

-- A setting that is not there or empty allows every origin.
unfoldable pub cors_origin : Option String → CorsOrigin
cors_origin none = reflected
cors_origin (some s) =
    let listed = hosts (map (λ o. trim_end (trim_start o)) (split_commas s)) in
    if s == "" then reflected else listed

-- A rejected handler's error.
pub record HttpError : Type 0 where
  pub status_code : Option ℕ
  pub name : String
  pub message : String

pub record ErrorReply : Type 0 where
  pub status : ℕ
  pub error : String
  pub message : Option String
  pub logged : Bool

-- The function of `setErrorHandler`.
unfoldable pub handle_error : HttpError → ErrorReply
handle_error e =
    let status_code = Option.get_or e.status_code 500 in
    if leb 500 status_code
    then record {
      status = status_code;
      error = "internal server error";
      message = none;
      logged = true;
    }
    else record { status = status_code; error = e.name; message = some e.message; logged = false }

pub record HealthResponse : Type 0 where
  pub status : String
  pub uptime : Number
  pub timestamp : String

-- GET /health; the clock's time is a text in the ISO format, the uptime a number of seconds.
unfoldable pub health_route : Number → String → HealthResponse
health_route uptime now = record { status = "ok"; uptime = uptime; timestamp = now }

abbrev status_of : HttpError → ℕ
status_of e = Option.get_or e.status_code 500

-- Two errors with one status from 500 on are answered alike, whatever their names and messages.
pub handle_error-hides :
    (e e' : HttpError)
    → leb 500 (status_of e) ≡ true
    → status_of e' ≡ status_of e
    → handle_error e' ≡ handle_error e
unfolding handle_error
handle_error-hides e e' high same = rw (same, high) refl
