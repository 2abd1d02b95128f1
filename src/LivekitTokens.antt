-- ===== src/LivekitTokens.antt =====
-- backend/src/services/livekit_tokens.ts: the token of a voice room. `sign` is the LiveKit library's
-- `AccessToken`, from the key, the secret and what the token grants to its text.
use crew_link.Base.{ℕ, String, Bool, true, Option}
use mathlib.Core.Option
use Prim.Native.String.{◌++◌ as ◌append◌}

pub record PttTokenOptions : Type 0 where
  pub api_key : String
  pub api_secret : String
  pub room_name : String
  pub participant_identity : String
  pub participant_name : Option String
  pub ttl_seconds : Option ℕ

-- What a token grants, and to whom.
pub record Grant : Type 0 where
  pub identity : String
  pub name : Option String
  pub ttl : ℕ
  pub room_join : Bool
  pub room : String
  pub can_publish : Bool
  pub can_subscribe : Bool

-- The answer of the route.
pub record PttTokenResponse : Type 0 where
  pub url : String
  pub token : String
  pub room_name : String

unfoldable pub grant_of : PttTokenOptions → Grant
grant_of opts = record {
  identity = opts.participant_identity;
  name = opts.participant_name;
  ttl = Option.get_or opts.ttl_seconds 3600;
  room_join = true;
  room = opts.room_name;
  can_publish = true;
  can_subscribe = true;
}

unfoldable pub create_ptt_token : (String → String → Grant → String) → PttTokenOptions → String
create_ptt_token sign opts = sign opts.api_key opts.api_secret (grant_of opts)

unfoldable pub convoy_room_name : String → String
convoy_room_name convoy_id = "convoy-" append convoy_id
