-- ===== src/Routes/Ptt.antt =====
-- backend/src/routes/ptt.ts: the voice token of a convoy, for a user who passed the authentication
-- hook. `uuid_of` is the cast of a text to a UUID in Postgres; the room is named by the path's text.
use crew_link.Base.{String, true, false, Option, none, some, ◌≡◌}
use text.Mathlib.TextLemmas.{append_cancel_left}
use crew_link.Auth.{AuthUser}
use crew_link.Config.{Env}
use crew_link.Convoys.{is_current_user}
use crew_link.Db.Rows.{exists}
use crew_link.Db.Query.{Query, Uuid, with_uuid, read, return, ◌>>=◌}
use crew_link.LivekitTokens.{Grant, PttTokenResponse, create_ptt_token, convoy_room_name}
use crew_link.Routes.{Reply, ptt_token, problem_reply}

-- The URL, the key and the secret of LiveKit, where all three are set.
pub record Livekit : Type 0 where
  pub url : String
  pub api_key : String
  pub api_secret : String

abbrev pub livekit_with : Option String → Option String → Option String → Option Livekit
livekit_with (some url) (some key) (some secret) =
    some (record { url = url; api_key = key; api_secret = secret })
livekit_with none _ _ = none
livekit_with (some url) none _ = none
livekit_with (some url) (some key) none = none

unfoldable pub livekit_of : Env → Option Livekit
livekit_of env = livekit_with env.livekit_url env.livekit_api_key env.livekit_api_secret

module _ (sign : String → String → Grant → String) where
  unfoldable pub token_response : Livekit → AuthUser → String → PttTokenResponse
  token_response k user convoy_id = record {
    url = k.url;
    token = create_ptt_token sign (record {
      api_key = k.api_key;
      api_secret = k.api_secret;
      room_name = convoy_room_name convoy_id;
      participant_identity = user.external_id;
      participant_name = some user.display_name;
      ttl_seconds = none;
    });
    room_name = convoy_room_name convoy_id;
  }

  unfoldable pub post_ptt_token : (String → Option Uuid) → Env → AuthUser → String → Query Reply
  post_ptt_token uuid_of env user convoy_id = elim (livekit_of env) [
    | none ↦ return (problem_reply 503 "livekit not configured")
    | some k ↦ do
      is_member ←
          with_uuid uuid_of convoy_id
            (λ id. read (λ t. exists (is_current_user id user.id) t.convoy_members))
      elim is_member [
        | true ↦ return (record { code = 200; body = ptt_token (token_response k user convoy_id) })
        | false ↦ return (problem_reply 404 "not a convoy member")
      ]
  ]

-- A token is for one convoy's room.
pub convoy_room_name-injective : (c d : String) → convoy_room_name c ≡ convoy_room_name d → c ≡ d
unfolding convoy_room_name
convoy_room_name-injective c d e = append_cancel_left "convoy-" c d e
