-- ===== src/Api/Requests/Sent.antt =====
-- api-client.ts: what a signed-in user's requests hold.
use mallard.Common.{
  ℕ, ◌≡◌, refl, Text, length, take, drop, length-take, take-append-drop, min, Option, some, List,
  ◌++◌,
}
use mallard.Api.Auth.{Answer, FiefAuth, UrlLibrary, Session, headers}
use mallard.Api.Auth.Login.{IsSignedIn, get_auth_token-IsSignedIn}
use mallard.Api.Forms.{UavVideoMetadata, video_metadata_to_form}
use mallard.Api.Schemas.{
  IsPositional, uav_video_metadata_fields, video_metadata, with_defaults,
  video_metadata-video_metadata_to_form,
}
use mallard.Api.Requests.{
  ApiRequest, infer_video, probe_size, send, infer_video_metadata, sized_video,
}

module _ {B : Type 0} {E : Type 0} {V : Type 0} {R : Type 0} (urls : UrlLibrary) (location : Text)
    (fief_auth : FiefAuth B E) (gateway : ApiRequest V → List (Text × Text) → Answer E R) where
  send-IsSignedIn :
      (request : ApiRequest V) (session : Session B) (signed_in : IsSignedIn fief_auth session.fief)
      → send urls location (some fief_auth) gateway request session
        ≡ (gateway request (headers (some signed_in.0)), session)
  unfolding send
  send-IsSignedIn request session signed_in =
      rw (send, get_auth_token-IsSignedIn fief_auth urls location session signed_in) refl

  -- Where the user is signed in, and the generated client passes its arguments on in the order of
  -- the API's description: the inference of a video's metadata leaves the session as it is, and
  -- answers what the gateway answers to one request with the user's token. Of the video this holds
  -- the beginning, `probe_size` bytes of it or all of a shorter video, while the gateway reads from
  -- its form the known metadata with the size of the whole video, and with the defaults.
  pub infer_video_metadata_lem :
      (number : ℕ → V) (offset ground empty : V) (client : List (Option V) → List (Text × Option V))
      → IsPositional client uav_video_metadata_fields
      → (video_data : List ℕ) (name : Text) (known : UavVideoMetadata V) (session : Session B)
        (signed_in : IsSignedIn fief_auth session.fief)
      → (content : List ℕ) × (form : List (Option V)) × (infer_video_metadata urls location
            (some fief_auth)
            gateway
            number
            offset
            video_data
            name
            known
            session
          ≡ (
            gateway
                (infer_video (record { content = content; name = name }) form)
                (headers (some signed_in.0)),
            session,
          ))
        × ((rest : List ℕ) × (content ++ rest ≡ video_data))
        × (length content ≡ min probe_size (length video_data))
        × (video_metadata ground empty (client form) ≡ record known {
          common =
              with_defaults ground empty
                (record known.common { size = some (number (length video_data)) });
        })
  unfolding infer_video_metadata
  infer_video_metadata_lem number offset ground empty client positional video_data name known
        session signed_in =
      (
        take probe_size video_data,
        video_metadata_to_form (sized_video number video_data known),
        send-IsSignedIn _ session signed_in,
        (drop probe_size video_data, take-append-drop probe_size video_data),
        length-take probe_size video_data,
        video_metadata-video_metadata_to_form ground empty client positional _,
      )
