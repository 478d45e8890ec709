-- ===== src/Http1/Upgrade/Confirmed.antt =====
-- An upgrade to HTTP/2 is confirmed, and the request is answered on stream 1.
use shitty.Prelude.{
  ℕ, ◌≡◌, refl, ap, ◌∙◌, ◌&&◌, Bool, true, false, List, [], ◌∷◌, Option, some, ok, pos,
}
use shitty.Messages.{Header, Request, new_message, get, find}
use shitty.Messages.Laws.{get-some}
use shitty.Http1.Transport.{equal_octets}
use shitty.Http1.Server.{upgrade_lower, confirm_upgrade}
use shitty.Http1.Lines.{status_line}
use shitty.Http1.Upgrade.{
  h2c, http2_settings_name, get_upgrader, static_upgrades, add_upgrader, http2_upgrader,
  upgrader_upgrade, upgrade, without_upgrade, confirm_and_upgrade, try_upgrade,
}
use shitty.Http2.Settings.{Settings}
use shitty.Http2.Stream.{ServerStream, idle, on_request, send_response, new_server_stream}
use shitty.Http2.HeadersFrame.{
  write_headers_frame, set_end_stream, set_header_block_fragment, new_headers_frame,
}
use shitty.Http2.Frame.{write_header, new_header}
use shitty.Http2.Transport.{
  ServerTransport, send, get_stream, find_stream, initialize, send_preface, decode_base64_settings,
  new_server_transport,
}
use shitty.Http2.Transport.Reach.{Reach, made, responded}

both_false : (p : Bool) → (p && false) ≡ false
both_false true = refl
both_false false = refl

-- The settings frame of the server's preface, and ":status: 200" on stream 1, which it ends.
abbrev pub preface_octets : List ℕ
preface_octets = 0 ∷ 0 ∷ 0 ∷ 4 ∷ 0 ∷ 0 ∷ 0 ∷ 0 ∷ 0 ∷ []

abbrev pub response_octets : List ℕ
response_octets = 0 ∷ 0 ∷ 1 ∷ 1 ∷ 5 ∷ 0 ∷ 0 ∷ 0 ∷ 1 ∷ 0x88 ∷ []

record IsFresh (s : ServerTransport) : Type 0 where
  stream : ServerStream
  stream_one : get_stream s 1 ≡ ok stream
  responds : (request : Request) → on_request stream request ≡ response_octets
  sent : s.sent ≡ preface_octets ∷ []

fresh : (settings : Settings) → (s : ServerTransport) × (initialize settings ≡ ok s) × IsFresh s
unfolding initialize new_server_stream send_preface get_stream find_stream on_request send_response
    write_headers_frame set_end_stream set_header_block_fragment new_headers_frame write_header
    new_header
fresh settings = (
  _,
  refl,
  record {
    stream = record { id = 1; window_size = pos 65535; state = idle; request = new_message };
    stream_one = refl;
    responds = λ request. refl;
    sent = refl;
  },
)

confirmation-ok : (now token : List ℕ) → (octets : List ℕ) × (confirm_upgrade now token ≡ ok octets)
unfolding confirm_upgrade status_line
confirmation-ok now token = (_, refl)

h2c-registered :
    (token : List ℕ) → token ≡ h2c → get_upgrader static_upgrades token ≡ some http2_upgrader
unfolding get_upgrader static_upgrades add_upgrader equal_octets
h2c-registered token e = rw e refl

h2c-some : (token : List ℕ) → token ≡ h2c → equal_octets token [] ≡ false
unfolding equal_octets
h2c-some token e = rw e refl

module _ (now : List ℕ) (c : Bool) (decoded_size_nopad : ℕ → ℕ)
    (decode : List ℕ → Option (List ℕ)) where
  upgraded-fresh :
      (token : List ℕ) (request : Request) (settings : Settings)
      → decode_base64_settings c decoded_size_nopad decode
          (get request.message.headers http2_settings_name).value
        ≡ ok settings
      → (octets : List ℕ) × (s : ServerTransport) × (confirm_upgrade now token ≡ ok octets)
        × (confirm_and_upgrade now c decoded_size_nopad decode http2_upgrader token request
            ≡ ok (some (record { confirmation = octets; transport = s })))
        × Reach c s
        × (s.sent ≡ preface_octets ∷ response_octets ∷ [])
  unfolding confirm_and_upgrade upgrader_upgrade upgrade new_server_transport
  upgraded-fresh token request settings decoded =
      let (octets, confirmed) = confirmation-ok now token in
      let (s, initialized, f) = fresh settings in
      (
        octets,
        send s (on_request f.stream (without_upgrade request)),
        confirmed,
        rw (confirmed, decoded, initialized, f.stream_one) refl,
        responded f.stream (without_upgrade request) (made settings initialized),
        rw (f.sent, f.responds (without_upgrade request)) refl,
      )

  try_upgrade-confirms :
      (request : Request)
      → (get request.message.headers upgrade_lower).value ≡ h2c
      → try_upgrade now c decoded_size_nopad decode request
        ≡ confirm_and_upgrade now c decoded_size_nopad decode http2_upgrader
            (get request.message.headers upgrade_lower).value
            request
  unfolding try_upgrade
  try_upgrade-confirms request named =
      let header = get request.message.headers upgrade_lower in
      rw
        (
          h2c-some header.value named,
          both_false (equal_octets header.name []),
          h2c-registered header.value named,
        )
        refl

  -- The token is confirmed over HTTP/1, and the new transport, in one of the states that HTTP/2 can reach, has
  -- sent its preface and a response on stream 1, and no more.
  abbrev pub Confirms : Request → Type 0
  Confirms request =
      (octets : List ℕ) × (s : ServerTransport) × (confirm_upgrade now h2c ≡ ok octets)
      × (try_upgrade now c decoded_size_nopad decode request
          ≡ ok (some (record { confirmation = octets; transport = s })))
      × Reach c s
      × (s.sent ≡ preface_octets ∷ response_octets ∷ [])

  -- A request whose Upgrade header is "h2c", and the value of whose HTTP2-Settings, or the empty string, can be
  -- decoded, is upgraded: the confirmation is sent, and the HTTP/2 transport that takes over, in a state that can
  -- be reached, has sent its preface and ":status: 200" on stream 1.
  pub try_upgrade-h2c :
      (request : Request) (h : Header) (settings : Settings)
      → find request.message.headers upgrade_lower ≡ some h
      → h.value ≡ h2c
      → decode_base64_settings c decoded_size_nopad decode
          (get request.message.headers http2_settings_name).value
        ≡ ok settings
      → Confirms request
  try_upgrade-h2c request h settings found token decoded =
      let (octets, s, confirmed, done, reached, sent) =
        upgraded-fresh h2c request settings decoded in
      let here = get-some request.message.headers upgrade_lower found in
      let named : (get request.message.headers upgrade_lower).value ≡ h2c = rw here token in
      let confirms =
        try_upgrade-confirms request named
        ∙ ap
            (λ (t : List ℕ).
              confirm_and_upgrade now c decoded_size_nopad decode http2_upgrader t request)
            named in
      (octets, s, confirmed, confirms ∙ done, reached, sent)
