-- ===== src/HttpClient/Send.antt =====
-- agent/src/http_client.cpp: `send_metrics`, with the client's state.
use real_time_system_metrics.Base.{
  ◌≡◌, ◌↔◌, Bool, true, false, ◌||◌, List, [], ◌∷◌, ◌++◌, Option, none, some, Bytes, codes,
  if◌then◌else◌, arith, ℤ, pos, ltb_ℤ, leb_ℤ, ◌≤ℤ◌, ◌<ℤ◌, Option-cases, inl, inr,
}
use real_time_system_metrics.Double.{Double}
use real_time_system_metrics.Metrics.{SystemMetrics}
use real_time_system_metrics.HttpClient.{metrics_to_json}
use real_time_system_metrics.CppStd.Numbers.{int_to_string}

pub record Client : Type 0 where
  pub backend_url : Bytes
  pub last_error_message : Bytes
  pub last_status_code : ℤ

-- `HttpClient(backend_url)`
abbrev pub new_client : Bytes → Client
new_client url = record { backend_url = url; last_error_message = []; last_status_code = pos 0 }

-- What one `curl_easy_perform` did: its result (`none` is CURLE_OK, else the text of
-- `curl_easy_strerror`), the response code, the error buffer, and the chunks of the response.
pub record Transfer : Type 0 where
  pub result : Option Bytes
  pub response_code : ℤ
  pub curl_error : Bytes
  pub chunks : List Bytes

-- `write_callback` appends each chunk to the response.
unfoldable pub write_callback : List Bytes → Bytes → Bytes
write_callback [] response = response
write_callback (chunk ∷ chunks) response = write_callback chunks (response ++ chunk)

abbrev pub or_text : Bytes → Bytes → Bytes
or_text [] text = text
or_text (c ∷ buffer) text = c ∷ buffer

abbrev pub with_response : Bytes → Bytes
with_response [] = []
with_response (c ∷ response) = codes " with response: " ++ c ∷ response

-- The end of `send_metrics`: with the response code stored, its result and the error message.
unfoldable pub judge : Client → Option Bytes → Bytes → Bytes → Bool × Client
judge c (some strerror) curl_error response = (
  false,
  record c {
    last_error_message =
        codes "Network error while sending to "
        ++ c.backend_url
        ++ codes "/ingest/metrics: "
        ++ or_text curl_error strerror;
  },
)
judge c none curl_error response =
    if ltb_ℤ c.last_status_code (pos 200) || leb_ℤ (pos 300) c.last_status_code
    then (
      false,
      record c {
        last_error_message =
            codes "Backend returned HTTP "
            ++ int_to_string c.last_status_code
            ++ with_response response;
      },
    )
    else (true, c)

abbrev pub url_of : Client → Bytes
url_of c = c.backend_url ++ codes "/ingest/metrics"

module _ {W : Type 0} ⦃d : Double W⦄ where
  -- `curl` is what libcurl does with a request to a URL with a body; `none` is a failed
  -- `curl_easy_init`.
  unfoldable pub send_metrics :
      (Bytes → Bytes → Option Transfer) → SystemMetrics W → Client → Bool × Client
  unfolding judge write_callback
  send_metrics curl metrics c =
      let cleared : Client = record c { last_error_message = []; last_status_code = pos 0 } in
      elim (curl (url_of c) (metrics_to_json metrics)) [
        | none ↦ (
          false,
          record cleared { last_error_message = codes "Failed to initialize CURL client" },
        )
        | some t ↦
            judge (record cleared { last_status_code = t.response_code }) t.result t.curl_error
              (write_callback t.chunks [])
      ]

-- A transfer that the backend accepted.
abbrev pub IsAccepted : Option Transfer → Type 0
IsAccepted none = ⊥
IsAccepted (some t) =
    (t.result ≡ none) × (pos 200 ≤ℤ t.response_code) × (t.response_code <ℤ pos 300)

-- The code of the response, or 0 without one.
abbrev pub code_of : Option Transfer → ℤ
code_of none = pos 0
code_of (some t) = t.response_code

-- What a send leaves behind, by its result and by what libcurl did.
pub record IsReported (c : Client) (outcome : Option Transfer) (sent : Bool) (c' : Client)
    : Type 0 where
  pub sent_iff : (sent ≡ true) ↔ IsAccepted outcome
  pub error_iff : (c'.last_error_message ≡ []) ↔ (sent ≡ true)
  pub status : c'.last_status_code ≡ code_of outcome
  pub url : c'.backend_url ≡ c.backend_url

judge-IsReported :
    (c : Client) (t : Transfer)
    → let r =
        judge
          (record c { last_error_message = []; last_status_code = t.response_code })
          t.result
          t.curl_error
          (write_callback t.chunks []) in
      IsReported c (some t) r.0 r.1
unfolding judge
judge-IsReported c t = elim (Option-cases t.result) [
  | inl e ↦ rw e (ground (arith, e))
  | inr (s, e) ↦ rw e (ground (arith, e))
]

module _ {W : Type 0} ⦃d : Double W⦄ where
  -- A send succeeds exactly when the transfer did and the code is from 200 to 299; the error message
  -- is then empty, and is not otherwise; the status is that of this response, or 0 without one,
  -- whatever an earlier send left behind.
  pub send_metrics-IsReported :
      (curl : Bytes → Bytes → Option Transfer) (metrics : SystemMetrics W) (c : Client)
      → let r = send_metrics curl metrics c in
        IsReported c (curl (url_of c) (metrics_to_json metrics)) r.0 r.1
  unfolding send_metrics
  send_metrics-IsReported curl metrics c =
      elim (Option-cases (curl (url_of c) (metrics_to_json metrics))) [
        | inl e ↦ rw (e, send_metrics) (ground arith)
        | inr (t, e) ↦ rw (e, send_metrics) (judge-IsReported c t)
      ]
