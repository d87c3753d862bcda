-- ===== src/HttpClient/Curl.antt =====
-- agent/src/http_client.cpp: the calls of libcurl that a client makes, from its constructor to its
-- destructor, and the rules of libcurl for them.
use real_time_system_metrics.Base.{
  ℕ, Bool, true, false, List, [], ◌∷◌, ◌++◌, Option, none, some, Bytes, codes, length,
}
use real_time_system_metrics.Double.{Double}
use real_time_system_metrics.Metrics.{SystemMetrics}
use real_time_system_metrics.HttpClient.{metrics_to_json}
use real_time_system_metrics.HttpClient.Send.{Client, new_client, Transfer, url_of, send_metrics}

-- `easy_init` has whether it gave a handle; `set_…` is `curl_easy_setopt` of that option.
pub data CurlCall : Type 0 where
  global_init global_cleanup : CurlCall
  easy_init : Bool → CurlCall
  set_url set_postfields : Bytes → CurlCall
  set_postfieldsize : ℕ → CurlCall
  slist_append : Bytes → CurlCall
  set_httpheader set_writefunction set_writedata set_errorbuffer : CurlCall
  set_connecttimeout set_timeout : ℕ → CurlCall
  easy_perform getinfo_response_code slist_free_all easy_cleanup easy_strerror : CurlCall

-- The text of an error is asked for if the transfer failed and left no text in the buffer.
abbrev pub strerror_calls : Option Bytes → Bytes → List CurlCall
strerror_calls (some strerror) [] = easy_strerror ∷ []
strerror_calls result curl_error = []

-- The calls of one `send_metrics`.
unfoldable pub send_calls : Option Transfer → Bytes → Bytes → List CurlCall
send_calls none url json_data = easy_init false ∷ []
send_calls (some t) url json_data =
    easy_init true
    ∷ set_url url
    ∷ set_postfields json_data
    ∷ set_postfieldsize (length json_data)
    ∷ slist_append (codes "Content-Type: application/json")
    ∷ set_httpheader
    ∷ set_writefunction
    ∷ set_writedata
    ∷ set_errorbuffer
    ∷ set_connecttimeout 3
    ∷ set_timeout 5
    ∷ easy_perform
    ∷ getinfo_response_code
    ∷ slist_free_all
    ∷ easy_cleanup
    ∷ strerror_calls t.result t.curl_error

module _ (W : Type 0) ⦃d : Double W⦄ where
  -- What libcurl does with each request, and the snapshots that are sent.
  abbrev pub Sends : Type 0
  Sends = List ((Bytes → Bytes → Option Transfer) × SystemMetrics W)

module _ {W : Type 0} ⦃d : Double W⦄ where
  -- The calls of a client for a row of sends.
  abbrev pub sends_calls : Sends W → Client → List CurlCall
  sends_calls [] client = []
  sends_calls ((curl, metrics) ∷ sends) client =
      let url = url_of client in
      let json_data = metrics_to_json metrics in
      send_calls (curl url json_data) url json_data
      ++ sends_calls sends (send_metrics curl metrics client).1

  -- From the constructor to the destructor.
  unfoldable pub client_calls : Sends W → Bytes → List CurlCall
  client_calls sends backend_url =
      global_init ∷ sends_calls sends (new_client backend_url) ++ global_cleanup ∷ []
