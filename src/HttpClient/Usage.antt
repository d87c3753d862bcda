-- ===== src/HttpClient/Usage.antt =====
-- The rules of libcurl for the calls of a client, and that it keeps them.
use real_time_system_metrics.Base.{
  ℕ, ◌≡◌, ◌∙◌, ap, sym, refl, Bool, true, false, ◌&&◌, List, [], ◌∷◌, ◌++◌, append_assoc,
  append-nil, Option, none, some, Bytes, codes, length, Option-cases, inl, inr,
}
use real_time_system_metrics.Double.{Double}
use real_time_system_metrics.HttpClient.{metrics_to_json}
use real_time_system_metrics.HttpClient.Send.{
  Client, new_client, Transfer, url_of, send_metrics-IsReported,
}
use real_time_system_metrics.HttpClient.Curl.{
  CurlCall, global_init, global_cleanup, easy_init, set_url, set_postfields, set_postfieldsize,
  slist_append, set_httpheader, set_writefunction, set_writedata, set_errorbuffer,
  set_connecttimeout, set_timeout, easy_perform, getinfo_response_code, slist_free_all,
  easy_cleanup, easy_strerror, strerror_calls, send_calls, Sends, sends_calls, client_calls,
}

-- What `easy_perform` is given.
pub record Request : Type 0 where
  pub url : Bytes
  pub body : Bytes
  pub size : ℕ
  pub headers : List Bytes
  pub connect_timeout : ℕ
  pub timeout : ℕ

-- A handle with the options that have been set, and whether the response and the error have a place.
pub record Easy : Type 0 where
  pub url : Option Bytes
  pub body : Option Bytes
  pub size : Option ℕ
  pub has_headers : Bool
  pub has_function : Bool
  pub has_data : Bool
  pub has_buffer : Bool
  pub connect_timeout : ℕ
  pub timeout : ℕ

abbrev fresh : Easy
fresh = record {
  url = none;
  body = none;
  size = none;
  has_headers = false;
  has_function = false;
  has_data = false;
  has_buffer = false;
  connect_timeout = 0;
  timeout = 0;
}

-- Where a client stands with libcurl, with what it has performed: not initialised, without a handle, or with
-- a handle and its list of headers.
pub data Usage : Type 0 where
  down idle : List Request → Usage
  opened : Easy → Option (List Bytes) → List Request → Usage

abbrev request_with :
    Option Bytes → Option Bytes → Option ℕ → Bool → List Bytes → Easy → Option Request
request_with (some url) (some body) (some size) true headers e = some (record {
  url = url;
  body = body;
  size = size;
  headers = headers;
  connect_timeout = e.connect_timeout;
  timeout = e.timeout;
})
request_with url body size ready headers e = none

abbrev perform : Easy → List Bytes → List Request → Option Request → Option Usage
perform e headers ps none = none
perform e headers ps (some r) = some (opened e (some headers) (ps ++ r ∷ []))

abbrev appended : Option (List Bytes) → Bytes → List Bytes
appended none header = header ∷ []
appended (some headers) header = headers ++ header ∷ []

-- A sound use of libcurl, call by call: options and results only of an open handle, a transfer only with
-- all its options set and while its list of headers is alive, the end only without a handle, and a handle's
-- end only without a list. `none` is any other call.
abbrev pub use_call : CurlCall → Usage → Option Usage
use_call global_init (down ps) = some (idle ps)
use_call global_cleanup (idle ps) = some (down ps)
use_call (easy_init false) (idle ps) = some (idle ps)
use_call (easy_init true) (idle ps) = some (opened fresh none ps)
use_call (set_url url) (opened e l ps) = some (opened (record e { url = some url }) l ps)
use_call (set_postfields body) (opened e l ps) = some (opened (record e { body = some body }) l ps)
use_call (set_postfieldsize size) (opened e l ps) =
    some (opened (record e { size = some size }) l ps)
use_call (slist_append header) (opened e l ps) = some (opened e (some (appended l header)) ps)
use_call set_httpheader (opened e (some l) ps) =
    some (opened (record e { has_headers = true }) (some l) ps)
use_call set_writefunction (opened e l ps) = some (opened (record e { has_function = true }) l ps)
use_call set_writedata (opened e l ps) = some (opened (record e { has_data = true }) l ps)
use_call set_errorbuffer (opened e l ps) = some (opened (record e { has_buffer = true }) l ps)
use_call (set_connecttimeout t) (opened e l ps) =
    some (opened (record e { connect_timeout = t }) l ps)
use_call (set_timeout t) (opened e l ps) = some (opened (record e { timeout = t }) l ps)
use_call easy_perform (opened e (some l) ps) = perform e l ps (
    request_with e.url e.body e.size (e.has_headers && e.has_function && e.has_data && e.has_buffer)
      l e)
use_call getinfo_response_code (opened e l ps) = some (opened e l ps)
use_call slist_free_all (opened e (some l) ps) = some (opened e none ps)
use_call easy_cleanup (opened e none ps) = some (idle ps)
use_call easy_strerror u = some u
use_call call u = none

abbrev then_use : Option Usage → (Usage → Option Usage) → Option Usage
then_use none f = none
then_use (some u) f = f u

abbrev pub use_calls : List CurlCall → Usage → Option Usage
use_calls [] u = some u
use_calls (call ∷ calls) u = then_use (use_call call u) (use_calls calls)

-- One request for each send that got a handle: a POST of the snapshot's JSON with its length.
abbrev request_at : Bytes → Option Transfer → Bytes → List Request
request_at url none body = []
request_at url (some t) body =
    record {
      url = url;
      body = body;
      size = length body;
      headers = codes "Content-Type: application/json" ∷ [];
      connect_timeout = 3;
      timeout = 5;
    }
    ∷ []

module _ {W : Type 0} ⦃d : Double W⦄ where
  abbrev pub requests_at : Bytes → Sends W → List Request
  requests_at url [] = []
  requests_at url ((curl, metrics) ∷ sends) =
      let body = metrics_to_json metrics in
      request_at url (curl url body) body ++ requests_at url sends

use_calls-append :
    (xs ys : List CurlCall) (u : Usage) {v : Usage}
    → use_calls xs u ≡ some v
    → use_calls (xs ++ ys) u ≡ use_calls ys v
use_calls-append [] ys u e = ap (λ o. then_use o (use_calls ys)) e
use_calls-append (x ∷ xs) ys u {v} e = elim (Option-cases (use_call x u)) [
  | inl f ↦ absurd (cc (rw f at e))
  | inr (w, f) ↦ rw f (use_calls-append xs ys w (rw f at e))
]

strerror_calls_lem :
    (result : Option Bytes) (curl_error : Bytes) (u : Usage)
    → use_calls (strerror_calls result curl_error) u ≡ some u
strerror_calls_lem none curl_error u = refl
strerror_calls_lem (some strerror) [] u = refl
strerror_calls_lem (some strerror) (c ∷ curl_error) u = refl

send_calls_lem :
    (o : Option Transfer) (url body : Bytes) (ps : List Request)
    → use_calls (send_calls o url body) (idle ps) ≡ some (idle (ps ++ request_at url o body))
unfolding send_calls
send_calls_lem none url body ps = ap (λ rs. some (idle rs)) (sym (append-nil ps))
send_calls_lem (some t) url body ps = strerror_calls_lem t.result t.curl_error _

module _ {W : Type 0} ⦃d : Double W⦄ where
  sends_calls_lem :
      (sends : Sends W) (client : Client) (url : Bytes) (ps : List Request)
      → url_of client ≡ url
      → use_calls (sends_calls sends client) (idle ps) ≡ some (idle (ps ++ requests_at url sends))
  sends_calls_lem [] client url ps e = ap (λ rs. some (idle rs)) (sym (append-nil ps))
  sends_calls_lem ((curl, metrics) ∷ sends) client url ps e =
      let body = metrics_to_json metrics in
      let asked = request_at url (curl url body) body in
      let kept = (send_metrics-IsReported curl metrics client).url in
      rw e (
        use_calls-append (send_calls (curl url body) url body) _ (idle ps)
          (send_calls_lem (curl url body) url body ps)
        ∙ sends_calls_lem sends _ url (ps ++ asked)
            (ap (λ b. b ++ codes "/ingest/metrics") kept ∙ e)
        ∙ ap (λ rs. some (idle rs)) (append_assoc ps asked (requests_at url sends)))

  -- From its constructor to its destructor a client uses libcurl soundly, whatever it sends and whatever
  -- becomes of it: each handle is closed once and without a list of headers, each transfer has all its
  -- options, and at the end libcurl is down; and it has performed one request for each send that got a
  -- handle, in that order, each a POST to the configured URL of the snapshot's JSON with its length.
  pub client_calls-IsSound :
      (sends : Sends W) (backend_url : Bytes)
      → use_calls (client_calls sends backend_url) (down [])
        ≡ some (down (requests_at (backend_url ++ codes "/ingest/metrics") sends))
  unfolding client_calls
  client_calls-IsSound sends backend_url =
      use_calls-append (sends_calls sends (new_client backend_url)) _ (idle [])
        (sends_calls_lem sends (new_client backend_url) _ [] refl)
