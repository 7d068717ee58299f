-- ===== src/Esi/Client.antt =====
-- client.go: `Client.getJSON` and `Client.postJSON`. HTTP, the encodings and the reading of headers are
-- Go's: a call is given what they answer. `decodes url body` says whether the body of that URL is read
-- into its target. The cache is a map by URL whose calls may fail.
use alice_eve.Base.{
  Bool, true, false, ◌&&◌, not, Option, none, some, String, ◌==◌, if◌then◌else◌, ℕ, ltb, eqb,
}
use alice_eve.Base.Results.{Result, ok, err}
use alice_eve.Base.Int.{ℤ, pos, leb_ℤ, ltb_ℤ, eqb_ℤ, pos_part}
use alice_eve.Base.Dict.{Dict, lookup, insert}
use alice_eve.Base.Text.{is_blank}
use alice_eve.Base.Split.{byte_length}
use alice_eve.Esi.{Response}
use alice_eve.Esi.Limiter.{Refusal, Limiter, wait, observe}

pub record CacheEntry : Type 0 where
  pub body : String
  pub etag : String
  pub expires_at : ℕ

-- `network` and `timeout` are the kinds of a transport that failed; `status` is an HTTP error.
pub data Error : Type 0 where
  no_user_agent decode too_large : Error
  bad_url cache_get cache_put network timeout : String → Error
  refused : Refusal → Error
  status : ℤ → Error

-- The client's settings.
pub record Client : Type 0 where
  pub user_agent : String
  pub max_body_bytes : ℤ

pub record State : Type 0 where
  pub limiter : Limiter
  pub cache : Option (Dict CacheEntry)

-- An HTTP response: what the headers say, and what reading the body gives.
pub record Reply : Type 0 where
  pub meta : Response
  pub body : Result String String

-- What one call meets. `answer` is the transport's, with `timed_out` for its error.
pub record Call : Type 0 where
  pub url : Result String String
  pub request : Option String
  pub now : ℕ
  pub ends : ℕ → Option String
  pub answer : Result String Reply
  pub timed_out : Bool
  pub answered_at : ℕ
  pub cache_get_fault : Option String
  pub cache_put_fault : Option String

-- `(Response, error)`, with the body that the target was read from.
pub record Outcome : Type 0 where
  pub meta : Response
  pub target : Option String
  pub error : Option Error

abbrev pub no_response : Response
no_response = record {
  status_code = pos 0;
  from_cache = false;
  etag = "";
  expires_at = 0;
  pages = pos 0;
  error_limit_remain = pos 0;
  error_limit_reset = pos 0;
  error_limit_remain_set = false;
  error_limit_reset_set = false;
  retry_after = pos 0;
  retry_at = 0;
  retry_after_set = false;
}

abbrev pub failed : Response → Error → Outcome
failed meta e = record { meta = meta; target = none; error = some e }

abbrev pub max_body : Client → ℕ
max_body c = if ltb_ℤ (pos 0) c.max_body_bytes then pos_part c.max_body_bytes else 16777216

abbrev pub is_success : ℤ → Bool
is_success code = leb_ℤ (pos 200) code && ltb_ℤ code (pos 300)

unfoldable pub read_bounded : Result String String → ℕ → Result Error String
read_bounded body limit = elim body [
  | err e ↦ err (network e)
  | ok text ↦ if ltb limit (byte_length text) then err too_large else ok text
]

-- `Wait`, then the transport.
unfoldable pub send : State → Call → State × Result Error Reply
send s c =
    let w = wait s.limiter c.now c.ends in
    (
      record s { limiter = w.0 },
      elim w.1 [
        | err e ↦ err (refused e)
        | ok start ↦ elim c.answer [
          | err e ↦ err (if c.timed_out then timeout e else network e)
          | ok reply ↦ ok reply
        ]
      ],
    )

abbrev pub fresh_entry : ℕ → CacheEntry → Bool
fresh_entry now e = e.etag == "" && not (eqb e.expires_at 0) && ltb now e.expires_at

abbrev pub cached_reply : CacheEntry → Response
cached_reply e = record no_response {
  status_code = pos 200;
  from_cache = true;
  expires_at = e.expires_at;
}

abbrev pub unchanged_reply : Response → CacheEntry → Response
unchanged_reply meta e = record meta {
  from_cache = true;
  expires_at = if eqb meta.expires_at 0 then e.expires_at else meta.expires_at;
}

module _ (decodes : String → String → Bool) where
  -- The reading of a body into the target.
  abbrev pub read_into : Response → String → String → Outcome
  read_into meta url text =
      if decodes url text
      then record { meta = meta; target = some text; error = none }
      else failed meta decode

  -- A reply that is read whole, which `post` is done with.
  unfoldable pub read_reply : Client → String → Reply → Outcome
  read_reply c url reply =
      if not (is_success reply.meta.status_code)
      then failed reply.meta (status reply.meta.status_code)
      else elim (read_bounded reply.body (max_body c)) [
        | err e ↦ failed reply.meta e
        | ok text ↦ read_into reply.meta url text
      ]

  -- What `get` writes behind a body that was read.
  unfoldable pub remember : State → Call → String → Response → String → State × Outcome
  remember s c url meta text = elim s.cache [
    | none ↦ (s, record { meta = meta; target = some text; error = none })
    | some entries ↦ elim c.cache_put_fault [
      | some e ↦ (s, record { meta = meta; target = some text; error = some (cache_put e) })
      | none ↦ (
        record s {
          cache = some (
              insert url (record { body = text; etag = meta.etag; expires_at = meta.expires_at })
                entries);
        },
        record { meta = meta; target = some text; error = none },
      )
    ]
  ]

  unfoldable pub store_reply : State → Client → Call → String → Reply → State × Outcome
  store_reply s c call url reply =
      if not (is_success reply.meta.status_code)
      then (s, failed reply.meta (status reply.meta.status_code))
      else elim (read_bounded reply.body (max_body c)) [
        | err e ↦ (s, failed reply.meta e)
        | ok text ↦
            if decodes url text
            then remember s call url reply.meta text
            else (s, failed reply.meta decode)
      ]

  -- From the request on.
  unfoldable pub fetch : State → Client → Call → String → Option CacheEntry → State × Outcome
  fetch s c call url cached = elim call.request [
    | some e ↦ (s, failed no_response (network e))
    | none ↦
        let sent = send s call in
        elim sent.1 [
          | err e ↦ (sent.0, failed no_response e)
          | ok reply ↦
              if eqb_ℤ reply.meta.status_code (pos 304)
              then elim cached [
                | none ↦ (sent.0, failed reply.meta (status reply.meta.status_code))
                | some e ↦ (
                  sent.0,
                  (if decodes url e.body
                      then record {
                        meta = unchanged_reply reply.meta e;
                        target = some e.body;
                        error = none;
                      }
                      else failed reply.meta decode),
                )
              ]
              else store_reply sent.0 c call url reply
        ]
  ]

  abbrev pub find_entry : State → Call → String → Result String (Option CacheEntry)
  find_entry s call url = elim s.cache [
    | none ↦ ok none
    | some entries ↦ elim call.cache_get_fault [ some e ↦ err e | none ↦ ok (lookup url entries) ]
  ]

  abbrev pub get_url : State → Client → Call → String → State × Outcome
  get_url s c call url = elim (find_entry s call url) [
    | err e ↦ (s, failed no_response (cache_get e))
    | ok none ↦ fetch s c call url none
    | ok (some e) ↦
        if fresh_entry call.now e
        then (s, read_into (cached_reply e) url e.body)
        else fetch s c call url (some e)
  ]

  unfoldable pub get_json : State → Client → Call → State × Outcome
  get_json s c call =
      if is_blank c.user_agent then (s, failed no_response no_user_agent) else elim call.url [
        | err e ↦ (s, failed no_response (bad_url e))
        | ok url ↦ get_url s c call url
      ]

  -- `request_body` is the encoded body.
  abbrev pub post_url : State → Client → Call → String → State × Outcome
  post_url s c call url = elim call.request [
    | some e ↦ (s, failed no_response (network e))
    | none ↦
        let sent = send s call in
        elim sent.1 [
          | err e ↦ (sent.0, failed no_response e)
          | ok reply ↦ (
            record sent.0 { limiter = observe sent.0.limiter call.answered_at reply.meta },
            read_reply c url reply,
          )
        ]
  ]

  unfoldable pub post_json : State → Client → Call → Option String → State × Outcome
  post_json s c call request_body =
      if is_blank c.user_agent then (s, failed no_response no_user_agent) else elim call.url [
        | err e ↦ (s, failed no_response (bad_url e))
        | ok url ↦ elim request_body [
          | none ↦ (s, failed no_response decode)
          | some body ↦
              if ltb 16384 (byte_length body)
              then (s, failed no_response too_large)
              else post_url s c call url
        ]
      ]
