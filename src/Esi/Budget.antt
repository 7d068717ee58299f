-- ===== src/Esi/Budget.antt =====
-- client.go: what a request leaves behind, in the cache and of the error budget.
use alice_eve.Base.{
  ◌≡◌, refl, sym, subst, Bool, true, false, Option, none, some, String, ℕ, ◌≤◌, ltb, arith,
  Bool-cases, Option-cases, inl, inr, All,
}
use alice_eve.Base.Results.{Result, ok, err, Result-cases}
use alice_eve.Base.Int.{pos, eqb_ℤ}
use alice_eve.Base.Dict.{Dict, lookup, insert}
use alice_eve.Base.Entries.{All-lookup, All-insert}
use alice_eve.Base.Text.{is_blank}
use alice_eve.Base.Split.{byte_length}
use alice_eve.Esi.{Response}
use alice_eve.Esi.Limiter.{Limiter, plan, wait, observe}
use alice_eve.Esi.Client.{
  CacheEntry, Error, cache_put, cache_get, Client, State, Reply, Call, Outcome, no_response, failed,
  max_body, is_success, read_bounded, send, fresh_entry, cached_reply, remember, store_reply, fetch,
  get_url, get_json, post_json,
}

-- What a limiter knows of the budget; a request that waits moves its next slot only.
pub record SameBudget (l l' : Limiter) : Type 0 where
  pub remain : l'.remain ≡ l.remain
  pub known : l'.known ≡ l.known
  pub until : l'.until ≡ l.until

wait-SameBudget :
    (l : Limiter) (now : ℕ) (ends : ℕ → Option String) → SameBudget l (wait l now ends).0
unfolding wait plan
wait-SameBudget l now ends = record {
  remain = ground arith;
  known = ground arith;
  until = ground arith;
}

module _ (decodes : String → String → Bool) (c : Client) where
  -- An entry of the cache is a body that is read, within the limit.
  abbrev pub IsReadable : String × CacheEntry → Type 0
  IsReadable entry = (decodes entry.0 entry.1.body ≡ true) × (byte_length entry.1.body ≤ max_body c)

  abbrev pub IsSound : Option (Dict CacheEntry) → Type 0
  IsSound none = Unit
  IsSound (some entries) = All IsReadable entries

  -- After a request for `url`.
  pub record IsServed (s : State) (url : String) (x : State × Outcome) : Type 0 where
    pub sound : IsSound x.0.cache
    pub budget : SameBudget s.limiter x.0.limiter
    pub read :
        x.1.error ≡ none
        → (text : String) × (x.1.target ≡ some text)
          × (decodes url text ≡ true)
          × (byte_length text ≤ max_body c)

  failed-IsServed :
      (s s' : State) (url : String) (meta : Response) (e : Error)
      → IsSound s'.cache
      → SameBudget s.limiter s'.limiter
      → IsServed s url (s', failed meta e)
  failed-IsServed s s' url meta e h same = record {
    sound = h;
    budget = same;
    read = λ ok. absurd (ground (arith, ok));
  }

  remember-IsServed :
      (s s' : State) (call : Call) (url : String) (meta : Response) (text : String)
      → IsSound s'.cache
      → SameBudget s.limiter s'.limiter
      → decodes url text ≡ true
      → byte_length text ≤ max_body c
      → IsServed s url (remember decodes s' call url meta text)
  unfolding remember
  remember-IsServed s s' call url meta text h same decoded bounded =
      let done : Outcome = record { meta = meta; target = some text; error = none } in
      let kept : (error : Option Error) → IsServed s url (s', record done { error = error }) =
        λ error. record { sound = h; budget = same; read = λ e. (text, refl, decoded, bounded) } in
      elim (Option-cases s'.cache) [
        | inl absent ↦
            let answer : remember decodes s' call url meta text ≡ (s', done) =
              ground (arith, absent) in
            subst (IsServed s url) (sym answer) (kept none)
        | inr (entries, there) ↦ elim (Option-cases call.cache_put_fault) [
          | inr (e, fails) ↦
              let answer : remember decodes s' call url meta text
                  ≡ (s', record done { error = some (cache_put e) }) =
                ground (arith, there, fails) in
              subst (IsServed s url) (sym answer) (kept (some (cache_put e)))
          | inl works ↦
              let entry : CacheEntry = record {
                body = text;
                etag = meta.etag;
                expires_at = meta.expires_at;
              } in
              let s2 : State = record s' { cache = some (insert url entry entries) } in
              let answer : remember decodes s' call url meta text ≡ (s2, done) =
                ground (arith, there, works) in
              subst (IsServed s url) (sym answer) (record {
                sound =
                    All-insert IsReadable url entry entries (subst IsSound there h)
                      (decoded, bounded);
                budget = same;
                read = λ e. (text, refl, decoded, bounded);
              })
        ]
      ]

  read_bounded_lem :
      (body : Result String String) (text : String)
      → read_bounded body (max_body c) ≡ ok text
      → byte_length text ≤ max_body c
  unfolding read_bounded
  read_bounded_lem (ok body) text h = ground (arith, h)
  read_bounded_lem (err e) text h = absurd (ground (arith, h))

  store_reply-IsServed :
      (s s' : State) (call : Call) (url : String) (reply : Reply)
      → IsSound s'.cache
      → SameBudget s.limiter s'.limiter
      → IsServed s url (store_reply decodes s' c call url reply)
  unfolding store_reply
  store_reply-IsServed s s' call url reply h same =
      elim (Bool-cases (is_success reply.meta.status_code)) [
        | inr refusal ↦ rw (refusal, store_reply) (failed-IsServed s s' url reply.meta _ h same)
        | inl success ↦ elim (Result-cases (read_bounded reply.body (max_body c))) [
          | inr (e, fails) ↦
              rw (success, fails, store_reply) (failed-IsServed s s' url reply.meta e h same)
          | inl (text, whole) ↦ elim (Bool-cases (decodes url text)) [
            | inr garbled ↦
                rw (success, whole, garbled, store_reply)
                  (failed-IsServed s s' url reply.meta _ h same)
            | inl decoded ↦
                rw (success, whole, decoded, store_reply)
                  (remember-IsServed s s' call url reply.meta text h same decoded
                    (read_bounded_lem reply.body text whole))
          ]
        ]
      ]

  fetch-IsServed :
      (s : State) (call : Call) (url : String) (cached : Option CacheEntry)
      → IsSound s.cache
      → ((e : CacheEntry) → cached ≡ some e → IsReadable (url, e))
      → IsServed s url (fetch decodes s c call url cached)
  unfolding fetch send
  fetch-IsServed s call url cached h readable =
      let w = wait s.limiter call.now call.ends in
      let s' : State = record s { limiter = w.0 } in
      let same = wait-SameBudget s.limiter call.now call.ends in
      elim (Option-cases call.request) [
        | inr (e, fails) ↦
            rw (fails, fetch)
              (failed-IsServed s s url no_response _ h
                (record { remain = refl; known = refl; until = refl }))
        | inl made ↦ elim (Result-cases (send s call).1) [
          | inr (e, fails) ↦ rw (made, fails, fetch) (failed-IsServed s s' url no_response e h same)
          | inl (reply, comes) ↦ elim (Bool-cases (eqb_ℤ reply.meta.status_code (pos 304))) [
            | inr changed ↦
                rw (made, comes, changed, fetch) (store_reply-IsServed s s' call url reply h same)
            | inl unchanged ↦ elim (Option-cases cached) [
              | inl absent ↦
                  rw (made, comes, unchanged, absent, fetch)
                    (failed-IsServed s s' url reply.meta _ h same)
              | inr (e, there) ↦
                  let good = readable e there in
                  rw (made, comes, unchanged, there, good.0, fetch)
                    (record {
                      sound = h;
                      budget = same;
                      read = λ ok. (e.body, refl, good.0, good.1);
                    })
            ]
          ]
        ]
      ]

  get_url-IsServed :
      (s : State) (call : Call) (url : String)
      → IsSound s.cache
      → IsServed s url (get_url decodes s c call url)
  get_url-IsServed s call url h =
      let none_cached =
        fetch-IsServed s call url none h (λ e there. absurd (ground (arith, there))) in
      elim (Option-cases s.cache) [
        | inl absent ↦
            let answer : get_url decodes s c call url ≡ fetch decodes s c call url none =
              ground (arith, absent) in
            subst (IsServed s url) (sym answer) none_cached
        | inr (entries, there) ↦ elim (Option-cases call.cache_get_fault) [
          | inr (e, fails) ↦
              let answer : get_url decodes s c call url ≡ (s, failed no_response (cache_get e)) =
                ground (arith, there, fails) in
              subst (IsServed s url) (sym answer) (
                failed-IsServed s s url no_response _ h
                  (record { remain = refl; known = refl; until = refl }))
          | inl works ↦ elim (Option-cases (lookup url entries)) [
            | inl miss ↦
                let answer : get_url decodes s c call url ≡ fetch decodes s c call url none =
                  ground (arith, there, works, miss) in
                subst (IsServed s url) (sym answer) none_cached
            | inr (e, hit) ↦
                let good : IsReadable (url, e) =
                  All-lookup IsReadable url e entries (subst IsSound there h) hit in
                let decoded : decodes url e.body ≡ true = good.0 in
                elim (Bool-cases (fresh_entry call.now e)) [
                  | inl fresh ↦
                      let x : State × Outcome =
                        (s, record { meta = cached_reply e; target = some e.body; error = none }) in
                      let answer : get_url decodes s c call url ≡ x =
                        ground (arith, there, works, hit, fresh, decoded) in
                      subst (IsServed s url) (sym answer) (record {
                        sound = h;
                        budget = record { remain = refl; known = refl; until = refl };
                        read = λ ok. (e.body, refl, decoded, good.1);
                      })
                  | inr stale ↦
                      let answer : get_url decodes s c call url
                          ≡ fetch decodes s c call url (some e) =
                        ground (arith, there, works, hit, stale) in
                      subst (IsServed s url) (sym answer) (
                        fetch-IsServed s call url (some e) h (λ e' there'.
                          let same : e ≡ e' = ground (arith, there') in
                          subst (λ (x : CacheEntry). IsReadable (url, x)) same good))
                ]
          ]
        ]
      ]

  -- A GET keeps the cache sound: each entry is a body that its URL's target is read from, within the limit
  -- of bytes. Without an error the target was read from such a body, cached or sent. And whatever the answer
  -- says of the error budget, the shared limiter knows of it what it knew before.
  pub get_json-IsServed :
      (s : State) (call : Call) (url : String)
      → call.url ≡ ok url
      → IsSound s.cache
      → IsServed s url (get_json decodes s c call)
  unfolding get_json
  get_json-IsServed s call url is h = elim (Bool-cases (is_blank c.user_agent)) [
    | inl blank ↦
        rw (blank, get_json)
          (failed-IsServed s s url no_response _ h
            (record { remain = refl; known = refl; until = refl }))
    | inr named ↦ rw (named, is, get_json) (get_url-IsServed s call url h)
  ]

  -- A POST that is answered tells the limiter what the answer says of the budget.
  pub post_json_observes :
      (s : State) (call : Call) (url body : String) (reply : Reply) (start : ℕ)
      → is_blank c.user_agent ≡ false
      → call.url ≡ ok url
      → byte_length body ≤ 16384
      → call.request ≡ none
      → (wait s.limiter call.now call.ends).1 ≡ ok start
      → call.answer ≡ ok reply
      → (post_json decodes s c call (some body)).0.limiter
        ≡ observe (wait s.limiter call.now call.ends).0 call.answered_at reply.meta
  unfolding post_json send
  post_json_observes s call url body reply start named is small made starts comes =
      let fits : ltb 16384 (byte_length body) ≡ false = ground (arith, small) in
      ground (arith, named, is, fits, made, starts, comes)
