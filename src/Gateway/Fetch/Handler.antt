-- ===== src/Gateway/Fetch/Handler.antt =====
-- The whole of `handle_fetch`. A cache of pages that cannot be read is as one without the page.
use arbeiterfarm.Base.{
  ℕ, ◌+◌, ◌⊎◌, inl, inr, Bool, true, false, not, Option, none, some, List, [], ◌∷◌, ◌++◌,
  if◌then◌else◌, ◌>>=◌, is_some, is_empty, ok_or, guard,
}
use arbeiterfarm.Base.Text.{Text, lit, byte_len, contains_text}
use arbeiterfarm.Gateway.Ssrf.{}
use arbeiterfarm.Gateway.Rules.{Url, RuleRow, Lib}
use arbeiterfarm.Gateway.Fetch.{
  Response, FetchError, CacheRow, Net, Config, is_success, read_body, title_of, cache_get,
  cache_put, World, next, check_scheme, check_rules, resolve_and_validate, pinned, follow_redirects,
  invalid_input, invalid_url, rate_limited, internal_error,
}

-- What is answered where nothing fails.
pub record Reply : Type 0 where
  pub url : Text
  pub status : ℕ
  pub content_type : Option Text
  pub body : Option Text
  pub body_length : ℕ
  pub truncated : Bool
  pub cached : Bool

-- A call: its URL, what the limiters say, and the rules that the database gives for its project.
pub record Call : Type 0 where
  pub url : Option Text
  pub user_rate : Bool
  pub rules : Option (List RuleRow)
  pub global_rate : Bool
  pub now : ℕ

abbrev pub is_html : Option Text → Bool
is_html none = false
is_html (some content_type) = contains_text content_type (lit "text/html")

module _ (lib : Lib) (net : Net) where
  open net use {parse, digest, html2text, from_utf8, from_utf8_lossy}

  -- The page of a URL, where it is kept and was no error.
  unfoldable pub served : ℕ → Url → World lib net → Option CacheRow
  served now url w = do
    row ← cache_get now (digest url.as_str) w.pages
    if is_success row.status_code then some row else none

  unfoldable pub from_cache : CacheRow → Reply
  from_cache row = record {
    url = row.url;
    status = row.status_code;
    content_type = row.content_type;
    body = row.body;
    body_length = elim row.body [ none ↦ 0 | some body ↦ byte_len body ];
    truncated = false;
    cached = true;
  }

  -- The text of a body; a page in HTML has its title in front.
  unfoldable pub body_text : Option Text → List ℕ → Text
  body_text content_type bytes =
      let title = from_utf8 bytes >>= title_of in
      if is_html content_type
      then (elim title [
        | none ↦ html2text bytes
        | some t ↦ lit "Title: " ++ (t ++ (b'\n' ∷ b'\n' ∷ html2text bytes))
      ])
      else from_utf8_lossy bytes

  -- Only a response that is no error is kept, under the URL that was asked for.
  unfoldable pub store : Config → ℕ → Url → Url → Response → Text → World lib net → World lib net
  store config now asked final resp body w = record w {
    pages =
        if is_success resp.status
        then cache_put
            (record {
              url_hash = digest asked.as_str;
              url = final.as_str;
              status_code = resp.status;
              content_type = resp.content_type;
              body = some body;
              expires_at = now + config.cache_ttl;
            })
            w.pages
        else w.pages;
  }

  unfoldable pub finish :
      Config → ℕ → Url → Url → Response → World lib net → (FetchError ⊎ Reply) × World lib net
  finish config now asked final resp w =
      next lib net (read_body config.max_response_bytes [] resp.chunks, w)
        (λ read w.
          let body = body_text resp.content_type read.0 in
          (
            inr (record {
              url = final.as_str;
              status = resp.status;
              content_type = resp.content_type;
              body = some body;
              body_length = byte_len body;
              truncated = read.1;
              cached = false;
            }),
            store config now asked final resp body w,
          ))

  -- From the resolution of the host on, where no page is served.
  unfoldable pub fetch :
      Config → Call → Url → List RuleRow → World lib net → (FetchError ⊎ Reply) × World lib net
  fetch config call url rules w =
      next lib net (resolve_and_validate lib net 0 url rules w) (λ ips w.
        next lib net (guard (not call.global_rate) rate_limited, w)
          (λ _ w.
            next lib net
              (follow_redirects lib net config.max_redirects 0 config (pinned lib net url ips) rules
                w)
              (λ found w. finish config call.now url found.0 found.1 w)))

  unfoldable pub parse_request : Option Text → FetchError ⊎ Url
  parse_request none = inl invalid_input
  parse_request (some s) = if is_empty s then inl invalid_input else ok_or invalid_url (parse s)

  -- From the rules on.
  unfoldable pub fetch_allowed :
      Config → Call → Url → List RuleRow → World lib net → (FetchError ⊎ Reply) × World lib net
  fetch_allowed config call url rules w = next lib net (check_rules lib net url [] rules w) (λ _ w.
      elim (served call.now url w) [
        | some row ↦ (inr (from_cache row), w)
        | none ↦ fetch config call url rules w
      ])

  unfoldable pub handle_fetch : Config → Call → World lib net → (FetchError ⊎ Reply) × World lib net
  handle_fetch config call w =
      next lib net (parse_request call.url, w)
        (λ url w. next lib net (check_scheme lib net url w) (λ _ w.
          next lib net (guard (not (is_some url.host_str)) invalid_url, w)
            (λ _ w.
              next lib net (guard (not call.user_rate) rate_limited, w)
                (λ _ w.
                  next lib net (ok_or internal_error call.rules, w)
                    (λ rules w. fetch_allowed config call url rules w)))))
