-- ===== src/Gateway/Fetch/Guarded.antt =====
-- What a whole call of `handle_fetch` sends.
use arbeiterfarm.Base.{
  ℕ, ◌+◌, ◌≤◌, ◌≡◌, sym, subst, ◌∙◌, ◌⊎◌, inl, inr, true, not, none, some, List, [], arith,
  Option-cases, is_some, some_injective, length, All, ok_or, ok_or-inr, guard,
}
use arbeiterfarm.Gateway.Ssrf.{IpAddr}
use arbeiterfarm.Gateway.Rules.{Url, RuleRow, Lib}
use arbeiterfarm.Gateway.Rules.Cache.{IsSound}
use arbeiterfarm.Gateway.Fetch.{
  Response, FetchError, Net, Config, read_body, World, next, check_scheme, check_rules,
  resolve_and_validate, pinned, follow_redirects, invalid_url, rate_limited, internal_error,
}
use arbeiterfarm.Gateway.Fetch.Handler.{
  Reply, Call, served, from_cache, store, finish, fetch, parse_request, fetch_allowed, handle_fetch,
}
use arbeiterfarm.Gateway.Fetch.Checks.{verdict, IsChecked, IsGuarded}
use arbeiterfarm.Gateway.Fetch.Requests.{
  IsStep, next-IsStep, IsWeb, IsResolved, check_scheme-IsStep, check_rules-IsStep,
  resolve_and_validate-IsStep, pinned-IsChecked, IsStep-end, follow_redirects-IsStep,
}

module _ (lib : Lib) (net : Net) (rules : List RuleRow) where
  finish-IsStep :
      (n : ℕ) (config : Config) (now : ℕ) (asked final : Url) (resp : Response) (w : World lib net)
      → IsGuarded lib net n rules w
      → IsStep lib net rules n (λ _. Unit {0}) (finish lib net config now asked final resp w)
  unfolding finish store
  finish-IsStep n config now asked final resp w g =
      next-IsStep lib net rules n n (λ _. Unit {0}) (λ _. Unit {0})
        (read_body config.max_response_bytes [] resp.chunks, w) _ (omega arith) (g, λ a h. tt)
        (λ a v gv _. (gv, λ b h. tt))

  fetch-IsStep :
      (config : Config) (call : Call) (url : Url) (w : World lib net)
      → IsWeb lib net rules url
      → verdict lib net url [] rules ≡ true
      → IsGuarded lib net 0 rules w
      → IsStep lib net rules
          (config.max_redirects + 1)
          (λ _. Unit {0})
          (fetch lib net config call url rules w)
  unfolding fetch
  fetch-IsStep config call url w s p g =
      let last : Url × Response → World lib net → (FetchError ⊎ Reply) × World lib net =
        λ found w. finish lib net config call.now url found.0 found.1 w in
      let walk : List IpAddr → World lib net → (FetchError ⊎ Reply) × World lib net = λ ips w.
        next lib net
          (follow_redirects lib net config.max_redirects 0 config (pinned lib net url ips) rules w)
          last in
      next-IsStep lib net rules 0 (config.max_redirects + 1) (IsResolved lib net rules url)
        (λ _. Unit {0}) (resolve_and_validate lib net 0 url rules w)
        (λ ips w. next lib net (guard (not call.global_rate) rate_limited, w) (λ _ w. walk ips w))
        (omega arith) (resolve_and_validate-IsStep lib net rules 0 0 url w g)
        (λ ips v gv r.
          next-IsStep lib net rules 0 (config.max_redirects + 1) (λ _. Unit {0}) (λ _. Unit {0})
            (guard (not call.global_rate) rate_limited, v) (λ _ w. walk ips w) (omega arith)
            (gv, λ a h. tt)
            (λ _ u gu _.
              next-IsStep lib net rules (0 + 1 + config.max_redirects) (config.max_redirects + 1)
                (λ _. Unit {0}) (λ _. Unit {0})
                (follow_redirects lib net config.max_redirects 0 config (pinned lib net url ips)
                  rules u)
                last (omega arith)
                (follow_redirects-IsStep lib net rules config.max_redirects 0 0 config
                  (pinned lib net url ips) u gu (pinned-IsChecked lib net rules url ips s p r))
                (λ found x gx _.
                  finish-IsStep (config.max_redirects + 1) config call.now url found.0 found.1 x
                    (gx.0, gx.1, omega (arith, gx.2)))))

  fetch_allowed-IsStep :
      (config : Config) (call : Call) (url : Url) (w : World lib net)
      → IsWeb lib net rules url
      → IsGuarded lib net 0 rules w
      → IsStep lib net rules
          (config.max_redirects + 1)
          (λ _. Unit {0})
          (fetch_allowed lib net config call url rules w)
  unfolding fetch_allowed
  fetch_allowed-IsStep config call url w s g =
      next-IsStep lib net rules 0 (config.max_redirects + 1)
        (λ _. verdict lib net url [] rules ≡ true) (λ _. Unit {0})
        (check_rules lib net url [] rules w)
        (λ _ w. elim (served lib net call.now url w) [
          | some row ↦ (inr (from_cache lib net row), w)
          | none ↦ fetch lib net config call url rules w
        ])
        (omega arith) (check_rules-IsStep lib net rules 0 url [] w g)
        (λ _ v gv p. elim (Option-cases (served lib net call.now url v)) [
          | inl e ↦ rw (e) (fetch-IsStep config call url v s p gv)
          | inr (row, e) ↦ rw (e) (
              IsStep-end lib net rules 0 (config.max_redirects + 1) (inr (from_cache lib net row)) v
                (omega arith) gv)
        ])

  handle_fetch-IsStep :
      (config : Config) (call : Call) (w : World lib net)
      → call.rules ≡ some rules
      → IsGuarded lib net 0 rules w
      → IsStep lib net rules
          (config.max_redirects + 1)
          (λ _. Unit {0})
          (handle_fetch lib net config call w)
  unfolding handle_fetch
  handle_fetch-IsStep config call w k g =
      let m = config.max_redirects + 1 in
      next-IsStep lib net rules 0 m (λ _. Unit {0}) (λ _. Unit {0})
        (parse_request lib net call.url, w) _ (omega arith) (g, λ a h. tt)
        (λ url w g _.
          next-IsStep lib net rules 0 m (λ _. IsWeb lib net rules url) (λ _. Unit {0})
            (check_scheme lib net url w) _ (omega arith)
            (check_scheme-IsStep lib net rules 0 url w g)
            (λ _ w g s.
              next-IsStep lib net rules 0 m (λ _. Unit {0}) (λ _. Unit {0})
                (guard (not (is_some url.host_str)) invalid_url, w) _ (omega arith) (g, λ a h. tt)
                (λ _ w g _.
                  next-IsStep lib net rules 0 m (λ _. Unit {0}) (λ _. Unit {0})
                    (guard (not call.user_rate) rate_limited, w) _ (omega arith) (g, λ a h. tt)
                    (λ _ w g _.
                      next-IsStep lib net rules 0 m (λ given. rules ≡ given) (λ _. Unit {0})
                        (ok_or internal_error call.rules, w)
                        (λ given w. fetch_allowed lib net config call url given w) (omega arith)
                        (
                          g,
                          λ given h.
                              some_injective rules given
                                (sym k ∙ ok_or-inr internal_error call.rules given h),
                        )
                        (λ given w g same.
                          subst
                            (λ r.
                              IsStep lib net rules m (λ _. Unit {0})
                                (fetch_allowed lib net config call url r w))
                            same (fetch_allowed-IsStep config call url w s g))))))

module _ (lib : Lib) (net : Net) where
  -- Where a call is given the rules of its project, and the cache of regular expressions is sound,
  -- every request that the call sends, the first one and those along redirects, goes over HTTP or
  -- HTTPS to a URL that the rules let through, on a client pinned to addresses that the rules let
  -- through with it, none of them private or in a blocked country, whatever the servers and the
  -- resolver answer from one request to the next. The call sends at most one request more than the
  -- redirects it may follow.
  pub handle_fetch-IsGuarded :
      (config : Config) (call : Call) (rules : List RuleRow) (w : World lib net)
      → call.rules ≡ some rules
      → w.requests ≡ []
      → IsSound lib w.regexes
      → IsGuarded lib net (config.max_redirects + 1) rules (handle_fetch lib net config call w).1
  handle_fetch-IsGuarded config call rules w k e s =
      (handle_fetch-IsStep lib net rules config call w k (
        subst (All (IsChecked lib net rules)) (sym e) tt,
        s,
        subst (λ l. length l ≤ 0) (sym e) (omega arith),
      )).0
