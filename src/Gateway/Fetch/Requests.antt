-- ===== src/Gateway/Fetch/Requests.antt =====
-- Which requests a fetch sends.
use arbeiterfarm.Base.{
  ℕ, zero, suc, ◌+◌, ◌≤◌, ◌≡◌, refl, ap, subst, ◌⊎◌, inl, inr, Bool, true, false, ◌||◌, not, Option,
  List, [], ◌∷◌, map, arith, Option-cases, is_empty, length-append, All, All-append, inr_injective,
  guard-inr,
}
use arbeiterfarm.Base.Text.{Text, lit, text_eq}
use arbeiterfarm.Gateway.Ssrf.{IpAddr}
use arbeiterfarm.Gateway.Rules.{Url, RuleRow, Lib}
use arbeiterfarm.Gateway.Rules.Cache.{}
use arbeiterfarm.Gateway.Fetch.{
  Request, FetchError, Net, Config, redirect_of, World, next, check_scheme, check_rules, port_of,
  resolve, resolve_and_validate, pinned, redirect_url, checked_request, next_request, sent,
  follow_redirects, invalid_scheme,
}
use arbeiterfarm.Gateway.Fetch.Handler.{}
use arbeiterfarm.Gateway.Fetch.Checks.{
  verdict, IsPublic, IsChecked, IsGuarded, check_rules-inr, resolve-inr,
}

module _ (lib : Lib) (net : Net) (rules : List RuleRow) where
  open net use {scheme}

  -- A step that leaves the world guarded, and whose result, if it has one, has a property.
  abbrev pub IsStep {ℓ κ} :
      {A : Type ℓ} → ℕ → (A → Type κ) → (FetchError ⊎ A) × World lib net → Type (ℓ ⊔ κ)
  IsStep {A = A} n P m = IsGuarded lib net n rules m.1 × ((a : A) → m.0 ≡ inr a → P a)

  pub next-IsStep {ℓ κ μ ν} :
      {A : Type ℓ} {B : Type κ} (n k : ℕ) (P : A → Type μ) (Q : B → Type ν)
      (m : (FetchError ⊎ A) × World lib net)
      (f : A → World lib net → (FetchError ⊎ B) × World lib net)
      → n ≤ k
      → IsStep n P m
      → ((a : A) (v : World lib net) → IsGuarded lib net n rules v → P a → IsStep k Q (f a v))
      → IsStep k Q (next lib net m f)
  next-IsStep n k P Q (inl e, w) f l h g =
      ((h.0.0, h.0.1, omega (arith, l, h.0.2)), λ b x. absurd (ground (arith, x)))
  next-IsStep n k P Q (inr a, w) f l h g = g a w h.0 (h.1 a refl)

  abbrev pub IsWeb : Url → Type 0
  IsWeb url = (text_eq (scheme url) (lit "http") || text_eq (scheme url) (lit "https")) ≡ true

  -- What the addresses of a URL must be.
  abbrev pub IsResolved : Url → List IpAddr → Type 0
  IsResolved url ips =
      (is_empty ips ≡ false) × All (IsPublic lib net) ips × (verdict lib net url ips rules ≡ true)

  pub check_scheme-IsStep :
      (n : ℕ) (url : Url) (w : World lib net)
      → IsGuarded lib net n rules w
      → IsStep n (λ _. IsWeb url) (check_scheme lib net url w)
  unfolding check_scheme
  check_scheme-IsStep n url w g =
      (g, λ a h. web_scheme (guard-inr (not _) (invalid_scheme (scheme url)) h))
    where
      web_scheme : {b : Bool} → not b ≡ false → b ≡ true
      web_scheme {b = true} h = refl
      web_scheme {b = false} h = absurd (ground (arith, h))

  pub check_rules-IsStep :
      (n : ℕ) (url : Url) (ips : List IpAddr) (w : World lib net)
      → IsGuarded lib net n rules w
      → IsStep n (λ _. verdict lib net url ips rules ≡ true) (check_rules lib net url ips rules w)
  check_rules-IsStep n url ips w g =
      let (guarded, passed) = check_rules-inr lib net n url ips rules w g in
      (guarded, λ a h. passed h)

  pub resolve_and_validate-IsStep :
      (n round : ℕ) (url : Url) (w : World lib net)
      → IsGuarded lib net n rules w
      → IsStep n (IsResolved url) (resolve_and_validate lib net round url rules w)
  unfolding resolve_and_validate
  resolve_and_validate-IsStep n round url w g =
      next-IsStep n n (λ ips. (is_empty ips ≡ false) × All (IsPublic lib net) ips) (IsResolved url)
        (resolve lib net round url, w) _ (omega arith)
        (g, λ ips h. resolve-inr lib net round url ips h)
        (λ ips v gv r.
          next-IsStep n n (λ _. verdict lib net url ips rules ≡ true) (IsResolved url)
            (check_rules lib net url ips rules v) _ (omega arith)
            (check_rules-IsStep n url ips v gv)
            (λ a u gu p.
              (gu, λ found h. subst (IsResolved url) (inr_injective ips found h) (r.0, r.1, p))))

  addresses :
      (port : ℕ) (ips : List IpAddr)
      → map (λ (a : IpAddr × ℕ). a.0) (map (λ ip. (ip, port)) ips) ≡ ips
  addresses port [] = refl
  addresses port (ip ∷ ips) = ap (λ r. ip ∷ r) (addresses port ips)

  pub pinned-IsChecked :
      (url : Url) (ips : List IpAddr)
      → IsWeb url
      → verdict lib net url [] rules ≡ true
      → IsResolved url ips
      → IsChecked lib net rules (pinned lib net url ips)
  unfolding pinned
  pinned-IsChecked url ips s v r = (s, v, ips, addresses (port_of lib net url) ips, r.0, r.2, r.1)

  pinned-IsStep :
      (n : ℕ) (url : Url)
      → IsWeb url
      → verdict lib net url [] rules ≡ true
      → (ips : List IpAddr) (v : World lib net) → IsGuarded lib net n rules v
      → IsResolved url ips
      → IsStep n (IsChecked lib net rules) (inr (pinned lib net url ips), v)
  pinned-IsStep n url s p ips v g r = (
    g,
    λ request h.
        subst (IsChecked lib net rules) (inr_injective (pinned lib net url ips) request h)
          (pinned-IsChecked url ips s p r),
  )

  checked_request-IsStep :
      (n round : ℕ) (url : Url) (w : World lib net)
      → IsGuarded lib net n rules w
      → IsStep n (IsChecked lib net rules) (checked_request lib net round url rules w)
  unfolding checked_request
  checked_request-IsStep n round url w g =
      let pin : List IpAddr → World lib net → (FetchError ⊎ Request) × World lib net =
        λ ips v. (inr (pinned lib net url ips), v) in
      let go : Unit {0} → World lib net → (FetchError ⊎ Request) × World lib net =
        λ _ v. next lib net (resolve_and_validate lib net round url rules v) pin in
      next-IsStep n n (λ _. IsWeb url) (IsChecked lib net rules) (check_scheme lib net url w)
        (λ _ v. next lib net (check_rules lib net url [] rules v) go) (omega arith)
        (check_scheme-IsStep n url w g)
        (λ _ v gv s.
          next-IsStep n n (λ _. verdict lib net url [] rules ≡ true) (IsChecked lib net rules)
            (check_rules lib net url [] rules v) go (omega arith) (check_rules-IsStep n url [] v gv)
            (λ _ u gu p.
              next-IsStep n n (IsResolved url) (IsChecked lib net rules)
                (resolve_and_validate lib net round url rules u) pin (omega arith)
                (resolve_and_validate-IsStep n round url u gu) (pinned-IsStep n url s p)))

  next_request-IsStep :
      (n round : ℕ) (url : Url) (location : Option Text) (w : World lib net)
      → IsGuarded lib net n rules w
      → IsStep n (IsChecked lib net rules) (next_request lib net round url location rules w)
  unfolding next_request
  next_request-IsStep n round url location w g =
      next-IsStep n n (λ _. Unit {0}) (IsChecked lib net rules)
        (redirect_url lib net url location, w) _ (omega arith) (g, λ a h. tt)
        (λ target v gv _. checked_request-IsStep n round target v gv)

  sent-IsGuarded :
      (n : ℕ) (request : Request) (w : World lib net)
      → IsGuarded lib net n rules w
      → IsChecked lib net rules request
      → IsGuarded lib net (n + 1) rules (sent lib net request w)
  sent-IsGuarded n request w g c = (
    All-append (IsChecked lib net rules) w.requests (request ∷ []) g.0 (c, tt),
    g.1,
    omega (arith, g.2, length-append w.requests (request ∷ [])),
  )

  -- A step that ends a fetch.
  pub IsStep-end {ℓ} :
      {A : Type ℓ} (n k : ℕ) (o : FetchError ⊎ A) (w : World lib net)
      → n ≤ k
      → IsGuarded lib net n rules w
      → IsStep k (λ _. Unit {0}) (o, w)
  IsStep-end n k o w l g = ((g.0, g.1, omega (arith, l, g.2)), λ a h. tt)

  pub follow_redirects-IsStep :
      (left n round : ℕ) (config : Config) (request : Request) (w : World lib net)
      → IsGuarded lib net n rules w
      → IsChecked lib net rules request
      → IsStep
          (n + 1 + left)
          (λ _. Unit {0})
          (follow_redirects lib net left round config request rules w)
  unfolding follow_redirects
  follow_redirects-IsStep zero n round config request w g c =
      elim (Option-cases (net.send round request)) [
        | inl e ↦
            rw (e, follow_redirects)
              (IsStep-end (n + 1) (n + 1 + 0) _ (sent lib net request w) (omega arith)
                (sent-IsGuarded n request w g c))
        | inr (resp, e) ↦
            rw (e, follow_redirects)
              (IsStep-end (n + 1) (n + 1 + 0) _ (sent lib net request w) (omega arith)
                (sent-IsGuarded n request w g c))
      ]
  follow_redirects-IsStep (suc left) n round config request w g c =
      elim (Option-cases (net.send round request)) [
        | inl e ↦
            rw (e, follow_redirects)
              (IsStep-end (n + 1) (n + 1 + suc left) _ (sent lib net request w) (omega arith)
                (sent-IsGuarded n request w g c))
        | inr (resp, e) ↦ elim (Option-cases (redirect_of resp)) [
          | inl f ↦
              rw (e, f, follow_redirects)
                (IsStep-end (n + 1) (n + 1 + suc left) _ (sent lib net request w) (omega arith)
                  (sent-IsGuarded n request w g c))
          | inr (location, f) ↦
              rw (e, f, follow_redirects)
                (next-IsStep (n + 1) (n + 1 + suc left) (IsChecked lib net rules) (λ _. Unit {0})
                  (next_request lib net (suc round) request.url location rules
                    (sent lib net request w))
                  (λ r v. follow_redirects lib net left (suc round) config r rules v) (omega arith)
                  (next_request-IsStep (n + 1) (suc round) request.url location
                    (sent lib net request w) (sent-IsGuarded n request w g c))
                  (λ r v gv cr.
                    subst
                      (λ k.
                        IsStep k (λ _. Unit {0})
                          (follow_redirects lib net left (suc round) config r rules v))
                      (omega arith)
                      (follow_redirects-IsStep left (n + 1) (suc round) config r v gv cr)))
        ]
      ]
