-- ===== src/Clientset/Laws.antt =====
-- What a clientset is made of, and where it is made.
use kubestellar_workload_sta.Base.{
  ◌≡◌, refl, Bool, true, false, Option, none, some, ◌↔◌, ◌⊎◌, inl, inr, arith, nat_eq, str_eq,
}
use kubestellar_workload_sta.Cluster.{ok}
use kubestellar_workload_sta.Clientset.{
  Clientset, with_rate_limiter, new_for_config_and_client, new_for_config, new, community,
}
use kubestellar_workload_sta.Clientset.Rest.{
  RestTypes, Config, RestLibrary, >>=-eq_ok, is_positive, with_user_agent,
}
use kubestellar_workload_sta.Clientset.Community
use kubestellar_workload_sta.Clientset.Community.{set_config_defaults, staged_binding_policies}

module _ {T : RestTypes} (L : RestLibrary T) where
  -- The configuration that both clients get: with the rate limiter that it has, without one where the rate
  -- is not positive, or with a new token bucket, which needs a positive burst.
  abbrev IsLimited : Config T → Config T → Type 0
  IsLimited c config =
      ((r : T.RateLimiter) × (c.rate_limiter ≡ some r) × (config ≡ c))
      ⊎ (((c.rate_limiter ≡ none) × (L.qps_is_positive c.qps ≡ false) × (config ≡ c))
          ⊎ ((c.rate_limiter ≡ none)
              × (L.qps_is_positive c.qps ≡ true)
              × (is_positive c.burst ≡ true)
              × (config ≡ record c {
                rate_limiter = some (L.new_token_bucket_rate_limiter c.qps c.burst);
              })))

  limiter_cases :
      (c : Config T)
      → ((r : T.RateLimiter) × (c.rate_limiter ≡ some r))
        ⊎ (((c.rate_limiter ≡ none) × (L.qps_is_positive c.qps ≡ false))
            ⊎ ((c.rate_limiter ≡ none) × (L.qps_is_positive c.qps ≡ true)))
  limiter_cases c = go c.rate_limiter (L.qps_is_positive c.qps) refl refl
    where
      go :
          (o : Option T.RateLimiter) (q : Bool)
          → c.rate_limiter ≡ o
          → L.qps_is_positive c.qps ≡ q
          → ((r : T.RateLimiter) × (c.rate_limiter ≡ some r))
            ⊎ (((c.rate_limiter ≡ none) × (L.qps_is_positive c.qps ≡ false))
                ⊎ ((c.rate_limiter ≡ none) × (L.qps_is_positive c.qps ≡ true)))
      go (some r) q e h = inl (r, e)
      go none false e h = inr (inl (e, h))
      go none true e h = inr (inr (e, h))

  with_rate_limiter-IsLimited :
      (c config : Config T) → with_rate_limiter L c ≡ ok config → IsLimited c config
  unfolding with_rate_limiter
  with_rate_limiter-IsLimited c config h = elim (limiter_cases c) [
    | inl (r, e) ↦ inl (r, e, ground arith)
    | inr (inl (e, q)) ↦ inr (inl (e, q, ground arith))
    | inr (inr (e, q)) ↦ inr (inr (e, q, ground arith, ground arith))
  ]

  with_rate_limiter_of_IsLimited :
      (c config : Config T) → IsLimited c config → with_rate_limiter L c ≡ ok config
  unfolding with_rate_limiter
  with_rate_limiter_of_IsLimited c config (inl (r, e, h)) = ground arith
  with_rate_limiter_of_IsLimited c config (inr (inl (e, q, h))) = ground arith
  with_rate_limiter_of_IsLimited c config (inr (inr (e, q, b, h))) = ground arith

  -- Both clients are made from one configuration and one HTTP client, the group's with the defaults of its
  -- group on top.
  abbrev pub IsMade : Config T → Clientset T → Type 0
  IsMade c cs =
      (config : Config T) × (http_client : T.HttpClient) × IsLimited (with_user_agent L c) config
      × (L.http_client_for (with_user_agent L c) ≡ ok http_client)
      × (L.rest_client_for_config_and_client (set_config_defaults L config) http_client
          ≡ ok cs.community_v1alpha1.rest_client)
      × (L.new_discovery_client_for_config_and_client config http_client ≡ ok cs.discovery_client)

  -- NewForConfig returns a clientset exactly where its HTTP client, its rate limiter and its two clients can be
  -- made: the two share the HTTP client and a configuration with one rate limiter, which is the one given or a
  -- token bucket of a positive rate and a positive burst, or there is none and the rate is not positive.
  pub new_for_config-IsMade :
      (c : Config T) (cs : Clientset T) → (new_for_config L c ≡ ok cs) ↔ IsMade c cs
  unfolding new_for_config new_for_config_and_client Community.new_for_config_and_client
  new_for_config-IsMade c cs = (
    made,
    λ (config, h, l, e, f, g).
        ground (arith, with_rate_limiter_of_IsLimited (with_user_agent L c) config l),
  )
    where
      made : new_for_config L c ≡ ok cs → IsMade c cs
      made h =
          let (http_client, e1, h1) = >>=-eq_ok (L.http_client_for (with_user_agent L c)) h in
          let (config, e2, h2) = >>=-eq_ok (with_rate_limiter L (with_user_agent L c)) h1 in
          let (community, e3, h3) =
            >>=-eq_ok (Community.new_for_config_and_client L config http_client) h2 in
          let (client, e4, h4) =
            >>=-eq_ok
              (L.rest_client_for_config_and_client (set_config_defaults L config) http_client) e3 in
          let (discovery, e5, h5) =
            >>=-eq_ok (L.new_discovery_client_for_config_and_client config http_client) h3 in
          (
            config,
            http_client,
            with_rate_limiter-IsLimited (with_user_agent L c) config e2,
            e1,
            ground arith,
            ground arith,
          )

  -- A clientset made from a REST client sends the requests for policies through it.
  staged_binding_policies-new :
      (client : T.RestClient)
      → (staged_binding_policies L (some (community L (new L client)))).client ≡ some client
  unfolding new
  staged_binding_policies-new client = refl
