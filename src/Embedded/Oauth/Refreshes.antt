-- ===== src/Embedded/Oauth/Refreshes.antt =====
-- RefreshToken over a history of calls.
use durable_integrations.Prelude.{
  ℕ, Bool, false, ◌||◌, Option, none, some, List, [], ◌∷◌, ◌≡◌, refl, sym, inl, inr, subst,
  Bool-cases, Option-cases, arith, any,
}
use durable_integrations.Prelude.Bytes.{Text, eqb, eqb_iff}
use durable_integrations.Prelude.Result.{Result, ok, err, bind_ok}
use durable_integrations.Embedded.Oauth.{
  OauthConfig, OauthTokens, OauthManager, Addresses, Reply, no_reply, reply, Request, OauthError,
  no_connector_type, refresh_token, renew, stored, do_refresh, do_token_request, read_tokens,
  keep_refresh_token, store_tokens, handle_callback, start_oauth_flow, begin_flow,
  register_connector_config, cleanup_expired_flows, Call, register, store, start, callback, refresh,
  cleanup, run, after_calls,
}

-- The call stores tokens for the integration.
abbrev pub is_store : Text → Call → Bool
is_store id (store other new) = eqb other id
is_store id call = false

-- Tokens with a refresh token and no connector type.
abbrev IsStranded : Option OauthTokens → Type 0
IsStranded none = ⊥
IsStranded (some t) = (eqb t.refresh_token [] ≡ false) × (t.connector_type ≡ [])

do_token_request-connector_type :
    (now : ℕ) (r : Reply) (fresh : OauthTokens)
    → do_token_request now r ≡ ok fresh
    → fresh.connector_type ≡ []
unfolding do_token_request read_tokens
do_token_request-connector_type now no_reply fresh h = cc
do_token_request-connector_type now (reply status none) fresh h = ground arith
do_token_request-connector_type now (reply status (some tr)) fresh h = ground arith

keep_refresh_token-IsStranded :
    (old : Text) (fresh : OauthTokens)
    → eqb old [] ≡ false
    → fresh.connector_type ≡ []
    → IsStranded (some (keep_refresh_token old fresh))
keep_refresh_token-IsStranded old fresh a b = (ground arith, ground arith)

ok_value : (a b : OauthTokens) → ◌≡◌ {A = Result OauthError OauthTokens} (ok a) (ok b) → a ≡ b
ok_value a b e = cc

module _ (now : ℕ) (ask : Request → Reply) where
  -- What a refresh that succeeds stores.
  renew-IsStranded :
      (om : OauthManager) (existing fresh : OauthTokens)
      → renew now ask om existing ≡ ok fresh
      → IsStranded (some fresh)
  unfolding renew do_refresh
  renew-IsStranded om existing fresh h =
      elim (Bool-cases (eqb existing.refresh_token [] || eqb existing.connector_type [])) [
        | inl e ↦ ground arith
        | inr e ↦ elim (Option-cases (om.configs existing.connector_type)) [
          | inl g ↦ ground arith
          | inr (config, g) ↦
              let a : eqb existing.refresh_token [] ≡ false = ground arith in
              let b : eqb existing.connector_type [] ≡ false = ground arith in
              let (raw, c, d) =
                bind_ok (do_refresh now ask config existing.refresh_token) (rw (a, b, g) at h) in
              subst (λ t. IsStranded (some t)) (ok_value _ fresh d)
                (keep_refresh_token-IsStranded existing.refresh_token raw a
                  (do_token_request-connector_type now _ raw c))
        ]
      ]

  -- Such tokens are not refreshed.
  renew-stranded :
      (om : OauthManager) (existing : OauthTokens)
      → IsStranded (some existing)
      → renew now ask om existing ≡ err no_connector_type
  unfolding renew
  renew-stranded om existing (a, b) = rw (a, b) refl

  stored-IsStranded :
      (id other : Text) (om : OauthManager) (r : Result OauthError OauthTokens)
      → ((fresh : OauthTokens) → r ≡ ok fresh → IsStranded (some fresh))
      → IsStranded (om.tokens id)
      → IsStranded ((stored other r om).tokens id)
  unfolding store_tokens
  stored-IsStranded id other om (err reason) f h = h
  stored-IsStranded id other om (ok fresh) f h = elim (Bool-cases (eqb other id)) [
    | inl e ↦ rw e (f fresh refl)
    | inr e ↦ rw e h
  ]

  refresh_token-IsStranded :
      (id other : Text) (om : OauthManager)
      → IsStranded (om.tokens id)
      → IsStranded ((refresh_token now ask other om).1.tokens id)
  unfolding refresh_token
  refresh_token-IsStranded id other om h = elim (Option-cases (om.tokens other)) [
    | inl e ↦ rw (e, refresh_token) h
    | inr (existing, e) ↦
        rw (e, refresh_token)
          (stored-IsStranded id other om (renew now ask om existing)
            (λ fresh p. renew-IsStranded om existing fresh p) h)
  ]

start_oauth_flow-tokens :
    (addresses : Addresses) (now : ℕ) (state : Option Text) (kind : Text) (config : OauthConfig)
    (om : OauthManager)
    → (start_oauth_flow addresses now state kind config om).1.tokens ≡ om.tokens
unfolding start_oauth_flow begin_flow
start_oauth_flow-tokens addresses now none kind config om = ground arith
start_oauth_flow-tokens addresses now (some state) kind config om = ground arith

handle_callback-tokens :
    (now : ℕ) (ask : Request → Reply) (state code : Text) (om : OauthManager)
    → (handle_callback now ask state code om).1.tokens ≡ om.tokens
unfolding handle_callback
handle_callback-tokens now ask state code om = elim (Option-cases (om.pending_flows state)) [
  | inl e ↦ ground arith
  | inr (flow, e) ↦ ground arith
]

run-IsStranded :
    (id : Text) (call : Call) (om : OauthManager)
    → is_store id call ≡ false
    → IsStranded (om.tokens id)
    → IsStranded ((run call om).tokens id)
unfolding run register_connector_config store_tokens cleanup_expired_flows
run-IsStranded id (register kind config) om u h = h
run-IsStranded id (store other new) om u h = rw u h
run-IsStranded id (start addresses now state kind config) om u h =
    rw (start_oauth_flow-tokens addresses now state kind config om) h
run-IsStranded id (callback now ask state code) om u h =
    rw (handle_callback-tokens now ask state code om) h
run-IsStranded id (refresh now ask other) om u h = refresh_token-IsStranded now ask id other om h
run-IsStranded id (cleanup now) om u h = h

after_calls-IsStranded :
    (id : Text) (calls : List Call) (om : OauthManager)
    → any (is_store id) calls ≡ false
    → IsStranded (om.tokens id)
    → IsStranded ((after_calls calls om).tokens id)
unfolding after_calls
after_calls-IsStranded id [] om u h = h
after_calls-IsStranded id (c ∷ calls) om u h =
    run-IsStranded id c (after_calls calls om) (ground arith)
      (after_calls-IsStranded id calls om (ground arith) h)

stranded-refresh_token :
    (now : ℕ) (ask : Request → Reply) (id : Text) (om : OauthManager)
    → IsStranded (om.tokens id)
    → (refresh_token now ask id om).0 ≡ err no_connector_type
unfolding refresh_token
stranded-refresh_token now ask id om h = elim (Option-cases (om.tokens id)) [
  | inl e ↦ absurd (rw e at h)
  | inr (existing, e) ↦ rw (e, refresh_token) (renew-stranded now ask om existing (rw e at h))
]

refresh_token-tokens :
    (now : ℕ) (ask : Request → Reply) (id : Text) (om : OauthManager) (fresh : OauthTokens)
    → (refresh_token now ask id om).0 ≡ ok fresh
    → ((refresh_token now ask id om).1.tokens id ≡ some fresh) × IsStranded (some fresh)
unfolding refresh_token store_tokens
refresh_token-tokens now ask id om fresh h = elim (Option-cases (om.tokens id)) [
  | inl e ↦ ground arith
  | inr (existing, e) ↦
      let done : renew now ask om existing ≡ ok fresh = ground arith in
      (
        rw (e, refresh_token, done) (ground (arith, eqb_iff id id)),
        renew-IsStranded now ask om existing fresh done,
      )
]

-- A refresh that succeeds stores the tokens that it returns, among them a refresh token. But after any
-- further calls that do not store other tokens for the integration, it is not refreshed again: the
-- next refresh fails, because the stored tokens name no connector type.
pub refresh_token-strands :
    (now : ℕ) (ask : Request → Reply) (id : Text) (om : OauthManager) (fresh : OauthTokens)
    → (refresh_token now ask id om).0 ≡ ok fresh
    → (calls : List Call) (now' : ℕ) (ask' : Request → Reply) → any (is_store id) calls ≡ false
    → ((refresh_token now ask id om).1.tokens id ≡ some fresh)
      × (eqb fresh.refresh_token [] ≡ false)
      × ((refresh_token now' ask' id (after_calls calls (refresh_token now ask id om).1)).0
          ≡ err no_connector_type)
refresh_token-strands now ask id om fresh h calls now' ask' u =
    let (e, stranded) = refresh_token-tokens now ask id om fresh h in
    let om' = (refresh_token now ask id om).1 in
    let there : IsStranded (om'.tokens id) = subst IsStranded (sym e) stranded in
    (
      e,
      stranded.0,
      stranded-refresh_token now' ask' id (after_calls calls om')
          (after_calls-IsStranded id calls om' u there),
    )
