-- ===== src/Embedded/Oauth/Flows.antt =====
-- Which callbacks are honoured: the states of the flows that are pending, over a history of calls.
use durable_integrations.Prelude.{
  ℕ, ◌+◌, ◌≤◌, Bool, true, false, ◌&&◌, not, Option, none, some, List, [], ◌∷◌, ◌++◌, ◌≡◌, refl, ap,
  sym, ◌∙◌, inl, inr, subst, Bool-cases, Option-cases, arith, any, ltb,
}
use durable_integrations.Prelude.Bytes.{Text, eqb, eqb_iff}
use durable_integrations.Prelude.Result.{Result, ok, err, bind_ok}
use durable_integrations.Embedded.Oauth.{
  OauthConfig, OauthTokens, PendingFlow, OauthManager, Reply, Request, OauthError, flow_window,
  new_oauth_manager, Addresses, start_oauth_flow, begin_flow, handle_callback, finish_flow,
  refresh_token, register_connector_config, store_tokens, cleanup_expired_flows, Call, register,
  store, start, callback, refresh, cleanup, run, after_calls, renew, stored, exchange_code,
}

-- A configuration with which a flow can start.
abbrev pub is_complete : OauthConfig → Bool
is_complete config =
    not (eqb config.auth_url [])
    && not (eqb config.client_id [])
    && not (eqb config.redirect_uri [])

abbrev pub is_state : Text → Option Text → Bool
is_state s none = false
is_state s (some state) = eqb state s

-- The call starts a flow under the state, or hands the state in, which is not empty, with a code.
abbrev pub uses_state : Text → Call → Bool
uses_state s (start addresses now state kind config) = is_complete config && is_state s state
uses_state s (callback now ask state code) = eqb state s && not (eqb state []) && not (eqb code [])
uses_state s call = false

-- The flow that a call starts.
abbrev pub flow_at : ℕ → Text → Text → OauthConfig → PendingFlow
flow_at now s kind config = record {
  state = s;
  connector_type = kind;
  config = config;
  created_at = now;
}

-- The calls, the latest first, hold a start of the flow after which none used the state.
abbrev pub IsStarted : List Call → Text → PendingFlow → Type 0
IsStarted calls s flow =
    (later : List Call) × (addresses : Addresses) × (earlier : List Call) × (calls
      ≡ later ++ start addresses flow.created_at (some s) flow.connector_type flow.config ∷ earlier)
    × (any (uses_state s) later ≡ false)
    × (is_complete flow.config ≡ true)

stored-pending_flows :
    (id : Text) (r : Result OauthError OauthTokens) (om : OauthManager)
    → (stored id r om).pending_flows ≡ om.pending_flows
unfolding store_tokens
stored-pending_flows id (ok fresh) om = refl
stored-pending_flows id (err reason) om = refl

refresh_token-pending_flows :
    (now : ℕ) (ask : Request → Reply) (id : Text) (om : OauthManager)
    → (refresh_token now ask id om).1.pending_flows ≡ om.pending_flows
unfolding refresh_token
refresh_token-pending_flows now ask id om = elim (Option-cases (om.tokens id)) [
  | inl e ↦ rw (e, refresh_token) refl
  | inr (existing, e) ↦
      rw (e, refresh_token) (stored-pending_flows id (renew now ask om existing) om)
]

-- A call that does not use the state leaves its flow, or drops it as too old.
run-pending_flows :
    (s : Text) (call : Call) (om : OauthManager) (flow : PendingFlow)
    → uses_state s call ≡ false
    → (run call om).pending_flows s ≡ some flow
    → om.pending_flows s ≡ some flow
unfolding run register_connector_config store_tokens cleanup_expired_flows start_oauth_flow
    begin_flow handle_callback
run-pending_flows s (register kind config) om flow u h = h
run-pending_flows s (store id new) om flow u h = h
run-pending_flows s (start addresses now none kind config) om flow u h = ground arith
run-pending_flows s (start addresses now (some state) kind config) om flow u h = ground arith
run-pending_flows s (callback now ask state code) om flow u h = ground arith
run-pending_flows s (refresh now ask id) om flow u h =
    ap (λ m. m s) (sym (refresh_token-pending_flows now ask id om)) ∙ h
run-pending_flows s (cleanup now) om flow u h = elim (Option-cases (om.pending_flows s)) [
  | inl e ↦ ground arith
  | inr (old, e) ↦ ground arith
]

flow_of : (a b : PendingFlow) → some a ≡ some b → a ≡ b
flow_of a b e = cc

not_some : (flow : PendingFlow) → none ≡ some flow → ⊥
not_some flow e = cc

-- A call that uses the state and leaves a flow under it has started that flow.
run-start :
    (s : Text) (call : Call) (om : OauthManager) (flow : PendingFlow)
    → uses_state s call ≡ true
    → (run call om).pending_flows s ≡ some flow
    → (addresses : Addresses) × (call
        ≡ start addresses flow.created_at (some s) flow.connector_type flow.config)
      × (is_complete flow.config ≡ true)
unfolding run start_oauth_flow begin_flow handle_callback
run-start s (register kind config) om flow u h = cc
run-start s (store id new) om flow u h = cc
run-start s (start addresses now none kind config) om flow u h = ground arith
run-start s (start addresses now (some state) kind config) om flow u h =
    let same : state ≡ s = ground (arith, eqb_iff state s) in
    let made : flow_at now state kind config ≡ flow = ground arith in
    let complete : is_complete config ≡ true = ground arith in
    subst
      (λ f.
        (a : Addresses) × (start addresses now (some state) kind config
          ≡ start a f.created_at (some s) f.connector_type f.config)
        × (is_complete f.config ≡ true))
      made (addresses, ap (λ x. start addresses now (some x) kind config) same, complete)
run-start s (callback now ask state code) om flow u h =
    let same : state ≡ s = ground (arith, eqb_iff state s) in
    let gone : (handle_callback now ask state code om).1.pending_flows s ≡ none =
      elim (Option-cases (om.pending_flows state)) [
        | inl e ↦ ground arith
        | inr (old, e) ↦ ground arith
      ] in
    absurd (not_some flow (sym gone ∙ h))
run-start s (refresh now ask id) om flow u h = cc
run-start s (cleanup now) om flow u h = cc

after_calls-IsStarted :
    (calls : List Call) (s : Text) (flow : PendingFlow)
    → (after_calls calls new_oauth_manager).pending_flows s ≡ some flow
    → IsStarted calls s flow
unfolding after_calls new_oauth_manager
after_calls-IsStarted [] s flow h = ground arith
after_calls-IsStarted (c ∷ calls) s flow h = elim (Bool-cases (uses_state s c)) [
  | inl u ↦
      let (addresses, e, complete) = run-start s c (after_calls calls new_oauth_manager) flow u h in
      ([], addresses, calls, ap (λ x. x ∷ calls) e, refl, complete)
  | inr u ↦
      let before = run-pending_flows s c (after_calls calls new_oauth_manager) flow u h in
      let (later, addresses, earlier, e, unused, complete) =
        after_calls-IsStarted calls s flow before in
      (c ∷ later, addresses, earlier, ap (◌∷◌ c) e, ground arith, complete)
]

-- The tokens are those that the flow's own provider gives for the code, in time.
abbrev pub IsExchanged : ℕ → (Request → Reply) → Text → PendingFlow → OauthTokens → Type 0
IsExchanged now ask code flow fresh =
    (now ≤ flow.created_at + flow_window)
    × (raw : OauthTokens) × (exchange_code now ask flow.config code ≡ ok raw)
    × (fresh ≡ record raw { connector_type = flow.connector_type })

ok_value : (a b : OauthTokens) → ◌≡◌ {A = Result OauthError OauthTokens} (ok a) (ok b) → a ≡ b
ok_value a b e = cc

finish_flow-IsExchanged :
    (now : ℕ) (ask : Request → Reply) (code : Text) (flow : PendingFlow) (fresh : OauthTokens)
    → finish_flow now ask code flow ≡ ok fresh
    → IsExchanged now ask code flow fresh
unfolding finish_flow
finish_flow-IsExchanged now ask code flow fresh h =
    elim (Bool-cases (ltb (flow.created_at + flow_window) now)) [
      | inl e ↦ cc
      | inr e ↦
          let (raw, a, b) = bind_ok (exchange_code now ask flow.config code) (rw e at h) in
          (ground arith, raw, a, sym (ok_value _ fresh b))
    ]

-- After any calls of a new manager, a callback returns tokens only for a state under which a call has
-- started a flow, at most ten minutes before, with no callback in between that handed in that state
-- with a code. The tokens are what the token endpoint of that flow's configuration returned for the
-- code, marked with the connector type of the flow.
pub handle_callback-IsStarted :
    (calls : List Call) (now : ℕ) (ask : Request → Reply) (s code : Text) (fresh : OauthTokens)
    → (handle_callback now ask s code (after_calls calls new_oauth_manager)).0 ≡ ok fresh
    → (flow : PendingFlow) × IsStarted calls s flow × IsExchanged now ask code flow fresh
unfolding handle_callback
handle_callback-IsStarted calls now ask s code fresh h =
    elim (Option-cases ((after_calls calls new_oauth_manager).pending_flows s)) [
      | inl e ↦ ground arith
      | inr (flow, e) ↦ (
        flow,
        after_calls-IsStarted calls s flow e,
        finish_flow-IsExchanged now ask code flow fresh (ground arith),
      )
    ]
