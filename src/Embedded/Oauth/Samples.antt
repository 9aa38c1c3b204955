-- ===== src/Embedded/Oauth/Samples.antt =====
-- One flow and one refresh, with a token endpoint that answers both alike, and the theorems there.
use durable_integrations.Prelude.{false, some, [], ◌∷◌, ◌≡◌, refl}
use durable_integrations.Prelude.Bytes.{Text, bytes, eqb}
use durable_integrations.Prelude.Int.{pos}
use durable_integrations.Prelude.Result.{ok, err}
use durable_integrations.Embedded.Oauth.{
  OauthConfig, OauthTokens, PendingFlow, OauthManager, Reply, reply, Request, no_connector_type,
  invalid_state, new_oauth_manager, handle_callback, finish_flow, exchange_code, do_token_request,
  read_tokens, start_oauth_flow, begin_flow, refresh_token, renew, do_refresh, store_tokens,
  register_connector_config, Call, register, store, start, callback, run, after_calls, flow_query,
}
use durable_integrations.Embedded.Oauth.Flows.{IsStarted, IsExchanged, handle_callback-IsStarted}
use durable_integrations.Embedded.Oauth.Refreshes.{refresh_token-strands}

abbrev config : OauthConfig
config = record {
  client_id = bytes "id";
  client_secret = bytes "secret";
  redirect_uri = bytes "https://r";
  scopes = [];
  auth_url = bytes "https://a";
  token_url = bytes "https://t";
}

abbrev ask : Request → Reply
ask request = reply 200 (
    some (record {
      access_token = bytes "access";
      refresh_token = [];
      token_type = bytes "bearer";
      expires_in = pos 60;
      scope = bytes "read write";
      error = [];
      error_description = [];
    }))

abbrev tokens : Text → OauthTokens
tokens refresh = record {
  access_token = bytes "access";
  refresh_token = refresh;
  token_type = bytes "bearer";
  expires_at = pos 60_000_000_005;
  scopes = bytes "read" ∷ bytes "write" ∷ [];
  connector_type = bytes "crm";
}

abbrev begun : Call
begun = start (λ url query. some url) 1 (some (bytes "s1")) (bytes "crm") config

honoured :
    (handle_callback 5 ask
      (bytes "s1")
      (bytes "code")
      (after_calls (begun ∷ []) new_oauth_manager)).0
    ≡ ok (tokens [])
unfolding handle_callback after_calls new_oauth_manager run start_oauth_flow begin_flow finish_flow
    exchange_code do_token_request read_tokens flow_query
honoured = refl

handle_callback-IsStarted_example :
    (flow : PendingFlow) × IsStarted (begun ∷ []) (bytes "s1") flow
    × IsExchanged 5 ask (bytes "code") flow (tokens [])
handle_callback-IsStarted_example =
    handle_callback-IsStarted (begun ∷ []) 5 ask (bytes "s1") (bytes "code") (tokens []) honoured

used_twice :
    (handle_callback 6 ask
      (bytes "s1")
      (bytes "code")
      (after_calls (callback 5 ask (bytes "s1") (bytes "code") ∷ begun ∷ []) new_oauth_manager)).0
    ≡ err invalid_state
unfolding handle_callback after_calls new_oauth_manager run start_oauth_flow begin_flow
used_twice = refl

abbrev connected : OauthManager
connected =
    after_calls (store (bytes "i1") (tokens (bytes "again")) ∷ register (bytes "crm") config ∷ [])
      new_oauth_manager

abbrev renewed : OauthTokens
renewed = record (tokens (bytes "again")) { connector_type = [] }

refreshed : (refresh_token 5 ask (bytes "i1") connected).0 ≡ ok renewed
unfolding refresh_token after_calls new_oauth_manager run store_tokens register_connector_config
    renew do_refresh do_token_request read_tokens
refreshed = refl

refresh_token-strands_example :
    ((refresh_token 5 ask (bytes "i1") connected).1.tokens (bytes "i1") ≡ some renewed)
    × (eqb renewed.refresh_token [] ≡ false)
    × ((refresh_token 9 ask
          (bytes "i1")
          (after_calls (begun ∷ []) (refresh_token 5 ask (bytes "i1") connected).1)).0
        ≡ err no_connector_type)
refresh_token-strands_example =
    refresh_token-strands 5 ask (bytes "i1") connected renewed refreshed (begun ∷ []) 9 ask refl
