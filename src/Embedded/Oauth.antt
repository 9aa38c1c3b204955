-- ===== src/Embedded/Oauth.antt =====
-- internal/embedded/oauth/manager.go: authorization flows that are pending, and the tokens of
-- integrations. Times count nanoseconds. The maps are functions from their keys. What a token endpoint
-- answers, what net/url makes of an address and its query, and the random bytes of a state are arguments
-- of the call. cleanupExpiredFlows runs beside the other calls, and so is a call of its own.
pub mod Flows
pub mod Refreshes
mod Samples
use durable_integrations.Prelude.{
  ℕ, zero, ◌+◌, ◌-◌, ◌*◌, ◌%◌, ◌^◌, Bool, true, false, not, Option, none, some, List, [], ◌∷◌, ◌++◌,
  if◌then◌else◌, ltb, ◌==◌,
}
use durable_integrations.Prelude.Bytes.{Text, bytes, eqb}
use durable_integrations.Prelude.Int.{ℤ, pos, negsuc, sub_ℕ, ◌+ℤ◌, ltbℤ}
use durable_integrations.Prelude.Result.{Result, ok, err, ◌>>=◌}

pub record OauthConfig : Type 0 where
  pub client_id : Text
  pub client_secret : Text
  pub redirect_uri : Text
  pub scopes : List Text
  pub auth_url : Text
  pub token_url : Text

pub record OauthTokens : Type 0 where
  pub access_token : Text
  pub refresh_token : Text
  pub token_type : Text
  pub expires_at : ℤ
  pub scopes : List Text
  pub connector_type : Text

pub record PendingFlow : Type 0 where
  pub state : Text
  pub connector_type : Text
  pub config : OauthConfig
  pub created_at : ℕ

pub record OauthManager : Type 0 where
  pub pending_flows : Text → Option PendingFlow
  pub tokens : Text → Option OauthTokens
  pub configs : Text → Option OauthConfig

pub record TokenResponse : Type 0 where
  pub access_token : Text
  pub refresh_token : Text
  pub token_type : Text
  pub expires_in : ℤ
  pub scope : Text
  pub error : Text
  pub error_description : Text

-- What comes back from a token endpoint: nothing, or a status and what its body decodes to.
pub data Reply : Type 0 where
  no_reply : Reply
  reply : ℕ → Option TokenResponse → Reply

pub record Request : Type 0 where
  pub url : Text
  pub form : List (Text × Text)

pub data OauthError : Type 0 where
  auth_url_required client_id_required redirect_uri_required no_state bad_auth_url : OauthError
  state_required code_required invalid_state flow_expired : OauthError
  no_tokens no_refresh_token no_connector_type no_config : OauthError
  request_failed bad_response no_access_token : OauthError
  oauth_error : Text → Text → OauthError
  bad_status : ℕ → OauthError

abbrev second : ℕ
second = 10 ^ 9

-- `10*time.Minute`
abbrev pub flow_window : ℕ
flow_window = 600 * second

unfoldable pub new_oauth_manager : OauthManager
new_oauth_manager = record {
  pending_flows = λ key. none;
  tokens = λ key. none;
  configs = λ key. none;
}

-- `m[key] = value`, and `delete(m, key)`.
abbrev pub put : {V : Type 0} → Text → V → (Text → Option V) → Text → Option V
put key value m other = if eqb key other then some value else m other

abbrev pub delete : {V : Type 0} → Text → (Text → Option V) → Text → Option V
delete key m other = if eqb key other then none else m other

-- `Before`, and `After` the other way round.
unfoldable pub is_expired : ℕ → OauthTokens → Bool
is_expired now t = ltbℤ (t.expires_at +ℤ negsuc (60 * second - 1)) (pos now)

unfoldable pub register_connector_config : Text → OauthConfig → OauthManager → OauthManager
register_connector_config kind config om = record om { configs = put kind config om.configs }

unfoldable pub store_tokens : Text → OauthTokens → OauthManager → OauthManager
store_tokens id new om = record om { tokens = put id new om.tokens }

unfoldable pub cleanup_expired_flows : ℕ → OauthManager → OauthManager
cleanup_expired_flows now om = record om {
  pending_flows = λ key. elim (om.pending_flows key) [
    | none ↦ none
    | some flow ↦ if ltb (flow.created_at + flow_window) now then none else some flow
  ];
}

-- `strings.Join(scopes, " ")`
abbrev pub join_spaces : List Text → Text
join_spaces [] = []
join_spaces (part ∷ []) = part
join_spaces (part ∷ next ∷ parts) = part ++ 32 ∷ join_spaces (next ∷ parts)

-- `strings.Split(scope, " ")`, with the part before the next space in front.
abbrev pub split_spaces : Text → Text → List Text
split_spaces part [] = part ∷ []
split_spaces part (c ∷ cs) = elim (c == 32) [
  | true ↦ part ∷ split_spaces [] cs
  | false ↦ split_spaces (part ++ c ∷ []) cs
]

-- What is set in the query of the authorization address.
unfoldable pub flow_query : Text → OauthConfig → List (Text × Text)
flow_query state config =
    (bytes "client_id", config.client_id)
    ∷ (bytes "redirect_uri", config.redirect_uri)
    ∷ (bytes "response_type", bytes "code")
    ∷ (bytes "state", state)
    ∷ elim config.scopes [
      | [] ↦ []
      | (scope ∷ scopes) ↦ (bytes "scope", join_spaces (scope ∷ scopes)) ∷ []
    ]

abbrev pub Addresses : Type 0
Addresses = Text → List (Text × Text) → Option Text

-- The flow is pending from here on, whatever becomes of the address.
unfoldable pub begin_flow :
    Addresses → ℕ → Text → Text → OauthConfig → OauthManager → Result OauthError Text × OauthManager
begin_flow addresses now state kind config om =
    let flow : PendingFlow = record {
      state = state;
      connector_type = kind;
      config = config;
      created_at = now;
    } in
    (
      elim (addresses config.auth_url (flow_query state config)) [
        | none ↦ err bad_auth_url
        | some url ↦ ok url
      ],
      record om { pending_flows = put state flow om.pending_flows },
    )

-- The state is none if there are no random bytes.
unfoldable pub start_oauth_flow :
    Addresses
    → ℕ
    → Option Text
    → Text
    → OauthConfig
    → OauthManager
    → Result OauthError Text × OauthManager
start_oauth_flow addresses now state kind config om =
    if eqb config.auth_url []
    then (err auth_url_required, om)
    else if eqb config.client_id []
    then (err client_id_required, om)
    else if eqb config.redirect_uri []
    then (err redirect_uri_required, om)
    else elim state [
      | none ↦ (err no_state, om)
      | some s ↦ begin_flow addresses now s kind config om
    ]

-- A product in 64 bits with a sign.
abbrev int64 : ℤ → ℤ
int64 (pos a) = let r = a % 2 ^ 64 in if ltb r (2 ^ 63) then pos r else sub_ℕ r (2 ^ 64)
int64 (negsuc a) = let r = a % 2 ^ 64 in if ltb r (2 ^ 63) then negsuc r else sub_ℕ (2 ^ 64) (r + 1)

-- `time.Duration(seconds) * time.Second`
abbrev pub duration : ℤ → ℤ
duration (pos a) = int64 (pos (a * second))
duration (negsuc a) = int64 (negsuc (a * second + second - 1))

-- The tokens of a good response.
unfoldable pub read_tokens : ℕ → TokenResponse → Result OauthError OauthTokens
read_tokens now tr =
    if eqb tr.access_token []
    then err no_access_token
    else ok (record {
      access_token = tr.access_token;
      refresh_token = tr.refresh_token;
      token_type = tr.token_type;
      expires_at = elim tr.expires_in [
        | (pos zero) ↦ pos (now + 3600 * second)
        | later ↦ pos now +ℤ duration later
      ];
      scopes = if eqb tr.scope [] then [] else split_spaces [] tr.scope;
      connector_type = [];
    })

abbrev named_error : ℕ → Option TokenResponse → OauthError
named_error status none = bad_status status
named_error status (some tr) =
    if eqb tr.error [] then bad_status status else oauth_error tr.error tr.error_description

unfoldable pub do_token_request : ℕ → Reply → Result OauthError OauthTokens
do_token_request now no_reply = err request_failed
do_token_request now (reply status body) =
    if status == 200
    then elim body [ none ↦ err bad_response | some tr ↦ read_tokens now tr ]
    else err (named_error status body)

unfoldable pub exchange_code :
    ℕ → (Request → Reply) → OauthConfig → Text → Result OauthError OauthTokens
exchange_code now ask config code = do_token_request now (
    ask (record {
      url = config.token_url;
      form =
          (bytes "grant_type", bytes "authorization_code")
          ∷ (bytes "code", code)
          ∷ (bytes "redirect_uri", config.redirect_uri)
          ∷ (bytes "client_id", config.client_id)
          ∷ (bytes "client_secret", config.client_secret)
          ∷ [];
    }))

unfoldable pub do_refresh :
    ℕ → (Request → Reply) → OauthConfig → Text → Result OauthError OauthTokens
do_refresh now ask config refresh_token = do_token_request now (
    ask (record {
      url = config.token_url;
      form =
          (bytes "grant_type", bytes "refresh_token")
          ∷ (bytes "refresh_token", refresh_token)
          ∷ (bytes "client_id", config.client_id)
          ∷ (bytes "client_secret", config.client_secret)
          ∷ [];
    }))

-- What is done with the flow of a state that was pending.
unfoldable pub finish_flow :
    ℕ → (Request → Reply) → Text → PendingFlow → Result OauthError OauthTokens
finish_flow now ask code flow =
    if ltb (flow.created_at + flow_window) now
    then err flow_expired
    else exchange_code now ask flow.config code >>= λ fresh.
        ok (record fresh { connector_type = flow.connector_type })

unfoldable pub handle_callback :
    ℕ
    → (Request → Reply)
    → Text
    → Text
    → OauthManager
    → Result OauthError OauthTokens × OauthManager
handle_callback now ask state code om =
    if eqb state []
    then (err state_required, om)
    else if eqb code []
    then (err code_required, om)
    else elim (om.pending_flows state) [
      | none ↦ (err invalid_state, om)
      | some flow ↦ (
        finish_flow now ask code flow,
        record om { pending_flows = delete state om.pending_flows },
      )
    ]

-- The refresh token is kept if the provider returns none.
abbrev pub keep_refresh_token : Text → OauthTokens → OauthTokens
keep_refresh_token old fresh =
    if eqb fresh.refresh_token [] then record fresh { refresh_token = old } else fresh

abbrev stored : Text → Result OauthError OauthTokens → OauthManager → OauthManager
stored id (ok fresh) om = store_tokens id fresh om
stored id (err reason) om = om

-- The tokens that the provider returns for those that are stored.
unfoldable pub renew :
    ℕ → (Request → Reply) → OauthManager → OauthTokens → Result OauthError OauthTokens
renew now ask om existing =
    if eqb existing.refresh_token []
    then err no_refresh_token
    else if eqb existing.connector_type []
    then err no_connector_type
    else elim (om.configs existing.connector_type) [
      | none ↦ err no_config
      | some config ↦ do_refresh now ask config existing.refresh_token >>= λ fresh.
          ok (keep_refresh_token existing.refresh_token fresh)
    ]

unfoldable pub refresh_token :
    ℕ → (Request → Reply) → Text → OauthManager → Result OauthError OauthTokens × OauthManager
refresh_token now ask id om = elim (om.tokens id) [
  | none ↦ (err no_tokens, om)
  | some existing ↦ let renewed = renew now ask om existing in (renewed, stored id renewed om)
]

-- A call of a method that changes the manager.
pub data Call : Type 0 where
  register : Text → OauthConfig → Call
  store : Text → OauthTokens → Call
  start : Addresses → ℕ → Option Text → Text → OauthConfig → Call
  callback : ℕ → (Request → Reply) → Text → Text → Call
  refresh : ℕ → (Request → Reply) → Text → Call
  cleanup : ℕ → Call

unfoldable pub run : Call → OauthManager → OauthManager
run (register kind config) om = register_connector_config kind config om
run (store id new) om = store_tokens id new om
run (start addresses now state kind config) om =
    (start_oauth_flow addresses now state kind config om).1
run (callback now ask state code) om = (handle_callback now ask state code om).1
run (refresh now ask id) om = (refresh_token now ask id om).1
run (cleanup now) om = cleanup_expired_flows now om

-- The manager after some calls, the latest of which stands first.
unfoldable pub after_calls : List Call → OauthManager → OauthManager
after_calls [] om = om
after_calls (c ∷ earlier) om = run c (after_calls earlier om)
