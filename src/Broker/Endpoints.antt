-- ===== src/Broker/Endpoints.antt =====
-- The other endpoints of the broker: `Authorize`, `Token`, `Revoke` and `UserInfo` of oidc.go, `Register`
-- of dcr.go, and `Create`, `Get` and `Revoke` of install.go. Form values, queries and bodies arrive
-- decoded (`none` where that failed); `is_absolute` is the test of a redirect URI by the URL parser,
-- `trim` is strings.TrimSpace, and `jwt_valid` the verification of a JWT at an instant.
use x_auth_site.Base.{ℕ, String, Bool, not, ◌||◌, Option, none, some, if◌then◌else◌, str_eq}
use x_auth_site.Broker.Store.{
  Install, pending, AuthCode, TokenRecord, runtime_custom, valid_runtime, create_install,
  get_install, put_auth_code, get_token, delete_token, token_expired,
}
use x_auth_site.Broker.Clients.{Clients}
use x_auth_site.Broker.Calls.{Settings, Call, Reply, Broker, is_revoked, mark_install_revoked}
use x_auth_site.Broker.Store.{DcrClient, put_client}
use x_auth_site.Broker.Code.{handle_code_grant}
use x_auth_site.Broker.Refresh.{handle_refresh_grant}

pub record AuthorizeQuery : Type 0 where
  pub client_id : String
  pub redirect_uri : String
  pub state : String
  pub scope : String
  pub persona_id : String
  pub pool_id : String
  pub tenant_id : String
  pub code_challenge : String
  pub code_challenge_method : String
  pub runtime : String

pub data AuthorizeReply : Type 0 where
  bad_client bad_redirect_uri bad_request : AuthorizeReply
  redirect : (uri code state : String) → AuthorizeReply

abbrev pub runtime_of : AuthorizeQuery → String
runtime_of a = if str_eq a.runtime "" then runtime_custom else a.runtime

abbrev pub code_of : AuthorizeQuery → String → ℕ → AuthCode
code_of a code now = record {
  code = code;
  tenant_id = a.tenant_id;
  runtime = runtime_of a;
  persona_id = a.persona_id;
  pool_id = a.pool_id;
  client_id = a.client_id;
  redirect_uri = a.redirect_uri;
  state = a.state;
  scope = a.scope;
  code_challenge = a.code_challenge;
  created_at = some now;
}

-- The checks of `Authorize`, in order.
abbrev pub authorize_error : (String → Bool) → AuthorizeQuery → Option AuthorizeReply
authorize_error is_absolute a =
    if str_eq a.client_id ""
    then some bad_client
    else (if str_eq a.redirect_uri ""
        then some bad_redirect_uri
        else (if str_eq a.persona_id ""
              || (str_eq a.pool_id ""
                  || (str_eq a.tenant_id ""
                      || (not (valid_runtime (runtime_of a))
                          || (str_eq a.code_challenge ""
                              || not (str_eq a.code_challenge_method "S256")))))
            then some bad_request
            else (if not (is_absolute a.redirect_uri) then some bad_redirect_uri else none)))

pub data GrantType : Type 0 where
  authorization_code : (code client verifier : String) → GrantType
  refresh_token : (presented client : String) → GrantType
  other_grant : GrantType

pub data TokenReply : Type 0 where
  bad_form unsupported_grant_type : TokenReply
  granted : Reply → TokenReply

pub data RevokeReply : Type 0 where
  bad_revocation revoked_or_unknown : RevokeReply

pub record UserClaims : Type 0 where
  pub sub : String
  pub persona : String
  pub scope : String
  pub install_id : String

pub data UserInfoReply : Type 0 where
  no_bearer failed_verification unknown_token expired_token : UserInfoReply
  user_info : UserClaims → UserInfoReply

abbrev pub user_info_found : ℕ → Option TokenRecord → UserInfoReply
user_info_found now none = unknown_token
user_info_found now (some t) =
    if token_expired now t
    then expired_token
    else user_info (record {
      sub = t.subject;
      persona = t.persona_id;
      scope = t.scope;
      install_id = t.install_id;
    })

pub record CreateInstallRequest : Type 0 where
  pub runtime : String
  pub persona_id : String
  pub client_id : String

pub data InstallReply : Type 0 where
  missing_tenant bad_body invalid_runtime invalid_persona_id invalid_client_id invalid_id not_found
        no_content :
      InstallReply
  created : Install → InstallReply
  shown : Install → InstallReply

abbrev pub shown_or_missing : Option Install → InstallReply
shown_or_missing none = not_found
shown_or_missing (some i) = shown i

module _ {M : Type 0} (C : Clients) where
  abbrev pub authorize_checked :
      Broker M C.State
      → AuthorizeQuery
      → String
      → ℕ
      → Option AuthorizeReply
      → Broker M C.State × AuthorizeReply
  authorize_checked b a code now (some e) = (b, e)
  authorize_checked b a code now none = (
    record b { store = put_auth_code b.store (code_of a code now) now },
    redirect a.redirect_uri code a.state,
  )

  unfoldable pub authorize :
      (String → Bool)
      → Broker M C.State
      → AuthorizeQuery
      → String
      → ℕ
      → Broker M C.State × AuthorizeReply
  authorize is_absolute b a code now =
      authorize_checked b a code now (authorize_error is_absolute a)

  abbrev pub granting : Broker M C.State × Reply → Broker M C.State × TokenReply
  granting (b, r) = (b, granted r)

  unfoldable pub token :
      Settings → Broker M C.State → Option GrantType → Call → Broker M C.State × TokenReply
  token o b none q = (b, bad_form)
  token o b (some (authorization_code code client verifier)) q =
      granting (handle_code_grant C o b code client verifier q)
  token o b (some (refresh_token presented client)) q =
      granting (handle_refresh_grant C o b presented client q)
  token o b (some other_grant) q = (b, unsupported_grant_type)

  abbrev pub revoke_found : Broker M C.State → String → Option TokenRecord → Broker M C.State
  revoke_found b t none = record b { services = (C.revoke_token b.services "" t).0 }
  revoke_found b t (some rec) = record {
    store = delete_token b.store t;
    services = (C.revoke_token b.services rec.tenant_id t).0;
  }

  unfoldable pub revoke : Broker M C.State → Option String → Broker M C.State × RevokeReply
  revoke b none = (b, bad_revocation)
  revoke b (some t) =
      if str_eq t ""
      then (b, bad_revocation)
      else (revoke_found b t (get_token b.store t), revoked_or_unknown)

  -- `bearer` is the token after the prefix of the header, if it has that prefix.
  unfoldable pub user_info_of :
      (String → ℕ → Bool) → Broker M C.State → Option String → ℕ → UserInfoReply
  user_info_of jwt_valid b none now = no_bearer
  user_info_of jwt_valid b (some t) now =
      if jwt_valid t now then user_info_found now (get_token b.store t) else failed_verification

  unfoldable pub register :
      Broker M C.State → M → (client_id client_secret : String) → ℕ → Broker M C.State × DcrClient M
  register b metadata client_id client_secret now =
      let c : DcrClient M = record {
        client_id = client_id;
        client_secret = client_secret;
        client_metadata = metadata;
        created_at = now;
      } in
      (record b { store = put_client b.store c }, c)

  abbrev pub install_checked :
      (String → String)
      → Broker M C.State
      → String
      → CreateInstallRequest
      → String
      → ℕ
      → Broker M C.State × InstallReply
  install_checked trim b tenant r id now =
      if not (valid_runtime (trim r.runtime))
      then (b, invalid_runtime)
      else (if str_eq (trim r.persona_id) ""
          then (b, invalid_persona_id)
          else (if str_eq (trim r.client_id) ""
              then (b, invalid_client_id)
              else (let i : Install = record {
                id = id;
                tenant_id = tenant;
                runtime = trim r.runtime;
                persona_id = r.persona_id;
                identity_id = "";
                client_id = r.client_id;
                status = pending;
                created_at = now;
                updated_at = now;
              } in
                  (record b { store = create_install b.store i }, created i))))

  unfoldable pub handle_create_install :
      (String → String)
      → Broker M C.State
      → Option String
      → Option CreateInstallRequest
      → String
      → ℕ
      → Broker M C.State × InstallReply
  handle_create_install trim b none body id now = (b, missing_tenant)
  handle_create_install trim b (some tenant) none id now = (b, bad_body)
  handle_create_install trim b (some tenant) (some r) id now =
      install_checked trim b tenant r id now

  unfoldable pub handle_get_install : Broker M C.State → Option String → String → InstallReply
  handle_get_install b none id = missing_tenant
  handle_get_install b (some tenant) id =
      if str_eq id "" then invalid_id else shown_or_missing (get_install b.store tenant id)

  abbrev pub cascade : Broker M C.State → String → String → Install → Broker M C.State
  cascade b tenant id i =
      let services = (C.revoke_grants_for_install b.services tenant id).0 in
      record b {
        services =
            if str_eq i.identity_id ""
            then services
            else (C.release_identity services tenant i.identity_id).0;
      }

  abbrev pub revoke_install_found :
      Broker M C.State → String → String → Call → Option Install → Broker M C.State × InstallReply
  revoke_install_found b tenant id q none = (b, not_found)
  revoke_install_found b tenant id q (some i) =
      if is_revoked i.status
      then (b, no_content)
      else (cascade (mark_install_revoked b i q) tenant id i, no_content)

  unfoldable pub handle_revoke_install :
      Broker M C.State → Option String → String → Call → Broker M C.State × InstallReply
  handle_revoke_install b none id q = (b, missing_tenant)
  handle_revoke_install b (some tenant) id q =
      if str_eq id ""
      then (b, invalid_id)
      else revoke_install_found b tenant id q (get_install b.store tenant id)
