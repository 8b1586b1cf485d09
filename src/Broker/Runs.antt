-- ===== src/Broker/Runs.antt =====
-- The broker as a state machine: a request to an endpoint of the broker (cmd/main.go mounts them) or a
-- sweep of its sweeper is one step, and a run is a series of steps, each one allowed where it is taken.
use x_auth_site.Base.{ℕ, String, Bool, Option, none, some, ◌≡◌}
use x_auth_site.Broker.Store.{purge_expired}
use x_auth_site.Broker.Clients.{Clients}
use x_auth_site.Broker.Calls.{Settings, Call, install, Broker}
use x_auth_site.Broker.Endpoints.{
  AuthorizeQuery, GrantType, authorization_code, CreateInstallRequest, authorize, token, revoke,
  register, handle_create_install, handle_revoke_install,
}
pub mod Tokens
pub mod Codes
pub mod Installs

pub data Request (M : Type 0) : Type 0 where
  authorizing : (a : AuthorizeQuery) (code : String) (now : ℕ) → Request M
  granting : (form : Option GrantType) (q : Call) → Request M
  revoking : (form : Option String) → Request M
  registering : (metadata : M) (id secret : String) (now : ℕ) → Request M
  creating :
      (tenant : Option String) (body : Option CreateInstallRequest) (id : String) (now : ℕ)
      → Request M
  revoking_install : (tenant : Option String) (id : String) (q : Call) → Request M
  sweeping : (now : ℕ) → Request M

-- The parser's test of an absolute redirect URI, strings.TrimSpace, and the handlers' settings.
pub record Surroundings : Type 0 where
  pub is_absolute : String → Bool
  pub trim : String → String
  pub settings : Settings

-- The id that a request would give to a new install.
abbrev pub new_install_id : {M : Type 0} → Request M → Option String
new_install_id (granting (some (authorization_code _ _ _)) q) = some (q.fresh install)
new_install_id (creating _ _ id _) = some id
new_install_id _ = none

-- The code that a request would store.
abbrev pub new_code : {M : Type 0} → Request M → Option String
new_code (authorizing _ code _) = some code
new_code _ = none

module _ {M : Type 0} (C : Clients) (o : Surroundings) where
  abbrev pub step : Broker M C.State → Request M → Broker M C.State
  step b (authorizing a code now) = (authorize C o.is_absolute b a code now).0
  step b (granting form q) = (token C o.settings b form q).0
  step b (revoking form) = (revoke C b form).0
  step b (registering m id secret now) = (register C b m id secret now).0
  step b (creating tenant body id now) = (handle_create_install C o.trim b tenant body id now).0
  step b (revoking_install tenant id q) = (handle_revoke_install C b tenant id q).0
  step b (sweeping now) = record b { store = (purge_expired b.store now).0 }

  pub data Run (Allowed : Broker M C.State → Request M → Type 0)
      : Broker M C.State → Broker M C.State → Type 0 where
    done : {b : Broker M C.State} → Run Allowed b b
    next :
        {b b' : Broker M C.State} (r : Request M)
        → Allowed b r
        → Run Allowed (step b r) b'
        → Run Allowed b b'

  -- What every allowed step keeps, a run keeps.
  pub Run_invariant :
      (Allowed : Broker M C.State → Request M → Type 0) (P : Broker M C.State → Type 0)
      → ((b : Broker M C.State) (r : Request M) → Allowed b r → P b → P (step b r))
      → (b b' : Broker M C.State) → Run Allowed b b'
      → P b
      → P b'
  Run_invariant Allowed P keeps b _ done p = p
  Run_invariant Allowed P keeps b b' (next r a run) p =
      Run_invariant Allowed P keeps (step b r) b' run (keeps b r a p)
