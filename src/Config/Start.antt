-- ===== src/Config/Start.antt =====
-- cmd/heliograph-relay/main.go: from the environment to a server. Each authoriser is wrapped in the
-- tenant's rule and in the recognition of leases, and the spool is opened before anything is served.
use heliograph_relay.Common.{
  ℕ, ◌+◌, Bool, true, false, Option, none, some, [], Text, is_empty, if◌then◌else◌,
}
use heliograph_relay.Common.Split.{trim_space}
use heliograph_relay.Relay.Message.{Time}
use heliograph_relay.Relay.Store.{Store, new_store}
use heliograph_relay.Spool.Disk.{Codec, Spool}
use heliograph_relay.Spool.Load.{open_spool}
use heliograph_relay.Auth.Types.{Request}
use heliograph_relay.Auth.Scoped.{Authoriser, scoped_auth, narrow}
use heliograph_relay.Auth.Static.{from_auth, static_auth}
use heliograph_relay.Auth.Authority.{Wire, Settings, Floors, authority_admit, watch_lease}
use heliograph_relay.Auth.Remote.{Answer, RemoteAuth, new_remote_auth, remote_admit}
use heliograph_relay.Config.LeaseKey.{Decoders, key, parse_public_key, ed25519_verifier}
use heliograph_relay.Config.Estates.{
  Env, Source, scoped, remote, static, bad_lease_key, bad_spool, Outcome, serves, exits, configure,
  truthy,
}
use heliograph_relay.Server.Service.{Server, new_authorising_server}

-- The libraries: digests, the key's spellings, signatures, the wire of leases, the codec of spool
-- heads, and what a remote authoriser answers, with the clock when it has.
pub record Libraries : Type 0 where
  pub sha256 : Text → Text
  pub zero_digest : Text
  pub hex : Text → Text
  pub decoders : Decoders
  pub ed25519 : Text → Text → Text → Bool
  pub wire : Wire
  pub codec : Codec
  pub answers : Time → Request → Answer × Time

-- What else the environment says.
pub record Settled : Type 0 where
  pub sources : Env
  pub hosted : Text
  pub lease_key : Text
  pub spool : Text

-- An authoriser behind AuthorityAuth, with the next channel's number.
abbrev pub authority_auth : Settings → Authoriser → Authoriser
authority_auth c inner = record {
  State = (Floors × inner.State) × ℕ;
  admit = λ st now req. (let (fs, g) = authority_admit c inner st.0 now req in ((fs, st.1), g));
  watch = λ st now req ref. elim (watch_lease c st.0.0 now req st.1) [
    | some fl ↦ (((fl, st.0.1), st.1 + 1), true)
    | none ↦
        let (inner_state, watched) = inner.watch st.0.1 now req ref in
        (((st.0.0, inner_state), st.1), watched)
  ];
}

-- The rule of a hosted tenant, where the flag is set.
abbrev pub tenant : Bool → Authoriser → Authoriser
tenant is_hosted inner = record {
  State = inner.State;
  admit =
      λ a now req. (let (a', g) = inner.admit a now req in (a', if is_hosted then narrow g else g));
  watch = inner.watch;
}

abbrev pub remote_auth : (Time → Request → Answer × Time) → Authoriser
remote_auth answers = record {
  State = RemoteAuth;
  admit =
      λ a now req. (let (answer, later) = answers now req in remote_admit answer now later req a);
  watch = λ a now req ref. (a, false);
}

module _ (lib : Libraries) where
  abbrev pub source_auth : Source → Authoriser
  source_auth (scoped scopes) = scoped_auth lib.sha256
  source_auth (remote url) = remote_auth lib.answers
  source_auth (static tokens) = from_auth (static_auth lib.sha256 lib.zero_digest tokens)

  abbrev pub source_state : (x : Source) → (source_auth x).State
  source_state (scoped scopes) = scopes
  source_state (remote url) = new_remote_auth
  source_state (static tokens) = tt

  -- The part of `wrap` that reads the key: no key is no verifier.
  unfoldable pub lease_settings : Settled → Outcome Settings
  unfolding parse_public_key ed25519_verifier trim_space
  lease_settings env =
      let text = trim_space env.lease_key in
      let settings : Option (Text → Text → Bool) → Settings =
        λ verify. record { wire = lib.wire; verify = verify; audience = [] } in
      if is_empty text then serves (settings none) else elim (parse_public_key lib.decoders text) [
        | key k ↦ serves (settings (some (ed25519_verifier lib.ed25519 k)))
        | _ ↦ exits bad_lease_key
      ]

  abbrev pub wrap : Settled → Settings → Authoriser → Authoriser
  wrap env c a = authority_auth c (tenant (truthy env.hosted) a)

  -- The start of `serve`: the disk is `none` where the directory cannot be used.
  unfoldable pub open_store : Settled → Text → Option Spool → Outcome Store
  unfolding open_spool trim_space
  open_store env epoch disk =
      let dir = trim_space env.spool in
      let (s, report) = open_spool lib.codec dir disk (new_store epoch) in
      if is_empty dir
      then serves (new_store epoch)
      else elim report [ none ↦ exits bad_spool | some _ ↦ serves s ]

  -- selfHash, on the bytes of the executable.
  unfoldable pub self_hash : Option Text → Text
  self_hash none = []
  self_hash (some executable) = lib.hex (lib.sha256 executable)

  pub record Relay : Type 1 where
    pub auth : Authoriser
    pub server : Server auth.State

  abbrev pub no_floors : Floors
  no_floors = record { epoch = []; watchers = [] }

  -- newServer.
  abbrev pub new_relay : (a : Authoriser) → a.State → Store → Text → Option Text → Relay
  new_relay a st store version executable = record {
    auth = a;
    server = record (new_authorising_server store st) {
      version = version;
      hash = self_hash executable;
    };
  }

  -- main, up to the point where the server listens.
  unfoldable pub boot : Settled → Text → Text → Option Text → Option Spool → Outcome Relay
  unfolding configure lease_settings open_store
  boot env version epoch executable disk = elim (configure lib.sha256 lib.zero_digest env.sources) [
    | exits f ↦ exits f
    | serves x ↦ elim (lease_settings env) [
      | exits f ↦ exits f
      | serves c ↦ elim (open_store env epoch disk) [
        | exits f ↦ exits f
        | serves store ↦ serves (
            new_relay (wrap env c (source_auth x)) ((no_floors, source_state x), 0) store version
              executable)
      ]
    ]
  ]
