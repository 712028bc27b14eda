-- ===== src/Config/StartTests.antt =====
-- Instances of the theorems on what is started.
use heliograph_relay.Common.{
  ◌≡◌, ◌⊎◌, refl, true, false, some, none, [], ◌∷◌, Text, bytes, same, lookup, insert, is_empty,
}
use heliograph_relay.Common.Split.{split, trim_space, trim_left, trim_right, to_lower}
use heliograph_relay.Common.Separators.{cons_injective}
use heliograph_relay.Relay.Message.{valid_dir}
use heliograph_relay.Auth.Types.{
  Request, station_scoped, permits, contains, refusal, authority_unverifiable,
}
use heliograph_relay.Auth.Scoped.{c2s, s2c, scoped_auth, scoped_admit, scope_of, narrow}
use heliograph_relay.Auth.Static.{StaticAuth, set_control, set_station, static_write, token_matches}
use heliograph_relay.Auth.Authority.{
  Authority, Signed, Settings, is, parse_authority, read_parts, authority_admit, new_authority,
}
use heliograph_relay.Auth.Bounds.{Honoured}
use heliograph_relay.Auth.Minting.{minted, parse-new_authority}
use heliograph_relay.Auth.Remote.{unreachable}
use heliograph_relay.Auth.Tests.{request, no_floors, digest, scopes}
use heliograph_relay.Auth.MintingTests.{authority, wire, sign, base, begins, ends}
use heliograph_relay.Config.Estates.{
  Env, serves, static, truthy, configure, read_estates, read_estate,
}
use heliograph_relay.Config.Start.{Libraries, Settled, wrap, lease_settings}
use heliograph_relay.Config.Sides.{sides_apart}
use heliograph_relay.Config.Wrapping.{wrap_hosted, wrap_keyless}

abbrev one_estate : Env
one_estate = record { estates = bytes "e:c:t"; authoriser = []; stations = [] }

abbrev tokens : StaticAuth
tokens = record {
  control = (bytes "e", 0 ∷ bytes "c") ∷ [];
  station = (bytes "e", 0 ∷ bytes "t") ∷ [];
}

digest_injective : (s t : Text) → digest s ≡ digest t → s ≡ t
digest_injective s t h = (cons_injective 0 0 s t h).1

starts : configure digest [] one_estate ≡ serves (static tokens)
unfolding configure read_estates read_estate split trim_space trim_left trim_right set_control
    set_station insert same
starts = refl

controls : static_write digest [] tokens (bytes "c") (bytes "e") (bytes "s") c2s ≡ true
unfolding static_write token_matches lookup same
controls = refl

sides_apart_example : static_write digest [] tokens (bytes "c") (bytes "e") (bytes "s") s2c ≡ false
sides_apart_example =
    sides_apart digest [] digest_injective one_estate tokens (bytes "c") (bytes "e") (bytes "s")
      starts controls

abbrev libraries : Libraries
libraries = record {
  sha256 = digest;
  zero_digest = [];
  hex = λ t. t;
  decoders = record { hex = λ t. none; base64 = λ t. some t; base64_url = λ t. none };
  ed25519 = λ k p s. same p s;
  wire = wire;
  codec = record { marshal = λ h. []; unmarshal = λ t. none };
  answers = λ now req. (unreachable, now);
}

abbrev tenancy : Settled
tenancy = record { sources = one_estate; hosted = bytes "1"; lease_key = []; spool = [] }

abbrev keyless : Settings
keyless = record { wire = wire; verify = none; audience = [] }

flagged : truthy (bytes "1") ≡ true
unfolding truthy to_lower trim_space trim_left trim_right same
flagged = refl

admitted :
    ((wrap libraries tenancy keyless (scoped_auth digest)).admit
      ((no_floors, scopes), 0)
      1000
      request).1.allow
    ≡ true
unfolding authority_admit parse_authority read_parts split scoped_admit scope_of permits contains
    valid_dir lookup same narrow station_scoped truthy to_lower trim_space trim_left trim_right
admitted = refl

wrap_hosted_example :
    let g =
      ((wrap libraries tenancy keyless (scoped_auth digest)).admit
        ((no_floors, scopes), 0)
        1000
        request).1 in
    (station_scoped g.scope ≡ true)
    ⊎ ((auth : Authority) × (s : Signed) × (parse_authority wire request.credential ≡ is (auth, s))
        × Honoured keyless no_floors 1000 auth s request
        × (g.scope ≡ auth.scope))
wrap_hosted_example =
    wrap_hosted libraries tenancy keyless (scoped_auth digest) no_floors scopes 0 1000 request
      flagged admitted

abbrev shown : Request
shown = record request { credential = new_authority wire authority sign }

unset : lease_settings libraries tenancy ≡ serves keyless
unfolding lease_settings trim_space trim_left trim_right
unset = refl

blank : is_empty (trim_space []) ≡ true
unfolding trim_space trim_left trim_right
blank = refl

wrap_keyless_example :
    (wrap libraries tenancy keyless (scoped_auth digest)).admit ((no_floors, scopes), 0) 1000 shown
    ≡ (((no_floors, scopes), 0), refusal authority_unverifiable)
wrap_keyless_example =
    wrap_keyless libraries tenancy keyless (scoped_auth digest) no_floors scopes 0 1000 shown
      (minted wire authority sign).0 (minted wire authority sign).1 blank unset
      (parse-new_authority wire authority sign base refl begins ends)
