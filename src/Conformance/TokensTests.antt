-- ===== src/Conformance/TokensTests.antt =====
-- The first sections of Run against the relay of TestBench.
use heliograph_relay.Common.{
  ◌≡◌, refl, sym, ◌∙◌, ◌⊎◌, inl, inr, Bool, true, false, [], Text, bytes, same, ◌==◌, insert,
  lookup, if◌then◌else◌,
}
use heliograph_relay.Common.Split.{cut_prefix, trim_space, trim_left, trim_right}
use heliograph_relay.Relay.Message.{Message}
use heliograph_relay.Spool.Disk.{Codec, head_of}
use heliograph_relay.Auth.Scoped.{c2s, s2c}
use heliograph_relay.Auth.Static.{StaticAuth, new_static_auth, set_control, set_station}
use heliograph_relay.Relay.Message.{valid_route}
use heliograph_relay.Server.Reply.{token}
use heliograph_relay.Server.Tests.{floats}
use heliograph_relay.Recovery.Mirror.{Survives}
use heliograph_relay.Recovery.Tests.{present}
use heliograph_relay.Conformance.Durability.{report}
use heliograph_relay.Conformance.Exchange.{exchange_sections}
use heliograph_relay.Conformance.Machine.{machine}
use heliograph_relay.Conformance.Tokens.{TwoTokens, tokens_pass}
use heliograph_relay.Conformance.TestBench.{
  target, uniq, tag, tokens, coded, coded-Survives, bench, calm, relay, ready, vacant,
}

abbrev codec : Codec
codec = coded (λ h. same h.dir c2s) uniq uniq c2s s2c

one_way :
    (d : Text)
    → (d ≡ c2s) ⊎ (d ≡ s2c)
    → (if (if same d c2s then 11 else 12) == 11 then c2s else s2c) ≡ d
unfolding same
one_way d (inl e) = rw e refl
one_way d (inr e) = rw e refl

always : (b : Bool) (t : Text) → (if (if b then 11 else 12) == 11 then t else t) ≡ t
always true t = refl
always false t = refl

survives_on :
    (x : Message)
    → x.estate ≡ bytes "e1"
    → x.station ≡ uniq
    → (x.dir ≡ c2s) ⊎ (x.dir ≡ s2c)
    → Survives codec x
unfolding head_of
survives_on x e st d =
    coded-Survives (λ h. same h.dir c2s) uniq uniq c2s s2c x e
      (always (same x.dir c2s) uniq ∙ sym st) (one_way x.dir d)

abbrev pub set : StaticAuth
set =
    set_control tag [] (bytes "e1") (bytes "secret")
      (set_station tag [] (bytes "e1") (bytes "other") new_static_auth)

pub two : TwoTokens tag [] set target
unfolding set_control set_station insert lookup token cut_prefix trim_space trim_left trim_right
    same
two = record {
  named = refl;
  control_named = refl;
  station_named = refl;
  control_set = refl;
  station_set = refl;
  control_live = refl;
  station_live = refl;
  apart = refl;
  apart' = refl;
  stranger = refl;
  stranger' = refl;
}

routed : valid_route (bytes "e1") uniq c2s ≡ true
unfolding valid_route same
routed = refl

tokens_pass_example :
    report (exchange_sections (machine codec floats tokens bench) target uniq relay).1
    ≡ (record { pass = 17; fail = 0; skipped = 0 }, true)
tokens_pass_example =
    tokens_pass tag [] set target two codec floats bench present 1 calm uniq routed survives_on
      relay (ready codec) (vacant _) (vacant _)
