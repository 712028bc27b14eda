-- ===== src/Conformance/SurvivalTests.antt =====
-- The section on durability against the relay of TestBench.
use heliograph_relay.Common.{
  ◌≡◌, refl, sym, ◌∙◌, ◌⊎◌, inl, inr, Bool, true, false, Text, bytes, same, if◌then◌else◌, ◌==◌,
}
use heliograph_relay.Relay.Message.{Message}
use heliograph_relay.Spool.Disk.{Codec, head_of}
use heliograph_relay.Auth.Scoped.{c2s}
use heliograph_relay.Server.Tests.{floats}
use heliograph_relay.Recovery.Mirror.{Survives}
use heliograph_relay.Recovery.Tests.{present}
use heliograph_relay.Conformance.Durability.{durability, report, durable_station, collected_station}
use heliograph_relay.Conformance.Machine.{machine}
use heliograph_relay.Conformance.Survival.{durability_passes}
use heliograph_relay.Conformance.TestBench.{
  target, uniq, tokens, coded, coded-Survives, bench, calm, keeps, sends, collects, relay, ready,
  vacant,
}

abbrev codec : Codec
codec =
    coded (λ h. same h.station (durable_station uniq)) (durable_station uniq)
      (collected_station uniq) c2s c2s

one_of_two :
    (st : Text)
    → (st ≡ durable_station uniq) ⊎ (st ≡ collected_station uniq)
    → (if (if same st (durable_station uniq) then 11 else 12) == 11
        then durable_station uniq
        else collected_station uniq)
      ≡ st
unfolding same
one_of_two st (inl e) = rw e refl
one_of_two st (inr e) = rw e refl

always : (b : Bool) (t : Text) → (if (if b then 11 else 12) == 11 then t else t) ≡ t
always true t = refl
always false t = refl

survives_on :
    (x : Message)
    → x.estate ≡ bytes "e1"
    → (x.station ≡ durable_station uniq) ⊎ (x.station ≡ collected_station uniq)
    → x.dir ≡ c2s
    → Survives codec x
unfolding head_of
survives_on x e st d =
    coded-Survives (λ h. same h.station (durable_station uniq)) (durable_station uniq)
      (collected_station uniq) c2s c2s x e (one_of_two x.station st)
      (always (same x.station (durable_station uniq)) c2s ∙ sym d)

durability_passes_example :
    report (durability (machine codec floats tokens bench) target uniq relay).1
    ≡ (record { pass = 4; fail = 0; skipped = 0 }, true)
durability_passes_example =
    durability_passes codec floats tokens bench target (λ st. Unit {0}) keeps sends collects present
      1 calm tt uniq refl survives_on relay (ready codec) (vacant _) (vacant _)
