-- ===== src/Conformance/Tokens.antt =====
-- A relay with one token for each side judges the suite's credentials as the suite expects.
use heliograph_relay.Common.{
  ℕ, ◌≡◌, ◌⊎◌, refl, true, false, some, [], ◌∷◌, Text, same, same_refl, lookup, is_empty, arith,
}
use heliograph_relay.Common.Split.{cut_prefix, trim_space, trim_left, trim_right}
use heliograph_relay.Relay.Message.{Message, valid_dir, valid_route}
use heliograph_relay.Spool.Disk.{Codec}
use heliograph_relay.Auth.Scoped.{Authoriser, c2s, s2c}
use heliograph_relay.Auth.Static.{
  StaticAuth, static_auth, from_auth, adapter_admit, adapt, static_read, static_write,
  token_matches,
}
use heliograph_relay.Server.Put.{cap}
use heliograph_relay.Server.LeaseParam.{Floats}
use heliograph_relay.Recovery.Mirror.{Survives}
use heliograph_relay.Server.Reply.{token}
use heliograph_relay.Conformance.Client.{Target}
use heliograph_relay.Conformance.Exchange.{exchange_sections, wrong_token}
use heliograph_relay.Conformance.Machine.{Bench, Machine, machine, bearer}
use heliograph_relay.Conformance.Ready.{Calm, Ready, queue_at}
use heliograph_relay.Conformance.Durability.{report}
use heliograph_relay.Conformance.Passing.{Judges, exchange_passes}

pub named_station :
    (estate station dir : Text) → valid_route estate station dir ≡ true → is_empty station ≡ false
unfolding valid_route
named_station estate [] dir h = ground (arith, h)
named_station estate (x ∷ s) dir h = refl

blank_token : token (bearer []) ≡ []
unfolding token cut_prefix
blank_token = refl

stranger_token : token (bearer wrong_token) ≡ wrong_token
unfolding token cut_prefix trim_space trim_left trim_right
stranger_token = refl

-- A route that goes one way goes the other way too.
other_way :
    (estate station : Text)
    → valid_route estate station c2s ≡ true
    → valid_route estate station s2c ≡ true
unfolding valid_route same
other_way estate station h = ground (arith, h)

module _ (sha256 : Text → Text) (zero_digest : Text) (a : StaticAuth) (t : Target) where
  abbrev control : Text
  control = token (bearer t.control)

  abbrev station_tok : Text
  station_tok = token (bearer t.station_tok)

  -- The two tokens are set for the estate, and no two credentials of the suite share a digest.
  pub record TwoTokens : Type 0 where
    pub named : is_empty t.estate ≡ false
    pub control_named : is_empty control ≡ false
    pub station_named : is_empty station_tok ≡ false
    pub control_set : lookup t.estate a.control ≡ some (sha256 control)
    pub station_set : lookup t.estate a.station ≡ some (sha256 station_tok)
    pub control_live : same (sha256 control) zero_digest ≡ false
    pub station_live : same (sha256 station_tok) zero_digest ≡ false
    pub apart : same (sha256 control) (sha256 station_tok) ≡ false
    pub apart' : same (sha256 station_tok) (sha256 control) ≡ false
    pub stranger : same (sha256 control) (sha256 wrong_token) ≡ false
    pub stranger' : same (sha256 station_tok) (sha256 wrong_token) ≡ false

  module _ (h : TwoTokens) where
    abbrev auth : Authoriser
    auth = from_auth (static_auth sha256 zero_digest a)

    pub two_tokens-Judges : Judges auth (λ st. Unit {0}) t
    unfolding adapter_admit adapt static_read static_write token_matches cap same valid_dir
    two_tokens-Judges = record {
      control_sends = λ st now station size valid sane.
          rw
            (
              h.control_named,
              h.named,
              named_station t.estate station c2s valid,
              h.control_set,
              h.control_live,
              same_refl (sha256 control),
            )
            (refl, refl);
      station_sends = λ st now station size valid sane.
          rw
            (
              h.station_named,
              h.named,
              named_station t.estate station s2c valid,
              h.station_set,
              h.station_live,
              same_refl (sha256 station_tok),
            )
            (refl, refl);
      station_collects = λ st now station valid sane.
          rw
            (
              h.station_named,
              h.named,
              named_station t.estate station c2s valid,
              h.control_set,
              h.control_live,
              h.station_set,
              h.station_live,
              h.apart,
              same_refl (sha256 station_tok),
            )
            refl;
      control_collects = λ st now station valid sane.
          rw
            (
              h.control_named,
              h.named,
              named_station t.estate station s2c valid,
              h.control_set,
              h.control_live,
              same_refl (sha256 control),
            )
            refl;
      station_refused = λ st now station size valid sane.
          rw
            (
              h.station_named,
              h.named,
              named_station t.estate station c2s valid,
              h.control_set,
              h.control_live,
              h.station_set,
              h.station_live,
              h.apart,
              same_refl (sha256 station_tok),
            )
            refl;
      control_refused = λ st now station size valid sane.
          rw
            (
              h.control_named,
              h.named,
              named_station t.estate station s2c valid,
              h.station_set,
              h.station_live,
              h.control_set,
              h.control_live,
              h.apart',
              same_refl (sha256 control),
            )
            refl;
      nobody_sends = λ st now station size valid sane. rw blank_token refl;
      nobody_collects = λ st now station valid sane. rw blank_token refl;
      stranger_refused = λ st now station size valid sane.
          rw
            (
              stranger_token,
              h.named,
              named_station t.estate station c2s valid,
              h.control_set,
              h.control_live,
              h.station_set,
              h.station_live,
              h.stranger,
              h.stranger',
            )
            refl;
    }

    -- A relay with a spool and these two tokens passes the sections of Run on the exchange of a
    -- message, the two sides' scopes, missing and wrong credentials and the reasons given. Report counts
    -- seventeen passes and no failure. The disk must mirror the queues at first, those of the run's two
    -- routes be empty and no system call fail; the heads of the messages survive the codec; calls
    -- follow one another within the hour, in a time that a spool file holds; and file numbers and the
    -- marshalled bodies stay small.
    pub tokens_pass :
        (c : Codec) (fl : Floats) (b : Bench (Unit {0})) (begin file : ℕ) (calm : Calm b begin file)
        (uniq : Text)
        → valid_route t.estate uniq c2s ≡ true
        → ((x : Message)
            → x.estate ≡ t.estate
            → x.station ≡ uniq
            → (x.dir ≡ c2s) ⊎ (x.dir ≡ s2c)
            → Survives c x)
        → (w : Machine (Unit {0})) → Ready c (λ st. Unit {0}) begin file 0 w
        → queue_at t.estate uniq c2s w ≡ []
        → queue_at t.estate uniq s2c w ≡ []
        → report (exchange_sections (machine c fl auth b) t uniq w).1
          ≡ (record { pass = 17; fail = 0; skipped = 0 }, true)
    tokens_pass c fl b begin file calm uniq valid survives_on w ready vacant vacant' =
        exchange_passes c fl auth b t (λ st. Unit {0}) (λ st now req sane. tt) two_tokens-Judges
          begin file calm uniq valid (other_way t.estate uniq valid) survives_on w
          (ready, vacant, vacant')
