-- ===== src/Conformance/TestBench.antt =====
-- A relay with two tokens and an empty spool, for the tests.
use heliograph_relay.Common.{
  ℕ, ◌+◌, ◌-◌, ◌≡◌, ◌≢◌, refl, sym, Bool, true, false, none, some, [], ◌∷◌, Text, bytes, same,
  length, is_empty, lookup, insert, arith, if◌then◌else◌, ◌==◌,
}
use heliograph_relay.Common.Separators.{Lacks}
use heliograph_relay.Common.Split.{cut_prefix, trim_space, trim_left, trim_right}
use heliograph_relay.Relay.Message.{Message, valid_dir, valid_route}
use heliograph_relay.Relay.Store.{new_store, queue}
use heliograph_relay.Relay.Leased.{is_blank}
use heliograph_relay.Spool.Disk.{Head, Codec, head_of}
use heliograph_relay.Auth.Types.{Reason}
use heliograph_relay.Auth.Scoped.{Authoriser, c2s}
use heliograph_relay.Auth.Static.{
  static_auth, from_auth, new_static_auth, set_control, set_station, adapter_admit, adapt,
  static_read, static_write, token_matches,
}
use heliograph_relay.Server.Put.{cap}
use heliograph_relay.Server.Reply.{token}
use heliograph_relay.Server.Service.{new_authorising_server}
use heliograph_relay.Recovery.Mirror.{Survives}
use heliograph_relay.Recovery.Runs.{new_store-Mirrored}
use heliograph_relay.Recovery.Tests.{disk, begin, present}
use heliograph_relay.Conformance.Client.{Target}
use heliograph_relay.Conformance.Machine.{Bench, Machine}
use heliograph_relay.Conformance.Ready.{DeniesRead, Sends, Collects, Keeps, Calm, Ready}

abbrev pub target : Target
target = record {
  estate = bytes "e1";
  station = bytes "st";
  control = bytes "secret";
  station_tok = bytes "other";
  other_estate = bytes "e2";
}

abbrev pub uniq : Text
uniq = bytes "st-1"

-- The digest of the tests tags what it digests.
abbrev pub tag : Text → Text
tag t = 1 ∷ t

abbrev pub tokens : Authoriser
tokens = from_auth (
    static_auth tag [] (
      set_control tag [] (bytes "e1") (bytes "secret")
        (set_station tag [] (bytes "e1") (bytes "other") new_static_auth)))

-- Texts without a line feed, and back.
abbrev shift : Text → Text
shift [] = []
shift (x ∷ s) = (x + 11) ∷ shift s

abbrev unshift : Text → Text
unshift [] = []
unshift (x ∷ s) = (x - 11) ∷ unshift s

unshift-shift : (s : Text) → unshift (shift s) ≡ s
unshift-shift [] = refl
unshift-shift (x ∷ s) = ground (arith, unshift-shift s)

shift-Lacks : (s : Text) → Lacks 10 (shift s)
shift-Lacks [] = tt
shift-Lacks (x ∷ s) = (λ p. absurd (omega (arith, p)), shift-Lacks s)

-- A codec for the heads of one estate and two routes, which `mark` tells apart.
abbrev pub coded : (Head → Bool) → Text → Text → Text → Text → Codec
coded mark st st' dir dir' = record {
  marshal = λ h. (if mark h then 11 else 12) ∷ (h.seq + 11) ∷ (h.at + 11) ∷ shift h.id;
  unmarshal = λ text. elim text [
    | kind ∷ (seq ∷ (at ∷ id)) ↦ some (record {
      id = unshift id;
      estate = bytes "e1";
      station = if kind == 11 then st else st';
      dir = if kind == 11 then dir else dir';
      seq = seq - 11;
      at = at - 11;
    })
    | _ ↦ none
  ];
}

sub_add : (n : ℕ) → (n + 11) - 11 ≡ n
sub_add n = omega arith

kind_ne : (b : Bool) → ◌≢◌ {A = ℕ} (if b then 11 else 12) 10
kind_ne true p = absurd (omega (arith, p))
kind_ne false p = absurd (omega (arith, p))

pub coded-Survives :
    (mark : Head → Bool) (st st' dir dir' : Text) (x : Message)
    → x.estate ≡ bytes "e1"
    → (if (if mark (head_of x) then 11 else 12) == 11 then st else st') ≡ x.station
    → (if (if mark (head_of x) then 11 else 12) == 11 then dir else dir') ≡ x.dir
    → Survives (coded mark st st' dir dir') x
coded-Survives mark st st' dir dir' x e p q =
    let here : Survives (coded mark st st' dir dir') x =
      unfold head_of in
      record {
        back = λ i. some (record {
          id = unshift-shift x.id i;
          estate = sym e i;
          station = p i;
          dir = q i;
          seq = sub_add x.seq i;
          at = sub_add (head_of x).at i;
        });
        line = (
          kind_ne (mark (head_of x)),
          (λ r. absurd (omega (arith, r)), (λ r. absurd (omega (arith, r)), shift-Lacks x.id)),
        );
      } in
    here

pub named_station :
    (station : Text) → valid_route (bytes "e1") station c2s ≡ true → is_empty station ≡ false
unfolding valid_route same
named_station [] h = cc
named_station (x ∷ s) h = refl

other_station :
    (station : Text) → valid_route (bytes "e2") station c2s ≡ true → is_empty station ≡ false
unfolding valid_route same
other_station [] h = cc
other_station (x ∷ s) h = refl

pub keeps : Keeps tokens (λ st. Unit {0})
keeps st now req h = tt

pub sends : Sends tokens (λ st. Unit {0}) (bytes "e1") c2s (bytes "secret")
unfolding adapter_admit adapt static_read static_write token_matches set_control set_station same
    lookup insert token cut_prefix trim_space trim_left trim_right valid_dir cap
sends st now station size valid h = rw (named_station station valid) (refl, refl)

pub collects : Collects tokens (λ st. Unit {0}) (bytes "e1") c2s (bytes "other")
unfolding adapter_admit adapt static_read static_write token_matches set_control set_station same
    lookup insert token cut_prefix trim_space trim_left trim_right valid_dir cap
collects st now station valid h = rw (named_station station valid) refl

abbrev pub bench : Bench (Unit {0})
bench = record {
  size = λ seq body. length body + 40;
  stamp = λ at. bytes "later";
  lag = λ i. 1000;
  dir = bytes "spool";
  epoch = λ i. bytes "y";
  first = tt;
}

pub calm : Calm bench present 1
unfolding is_blank
calm = record {
  prompt = λ i. omega arith;
  named = refl;
  early = omega arith;
  late = omega arith;
  numbers = omega arith;
  compact = λ seq body. omega arith;
}

abbrev pub relay : Machine (Unit {0})
relay = record { now = present; server = new_authorising_server begin tt; sends = 0; starts = 1 }

pub ready : (c : Codec) → Ready c (λ st. Unit {0}) present 1 0 relay
unfolding new_store
ready c = record {
  sane = tt;
  mirrored = new_store-Mirrored c (bytes "x") disk refl (λ name. refl) (λ name. refl) refl;
  ttl = refl;
  max = refl;
  after = omega arith;
  before = omega arith;
}

pub vacant : (k : Text) → queue k begin ≡ []
unfolding queue new_store lookup
vacant k = refl

pub foreign :
    DeniesRead tokens (λ st. Unit {0}) (bytes "e2") c2s (bytes "other") Reason.bad_credential
unfolding adapter_admit adapt static_read static_write token_matches set_control set_station same
    lookup insert token cut_prefix trim_space trim_left trim_right valid_dir cap
foreign st now station valid h = rw (other_station station valid) refl
