-- ===== src/Config/Sides.antt =====
-- What a configuration of estates guarantees: the two sides of an estate stay apart.
use mathlib.Core.Path.{subst}
use heliograph_relay.Common.{
  ◌≡◌, ◌≢◌, refl, inl, inr, ◌⊎◌, true, false, not, ◌||◌, List, [], ◌∷◌, Text, same, same_iff,
  same_refl, Dict, lookup, lookup-insert, is_empty, arith, Bool-cases, on_both,
}
use heliograph_relay.Common.Split.{split, trim_space}
use heliograph_relay.Auth.Types.{Scope}
use heliograph_relay.Auth.Scoped.{c2s, s2c, Parsed, parsed, fault, parse_station_scopes}
use heliograph_relay.Auth.Static.{
  StaticAuth, new_static_auth, set_control, set_station, token_matches, static_write,
}
use heliograph_relay.Config.Estates.{
  Outcome, serves, exits, Fault, Env, Source, scoped, remote, static, bad_stations, read_estate,
  read_estates, configure,
}

-- What holds of what is served, where anything is.
abbrev Served {ℓ κ} : {A : Type ℓ} → (A → Type κ) → Outcome A → Type κ
Served P (serves a) = P a
Served P (exits f) = Unit

Outcome-cases {ℓ} :
    {A : Type ℓ} (o : Outcome A) → ((f : Fault) × (o ≡ exits f)) ⊎ ((a : A) × (o ≡ serves a))
Outcome-cases (serves a) = inr (a, refl)
Outcome-cases (exits f) = inl (f, refl)

apart : (s t : Text) → same s t ≡ false → s ≢ t
apart s t h p = ground (arith, same_iff s t, h, p)

sides_differ : same s2c c2s ≡ false
unfolding same
sides_differ = refl

module _ (sha256 : Text → Text) (zero_digest : Text) where
  -- No digest is both sides' for one estate.
  abbrev pub Separate : StaticAuth → Type 0
  Separate a =
      (e digest : Text)
      → token_matches zero_digest (lookup e a.control) digest ≡ true
      → token_matches zero_digest (lookup e a.station) digest ≡ false

  empty-Separate : Separate new_static_auth
  unfolding token_matches lookup
  empty-Separate e digest h = refl

  module _ (injective : (s t : Text) → sha256 s ≡ sha256 t → s ≡ t) where
    set-Separate :
        (estate control station : Text) (a : StaticAuth)
        → control ≢ station
        → Separate a
        → Separate (
            set_station sha256 zero_digest estate station
              (set_control sha256 zero_digest estate control a))
    unfolding set_station set_control token_matches
    set-Separate estate control station a differ h e digest m = ground (
      arith,
      lookup-insert estate e (sha256 control) a.control,
      lookup-insert estate e (sha256 station) a.station,
      same_iff (sha256 control) digest,
      same_iff (sha256 station) digest,
      h e digest,
      m,
      injective control station,
      differ,
    )

    read_estate-Served :
        (e : Text) (parts : List Text) (a : StaticAuth)
        → Separate a
        → Served Separate (read_estate sha256 zero_digest e parts a)
    unfolding read_estate
    read_estate-Served e [] a h = tt
    read_estate-Served e (x ∷ []) a h = tt
    read_estate-Served e (x ∷ y ∷ []) a h = tt
    read_estate-Served e (estate ∷ control ∷ station ∷ []) a h =
        elim (Bool-cases (is_empty estate || is_empty control || is_empty station)) [
          | inl bad ↦ rw bad tt
          | inr good ↦ elim (Bool-cases (same control station)) [
            | inl one ↦ rw (good, one) tt
            | inr two ↦
                rw (good, two)
                  (set-Separate estate control station a (λ p. apart control station two p) h)
          ]
        ]
    read_estate-Served e (x ∷ y ∷ z ∷ w ∷ ps) a h = tt

    read_estates-Served :
        (es : List Text) (a : StaticAuth)
        → Separate a
        → Served Separate (read_estates sha256 zero_digest es a)
    unfolding read_estates
    read_estates-Served [] a h = h
    read_estates-Served (e ∷ es) a h =
        let parts = split b':' (trim_space e) in
        let first = read_estate-Served e parts a h in
        elim (Outcome-cases (read_estate sha256 zero_digest e parts a)) [
          | inl (f, p) ↦ rw (read_estates, p) tt
          | inr (a', p) ↦
              rw (read_estates, p) (read_estates-Served es a' (subst (Served Separate) p first))
        ]

    -- What holds of the source that is configured.
    abbrev Sided : Source → Type 0
    Sided (scoped scopes) = Unit
    Sided (remote url) = Unit
    Sided (static a) = Separate a

    scopes-Served :
        (r : Parsed (Dict Scope))
        → Served Sided (elim r [ fault f ↦ exits bad_stations | parsed a ↦ serves (scoped a) ])
    scopes-Served (parsed a) = tt
    scopes-Served (fault f) = tt

    estates-Served :
        (o : Outcome StaticAuth)
        → Served Separate o
        → Served Sided (elim o [ exits f ↦ exits f | serves a ↦ serves (static a) ])
    estates-Served (serves a) h = h
    estates-Served (exits f) h = tt

    configure-Served : (env : Env) → Served Sided (configure sha256 zero_digest env)
    unfolding configure
    configure-Served env =
        let stations = trim_space env.stations in
        let url = trim_space env.authoriser in
        let has_spec = not (is_empty (trim_space env.estates)) in
        let P = Served Sided in
        on_both P (not (is_empty stations))
          (on_both P (not (is_empty url) || has_spec) tt
            (scopes-Served (parse_station_scopes sha256 stations)))
          (on_both P (not (is_empty url)) tt (
            on_both P (not has_spec) tt (
              estates-Served
                (read_estates sha256 zero_digest (split b',' env.estates) new_static_auth)
                (read_estates-Served (split b',' env.estates) new_static_auth empty-Separate))))

    -- Whatever estates the environment configures, and however often it names one, no token that may
    -- write to an estate as its control may write to it as its station: the configuration that would
    -- allow it is refused. The digest must tell any two tokens apart.
    pub sides_apart :
        (env : Env) (a : StaticAuth) (token estate station : Text)
        → configure sha256 zero_digest env ≡ serves (static a)
        → static_write sha256 zero_digest a token estate station c2s ≡ true
        → static_write sha256 zero_digest a token estate station s2c ≡ false
    unfolding static_write
    sides_apart env a token estate station e h =
        let separate : Separate a = subst (Served Sided) e (configure-Served env) in
        ground
          (arith, separate estate (sha256 token), h, same_refl c2s, same_refl s2c, sides_differ)
