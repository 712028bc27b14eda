-- ===== src/Auth/Roles.antt =====
-- scope.go: ParseStationScopes gives each credential one side.
use mathlib.Core.Path.{subst}
use heliograph_relay.Common.{
  ℕ, zero, suc, ◌≡◌, refl, sym, ap, ◌∙◌, ◌⊎◌, inl, inr, Bool, true, false, not, ◌||◌, some, List,
  [], ◌∷◌, Text, same, same_iff, Dict, lookup, insert, lookup-insert, is_empty, any, arith,
  Bool-cases, Option-cases,
}
use heliograph_relay.Common.Split.{split, trim_space}
use heliograph_relay.Auth.Types.{Op, Request, Scope, contains}
use heliograph_relay.Auth.Scoped.{
  c2s, s2c, role_dirs, ScopeTable, roles_of, widened, list_station, read_entry, read_entries,
  parse_station_scopes, Parsed, parsed, fault, ScopeError, scope_of, scoped_admit, add,
}
use heliograph_relay.Auth.Bounded.{scoped_admits}

-- A scope reads one direction and writes the other.
abbrev OneSided : Scope → Type 0
OneSided s =
    ((s.read ≡ c2s ∷ []) × (s.write ≡ s2c ∷ [])) ⊎ ((s.read ≡ s2c ∷ []) × (s.write ≡ c2s ∷ []))

abbrev Sided : Dict Scope → Type 0
Sided d = (k : Text) (s : Scope) → lookup k d ≡ some s → OneSided s

role_dirs-OneSided :
    (role : Text) (rd wr : List Text)
    → role_dirs role ≡ some (rd, wr)
    → ((rd ≡ c2s ∷ []) × (wr ≡ s2c ∷ [])) ⊎ ((rd ≡ s2c ∷ []) × (wr ≡ c2s ∷ []))
unfolding role_dirs
role_dirs-OneSided role rd wr h = ground (arith, h)

-- What holds of what is parsed, where anything is.
abbrev pub Yields {ℓ κ} : {A : Type ℓ} → (A → Type κ) → Parsed A → Type κ
Yields P (parsed a) = P a
Yields P (fault f) = Unit

pub Yields-map {ℓ κ μ} :
    {A : Type ℓ} (P : A → Type κ) (Q : A → Type μ) (p : Parsed A)
    → ((a : A) → P a → Q a)
    → Yields P p
    → Yields Q p
Yields-map P Q (parsed a) f h = f a h
Yields-map P Q (fault e) f h = tt

pub Parsed-cases {ℓ} :
    {A : Type ℓ} (p : Parsed A) → ((f : ScopeError) × (p ≡ fault f)) ⊎ ((a : A) × (p ≡ parsed a))
Parsed-cases (parsed a) = inr (a, refl)
Parsed-cases (fault f) = inl (f, refl)

same_some : (s t : Scope) → some s ≡ some t → s ≡ t
same_some s t e = ground (arith, e)

differ : (same c2s s2c ≡ false) × (same s2c c2s ≡ false)
unfolding same
differ = (refl, refl)

not_both :
    (x y dir : Text) → same x y ≡ false → same x dir ≡ true → same y dir ≡ true → true ≡ false
not_both x y dir d h k =
    sym ((same_iff x y).1 ((same_iff x dir).0 h ∙ sym ((same_iff y dir).0 k))) ∙ d

either : (b : Bool) → b || false ≡ true → b ≡ true
either b h = ground arith

both_ways :
    (dir : Text) (s : Scope)
    → OneSided s
    → contains dir s.read ≡ true
    → contains dir s.write ≡ true
    → ⊥
unfolding contains
both_ways dir s (inl (r, w)) h k =
    let rd = either (same c2s dir) (sym (ap (contains dir) r) ∙ h) in
    let wr = either (same s2c dir) (sym (ap (contains dir) w) ∙ k) in
    ground (arith, not_both c2s s2c dir differ.0 rd wr)
both_ways dir s (inr (r, w)) h k =
    let rd = either (same s2c dir) (sym (ap (contains dir) r) ∙ h) in
    let wr = either (same c2s dir) (sym (ap (contains dir) w) ∙ k) in
    ground (arith, not_both s2c c2s dir differ.1 rd wr)

insert-Sided : (k : Text) (s : Scope) (d : Dict Scope) → OneSided s → Sided d → Sided (insert k s d)
insert-Sided k s d one h j t e =
    let found = lookup-insert k j s d in
    elim (Bool-cases (same k j)) [
      | inl here ↦ subst OneSided (same_some s t (sym (found ∙ rw here refl) ∙ e)) one
      | inr there ↦ h j t (sym (found ∙ rw there refl) ∙ e)
    ]

module _ (sha256 : Text → Text) where
  abbrev P : ScopeTable → Type 0
  P t = Sided t.scopes

  list_station-Sided :
      (t : ScopeTable) (estate station role credential : Text) (rd wr : List Text)
      → role_dirs role ≡ some (rd, wr)
      → P t
      → P (list_station sha256 t estate station role credential (rd, wr))
  unfolding list_station add widened
  list_station-Sided t estate station role credential rd wr e h =
      insert-Sided (sha256 credential) (widened sha256 t credential estate station rd wr) t.scopes
        (role_dirs-OneSided role rd wr e) h

  -- An entry that is taken: what it lists, and that its credential had no other role.
  abbrev pub Taken : List Text → ScopeTable → ScopeTable → Type 0
  Taken parts t t' =
      (estate : Text) × (station : Text) × (role : Text) × (credential : Text) × (rd : List Text)
      × (wr : List Text) × (parts ≡ estate ∷ station ∷ role ∷ credential ∷ [])
      × (role_dirs role ≡ some (rd, wr))
      × (any (λ r. not (same r role)) (roles_of t credential) ≡ false)
      × (t' ≡ list_station sha256 t estate station role credential (rd, wr))

  pub read_entry-Taken :
      (entry : Text) (parts : List Text) (t : ScopeTable)
      → Yields (Taken parts t) (read_entry sha256 entry parts t)
  unfolding read_entry
  read_entry-Taken entry [] t = tt
  read_entry-Taken entry (a ∷ []) t = tt
  read_entry-Taken entry (a ∷ b ∷ []) t = tt
  read_entry-Taken entry (a ∷ b ∷ c ∷ []) t = tt
  read_entry-Taken entry (a ∷ b ∷ c ∷ d ∷ e ∷ ps) t = tt
  read_entry-Taken entry (estate ∷ station ∷ role ∷ credential ∷ []) t =
      elim (Bool-cases (is_empty estate || is_empty station || is_empty credential)) [
        | inl bad ↦ rw bad tt
        | inr good ↦ elim (Option-cases (role_dirs role)) [
          | inl unknown ↦ rw (good, read_entry, unknown) tt
          | inr ((rd, wr), dirs) ↦
              elim (Bool-cases (any (λ r. not (same r role)) (roles_of t credential))) [
                | inl both ↦ rw (good, read_entry, dirs, both) tt
                | inr one ↦
                    rw (good, read_entry, dirs, one)
                      (estate, station, role, credential, rd, wr, refl, dirs, one, refl)
              ]
        ]
      ]

  read_entry-Yields :
      (entry : Text) (parts : List Text) (t : ScopeTable)
      → P t
      → Yields P (read_entry sha256 entry parts t)
  read_entry-Yields entry parts t h =
      Yields-map (Taken parts t) P (read_entry sha256 entry parts t)
        (λ t' (estate, station, role, credential, rd, wr, _, dirs, _, e).
          subst P (sym e) (list_station-Sided t estate station role credential rd wr dirs h))
        (read_entry-Taken entry parts t)

  read_entries-Yields :
      (es : List Text) (t : ScopeTable) → P t → Yields P (read_entries sha256 es t)
  unfolding read_entries
  read_entries-Yields [] t h = h
  read_entries-Yields (e ∷ es) t h =
      let entry = trim_space e in
      let read = read_entry sha256 entry (split b':' entry) t in
      let first = read_entry-Yields entry (split b':' entry) t h in
      elim (Bool-cases (is_empty entry)) [
        | inl nothing ↦ rw (read_entries, nothing) (read_entries-Yields es t h)
        | inr something ↦ elim (Parsed-cases read) [
          | inl (f, p) ↦ rw (read_entries, something, p) tt
          | inr (t', p) ↦
              rw (read_entries, something, p) (read_entries-Yields es t' (subst (Yields P) p first))
        ]
      ]

  abbrev pub no_entries : ScopeTable
  no_entries = record { scopes = []; roles = []; count = 0 }

  none-Sided : Sided []
  unfolding lookup
  none-Sided k s e = absurd (ground (arith, e))

  counted :
      (t : ScopeTable) (n : ℕ)
      → P t
      → Yields Sided (elim n [ zero ↦ fault ScopeError.nothing | suc _ ↦ parsed t.scopes ])
  counted t zero h = tt
  counted t (suc n) h = h

  parse_station_scopes-Yields : (spec : Text) → Yields Sided (parse_station_scopes sha256 spec)
  unfolding parse_station_scopes
  parse_station_scopes-Yields spec =
      let entries = read_entries sha256 (split b',' spec) no_entries in
      let read = read_entries-Yields (split b',' spec) no_entries none-Sided in
      elim (Parsed-cases entries) [
        | inl (f, p) ↦ rw (parse_station_scopes, p) tt
        | inr (t, p) ↦ rw (parse_station_scopes, p) (counted t t.count (subst (Yields P) p read))
      ]

  -- What is parsed lets no credential both read and write in one direction of a route.
  pub scopes_sided :
      (spec : Text) (a : Dict Scope) (req : Request)
      → parse_station_scopes sha256 spec ≡ parsed a
      → (scoped_admit sha256 a (record req { op = Op.read })).allow ≡ true
      → (scoped_admit sha256 a (record req { op = Op.write })).allow ≡ false
  unfolding lookup scope_of
  scopes_sided spec a req e reads =
      let sided : Sided a = subst (Yields Sided) e (parse_station_scopes-Yields spec) in
      let (_, (s, found, (_, _, _, _, _, covered))) =
        (scoped_admits sha256 a (record req { op = Op.read })).0 reads in
      elim (Bool-cases (scoped_admit sha256 a (record req { op = Op.write })).allow) [
        | inr refused ↦ refused
        | inl writes ↦
            let (_, (t, found', (_, _, _, _, _, covered'))) =
              (scoped_admits sha256 a (record req { op = Op.write })).0 writes in
            let one = sided (sha256 req.credential) s found in
            let alike : s ≡ t = same_some s t (sym found ∙ found') in
            absurd (
              both_ways req.dir s one covered
                (subst (λ x. contains req.dir x.write ≡ true) (sym alike) covered'))
      ]
