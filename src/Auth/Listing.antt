-- ===== src/Auth/Listing.antt =====
-- scope.go: ParseStationScopes refuses a configuration that lists a credential in two roles.
use mathlib.Core.Path.{subst}
use heliograph_relay.Common.{
  ◌≡◌, refl, sym, ap, ◌∙◌, ◌⊎◌, inl, inr, true, false, not, ◌&&◌, List, [], ◌∷◌, Some, Text, same,
  same_iff, same_refl, lookup, lookup-insert, is_empty, any, arith, Bool-cases, if◌then◌else◌, Dict,
}
use heliograph_relay.Common.Split.{split, trim_space}
use heliograph_relay.Auth.Types.{Op, Request, Scope, contains}
use heliograph_relay.Auth.Scoped.{
  ScopeTable, roles_of, list_station, read_entry, read_entries, parse_station_scopes, parsed, fault,
  ScopeError, scoped_admit,
}
use heliograph_relay.Auth.Roles.{
  Yields, Yields-map, Parsed-cases, Taken, read_entry-Taken, scopes_sided, no_entries,
}

-- An entry, as it stands between commas, lists the credential in this role.
abbrev pub Lists : Text → Text → Text → Type 0
Lists role credential e =
    (estate : Text) × (station : Text) × (split b':' (trim_space e)
      ≡ estate ∷ station ∷ role ∷ credential ∷ [])

-- No credential has two roles.
abbrev Uniform : ScopeTable → Type 0
Uniform t =
    (c r r' : Text) → contains r (roles_of t c) ≡ true → contains r' (roles_of t c) ≡ true → r ≡ r'

guarded :
    (role : Text) (seen : List Text) (r : Text)
    → any (λ x. not (same x role)) seen ≡ false
    → contains r seen ≡ true
    → r ≡ role
unfolding contains
guarded role [] r g h = absurd (ground (arith, h))
guarded role (x ∷ xs) r g h = elim (Bool-cases (same x r)) [
  | inl here ↦
      let e : same x role ≡ true = ground (arith, g) in
      sym ((same_iff x r).0 here) ∙ (same_iff x role).0 e
  | inr there ↦ guarded role xs r (ground (arith, g)) (ground (arith, h, there))
]

abbrev with_role : Text → List Text → List Text
with_role role seen = if contains role seen then seen else role ∷ seen

with_role-contains : (role : Text) (seen : List Text) → contains role (with_role role seen) ≡ true
unfolding contains
with_role-contains role seen = ground (arith, same_refl role)

with_role-keeps :
    (role : Text) (seen : List Text) (r : Text)
    → contains r seen ≡ true
    → contains r (with_role role seen) ≡ true
unfolding contains
with_role-keeps role seen r h = ground (arith, h)

with_role-one :
    (role : Text) (seen : List Text) (r : Text)
    → any (λ x. not (same x role)) seen ≡ false
    → contains r (with_role role seen) ≡ true
    → r ≡ role
unfolding contains
with_role-one role seen r g h = elim (Bool-cases (contains role seen)) [
  | inl old ↦
      guarded role seen r g (subst (λ b. contains r (if b then seen else role ∷ seen) ≡ true) old h)
  | inr new ↦
      let h' = subst (λ b. contains r (if b then seen else role ∷ seen) ≡ true) new h in
      elim (Bool-cases (same role r)) [
        | inl here ↦ sym ((same_iff role r).0 here)
        | inr there ↦ guarded role seen r g (ground (arith, h', there))
      ]
]

emptied : (t : Text) → is_empty t ≡ true → t ≡ []
emptied [] h = refl
emptied (x ∷ t) h = absurd (ground (arith, h))

faulty : (f : ScopeError) (a : Dict Scope) → fault f ≡ parsed a → ⊥
faulty f a e = absurd (ground (arith, e))

last_two :
    (a b c d a' b' c' d' : Text)
    → ◌≡◌ {A = List Text} (a ∷ b ∷ c ∷ d ∷ []) (a' ∷ b' ∷ c' ∷ d' ∷ [])
    → (c ≡ c') × (d ≡ d')
last_two a b c d a' b' c' d' e = (ground (arith, e), ground (arith, e))

blank_entry : (role c e : Text) → is_empty (trim_space e) ≡ true → Lists role c e → ⊥
unfolding split
blank_entry role c e blank (estate, station, p) =
    let nothing : trim_space e ≡ [] = emptied (trim_space e) blank in
    absurd (ground (arith, ap (split b':') (sym nothing) ∙ p))

module _ (sha256 : Text → Text) where
  listed-roles :
      (t : ScopeTable) (estate station role credential : Text) (rd wr : List Text) (c : Text)
      → roles_of (list_station sha256 t estate station role credential (rd, wr)) c
        ≡ (if same credential c then with_role role (roles_of t credential) else roles_of t c)
  unfolding list_station
  listed-roles t estate station role credential rd wr c =
      ground (arith, lookup-insert credential c (with_role role (roles_of t credential)) t.roles)

  -- What the entries lead to, from a table of one role each.
  abbrev Listed : ScopeTable → List Text → ScopeTable → Type 0
  Listed t es t' =
      Uniform t'
      × ((c r : Text) → contains r (roles_of t c) ≡ true → contains r (roles_of t' c) ≡ true)
      × ((role c : Text) → Some (Lists role c) es → contains role (roles_of t' c) ≡ true)

  list_station-Listed :
      (t : ScopeTable) (e : Text) (parts : List Text) (t' : ScopeTable)
      → split b':' (trim_space e) ≡ parts
      → Uniform t
      → Taken sha256 parts t t'
      → Listed t (e ∷ []) t'
  list_station-Listed t e parts t' cut one (estate, station, role, credential, rd, wr, p, _, g, q) =
      let seen = roles_of t credential in
      let roles : (c : Text)
          → roles_of t' c ≡ (if same credential c then with_role role seen else roles_of t c) =
        λ c.
          ap (λ (x : ScopeTable). roles_of x c) q
          ∙ listed-roles t estate station role credential rd wr c in
      (
        λ c r r' h h'. elim (Bool-cases (same credential c)) [
          | inl here ↦
              let there = roles c ∙ rw here refl in
              with_role-one role seen r g (sym (ap (contains r) there) ∙ h)
              ∙ sym (with_role-one role seen r' g (sym (ap (contains r') there) ∙ h'))
          | inr other ↦
              let there = roles c ∙ rw other refl in
              one c r r' (sym (ap (contains r) there) ∙ h) (sym (ap (contains r') there) ∙ h')
        ],
        λ c r h. elim (Bool-cases (same credential c)) [
          | inl here ↦
              let own : contains r seen ≡ true =
                ap (λ x. contains r (roles_of t x)) ((same_iff credential c).0 here) ∙ h in
              ap (contains r) (roles c ∙ rw here refl) ∙ with_role-keeps role seen r own
          | inr other ↦ ap (contains r) (roles c ∙ rw other refl) ∙ h
        ],
        λ role' c listed. elim listed [
          | inr none_left ↦ absurd none_left
          | inl (estate', station', p') ↦
              let (here, mine) =
                last_two estate station role credential estate' station' role' c
                  (sym p ∙ sym cut ∙ p') in
              subst (λ x. contains x (roles_of t' c) ≡ true) here
                (subst (λ x. contains role (roles_of t' x) ≡ true) mine
                  (ap (contains role) (roles credential ∙ rw (same_refl credential) refl)
                    ∙ with_role-contains role seen))
        ],
      )

  Listed-cons :
      (t : ScopeTable) (e : Text) (es : List Text) (t' t'' : ScopeTable)
      → Listed t (e ∷ []) t'
      → Listed t' es t''
      → Listed t (e ∷ es) t''
  Listed-cons t e es t' t'' (_, kept, added) (one, kept', added') = (
    one,
    λ c r h. kept' c r (kept c r h),
    λ role c listed. elim listed [
      | inl first ↦ kept' c role (added role c (inl first))
      | inr rest ↦ added' role c rest
    ],
  )

  read_entries-Listed :
      (es : List Text) (t : ScopeTable)
      → Uniform t
      → Yields (Listed t es) (read_entries sha256 es t)
  unfolding read_entries
  read_entries-Listed [] t one = (one, λ c r h. h, λ role c none_left. absurd none_left)
  read_entries-Listed (e ∷ es) t one =
      let entry = trim_space e in
      let parts = split b':' entry in
      elim (Bool-cases (is_empty entry)) [
        | inl blank ↦
            rw (read_entries, blank)
              (Yields-map (Listed t es) (Listed t (e ∷ es)) (read_entries sha256 es t)
                (λ t' (one', kept, added). (
                  one',
                  kept,
                  λ role c listed. elim listed [
                    | inl first ↦ absurd (blank_entry role c e blank first)
                    | inr rest ↦ added role c rest
                  ],
                ))
                (read_entries-Listed es t one))
        | inr something ↦ elim (Parsed-cases (read_entry sha256 entry parts t)) [
          | inl (f, p) ↦ rw (read_entries, something, p) tt
          | inr (t', p) ↦
              let first =
                list_station-Listed t e parts t' refl one (
                  subst (Yields (Taken sha256 parts t)) p
                    (read_entry-Taken sha256 entry parts t)) in
              rw (read_entries, something, p)
                (Yields-map (Listed t' es) (Listed t (e ∷ es)) (read_entries sha256 es t')
                  (λ t'' rest. Listed-cons t e es t' t'' first rest)
                  (read_entries-Listed es t' first.0))
        ]
      ]

  none-Uniform : Uniform (no_entries sha256)
  unfolding lookup contains
  none-Uniform c r r' h h' = absurd (ground (arith, h))

  agreed :
      (spec role role' credential : Text) (a : Dict Scope)
      → parse_station_scopes sha256 spec ≡ parsed a
      → Some (Lists role credential) (split b',' spec)
      → Some (Lists role' credential) (split b',' spec)
      → role ≡ role'
  unfolding parse_station_scopes
  agreed spec role role' credential a p here there =
      let start = no_entries sha256 in
      let es = split b',' spec in
      elim (Parsed-cases (read_entries sha256 es start)) [
        | inl (f, q) ↦ absurd (faulty f a (sym (rw (parse_station_scopes, q) refl) ∙ p))
        | inr (t, q) ↦
            let (one, _, added) =
              subst (Yields (Listed start es)) q (read_entries-Listed es start none-Uniform) in
            one credential role role' (added role credential here) (added role' credential there)
      ]

  -- A configuration of stations that lists a credential in a role and in a role is refused, or the two
  -- roles are the same; and then no credential may both read and write in one direction of any route,
  -- however many stations it is listed for.
  pub roles_apart :
      (spec role role' credential : Text)
      → Some (Lists role credential) (split b',' spec)
      → Some (Lists role' credential) (split b',' spec)
      → ((f : ScopeError) × (parse_station_scopes sha256 spec ≡ fault f))
        ⊎ ((role ≡ role')
            × ((a : Dict Scope) × (parse_station_scopes sha256 spec ≡ parsed a)
                × ((req : Request)
                    → ((scoped_admit sha256 a (record req { op = Op.read })).allow
                        && (scoped_admit sha256 a (record req { op = Op.write })).allow)
                      ≡ false)))
  roles_apart spec role role' credential here there =
      elim (Parsed-cases (parse_station_scopes sha256 spec)) [
        | inl (f, p) ↦ inl (f, p)
        | inr (a, p) ↦ inr (
          agreed spec role role' credential a p here there,
          (
            a,
            p,
            λ req. elim (Bool-cases (scoped_admit sha256 a (record req { op = Op.read })).allow) [
              | inr refused ↦ rw refused refl
              | inl reads ↦ rw (reads, scopes_sided sha256 spec a req p reads) refl
            ],
          ),
        )
      ]
