-- ===== src/Relay/Loops.antt =====
-- The loops over a queue: what they take is an interleaving with what they leave.
use heliograph_relay.Common.{
  ℕ, suc, ◌+◌, ◌≤◌, ◌≡◌, refl, sym, ◌∙◌, ap, ◌⊎◌, inl, inr, true, false, not, ◌||◌, List, [], ◌∷◌,
  ◌++◌, length, length-append, is_empty, All, ℤ, pos, arith, if◌then◌else◌, Bool-cases, ◌≢◌,
}
use mathlib.Core.List.{append-nil, append_assoc}
use heliograph_relay.Relay.Message.{Message}
use heliograph_relay.Relay.Store.{reached, take_loop}

-- `Merge xs ys zs`: zs is made of xs and ys, each in its own order.
pub data Merge {ℓ} {A : Type ℓ} : List A → List A → List A → Type ℓ where
  done : Merge [] [] []
  left : {x : A} {xs ys zs : List A} → Merge xs ys zs → Merge (x ∷ xs) ys (x ∷ zs)
  right : {y : A} {xs ys zs : List A} → Merge xs ys zs → Merge xs (y ∷ ys) (y ∷ zs)

pub length-Merge {ℓ} :
    {A : Type ℓ} {xs ys zs : List A} → Merge xs ys zs → length zs ≡ length xs + length ys
length-Merge done = omega arith
length-Merge (left m) = omega (arith, length-Merge m)
length-Merge (right m) = omega (arith, length-Merge m)

-- The loop of Take without its accumulators: `n` messages are taken already.
unfoldable pub pick : ℤ → ℕ → List Message → List Message × List Message
pick limit n [] = ([], [])
pick limit n (m ∷ ms) =
    let skip = not (is_empty m.lease) || reached limit n in
    let later = pick limit (if skip then n else n + 1) ms in
    (if skip then later.0 else m ∷ later.0, if skip then m ∷ later.1 else later.1)

pub take_loop-eq-pick :
    (limit : ℤ) (taken kept ms : List Message)
    → take_loop limit taken kept ms
      ≡ (taken ++ (pick limit (length taken) ms).0, kept ++ (pick limit (length taken) ms).1)
unfolding take_loop pick
take_loop-eq-pick limit taken kept [] = λ i. (sym (append-nil taken) i, sym (append-nil kept) i)
take_loop-eq-pick limit taken kept (m ∷ ms) =
    elim (Bool-cases (not (is_empty m.lease) || reached limit (length taken))) [
      | inl skip ↦ rw (skip, take_loop-eq-pick limit taken (kept ++ m ∷ []) ms) (simp append_assoc)
      | inr grab ↦
          rw (grab, take_loop-eq-pick limit (taken ++ m ∷ []) kept ms, length-append taken (m ∷ []))
            (simp append_assoc)
    ]

-- Nothing is lost, nothing is made up, and both parts keep their order.
pub pick-Merge :
    (limit : ℤ) (n : ℕ) (ms : List Message) → Merge (pick limit n ms).0 (pick limit n ms).1 ms
unfolding pick
pick-Merge limit n [] = done
pick-Merge limit n (m ∷ ms) = elim (Bool-cases (not (is_empty m.lease) || reached limit n)) [
  | inl skip ↦ rw skip (right (pick-Merge limit n ms))
  | inr grab ↦ rw grab (left (pick-Merge limit (n + 1) ms))
]

abbrev pub Free : Message → Type 0
Free m = m.lease ≡ []

is_empty→Free : (m : Message) → is_empty m.lease ≡ true → Free m
is_empty→Free m h = ground arith

pub pick-Free : (limit : ℤ) (n : ℕ) (ms : List Message) → All Free (pick limit n ms).0
unfolding pick
pick-Free limit n [] = tt
pick-Free limit n (m ∷ ms) = elim (Bool-cases (is_empty m.lease)) [
  | inl free ↦ elim (Bool-cases (reached limit n)) [
    | inl full ↦ rw (free, full) (pick-Free limit n ms)
    | inr more ↦ rw (free, more) (is_empty→Free m free, pick-Free limit (n + 1) ms)
  ]
  | inr held ↦ rw held (pick-Free limit n ms)
]

-- No more than the limit is taken.
pub length-pick-le :
    (l n : ℕ) (ms : List Message) → n ≤ suc l → n + length (pick (pos (suc l)) n ms).0 ≤ suc l
unfolding pick
length-pick-le l n [] h = omega arith
length-pick-le l n (m ∷ ms) h = ground (arith, length-pick-le l n ms, length-pick-le l (n + 1) ms)

abbrev pub Held : Message → Type 0
Held m = m.lease ≢ []

pub pick_full :
    (limit : ℤ) (n : ℕ) (ms : List Message) → reached limit n ≡ true → (pick limit n ms).0 ≡ []
unfolding pick
pick_full limit n [] h = refl
pick_full limit n (m ∷ ms) h = ground (arith, pick_full limit n ms h)

not_empty→Held : (m : Message) → is_empty m.lease ≡ false → Held m
not_empty→Held m h = ground arith

-- Either the limit is reached, or whatever stays is held by somebody.
pub pick_complete :
    (limit : ℤ) (n : ℕ) (ms : List Message)
    → (reached limit (n + length (pick limit n ms).0) ≡ true) ⊎ All Held (pick limit n ms).1
unfolding pick
pick_complete limit n [] = inr tt
pick_complete limit n (m ∷ ms) = elim (Bool-cases (is_empty m.lease)) [
  | inr held ↦ rw held (elim (pick_complete limit n ms) [
    | inl full ↦ inl full
    | inr all_held ↦ inr (not_empty→Held m held, all_held)
  ])
  | inl free ↦ elim (Bool-cases (reached limit n)) [
    | inl full ↦
        rw (free, full)
          (inl (ap (reached limit) (omega (arith, ap length (pick_full limit n ms full))) ∙ full))
    | inr more ↦
        rw (free, more)
          (elim (pick_complete limit (n + 1) ms) [
            | inl full ↦ inl (ap (reached limit) (omega arith) ∙ full)
            | inr all_held ↦ inr all_held
          ])
  ]
]
