-- ===== src/Recovery/Removal.antt =====
-- Messages that leave a queue leave the disk: what is left of the one mirrors what is left of the
-- other.
use mathlib.Core.Path.{subst}
use heliograph_relay.Common.{
  ℕ, ◌+◌, ◌≤◌, ◌≡◌, ◌≢◌, refl, ap, ◌∙◌, ◌⊎◌, inl, inr, true, false, List, [], ◌∷◌, map, keep, All,
  Text, same, same_iff, same_refl, erase, Dict, arith, if◌then◌else◌, is_empty, Bool-cases,
}
use heliograph_relay.Relay.Message.{Message, key}
use heliograph_relay.Relay.Loops.{Merge, done, left, right}
use heliograph_relay.Relay.Expiry.{Merge-All}
use heliograph_relay.Spool.Disk.{Codec, Spool, remove, unlink}
use heliograph_relay.Spool.Names.{nonempty-spool_name}
use heliograph_relay.Recovery.Mirror.{
  plain, routed, entry, Numbered, Numbered-below, Numbered-lower, Elsewhere, erase-Elsewhere,
}

Merge-nil {ℓ} : {A : Type ℓ} {xs ys zs : List A} → Merge xs ys zs → zs ≡ [] → (xs ≡ []) × (ys ≡ [])
Merge-nil done e = (refl, refl)
Merge-nil (left m) e = cc
Merge-nil (right m) e = cc

Merge-cons {ℓ} :
    {A : Type ℓ} (z : A) (rest : List A) {xs ys zs : List A}
    → Merge xs ys zs
    → zs ≡ z ∷ rest
    → ((xs' : List A) × (xs ≡ z ∷ xs') × Merge xs' ys rest)
      ⊎ ((ys' : List A) × (ys ≡ z ∷ ys') × Merge xs ys' rest)
Merge-cons z rest done e = cc
Merge-cons z rest (left {x} {xs} {ys} {zs} m) e =
    let tails : zs ≡ rest = cc in inl (xs, cc, subst (λ t. Merge xs ys t) tails m)
Merge-cons z rest (right {y} {xs} {ys} {zs} m) e =
    let tails : zs ≡ rest = cc in inr (ys, cc, subst (λ t. Merge xs ys t) tails m)

-- What is left of all the messages when `gone` leaves the queue of `k` as `kept`.
pub record Left (k : Text) (live gone kept : List Message) : Type 0 where
  pub rest : List Message
  pub split : Merge gone rest live
  pub here : keep (routed k) rest ≡ kept
  pub there : (j : Text) → j ≢ k → keep (routed j) rest ≡ keep (routed j) live

routed_elsewhere : (j k : Text) (m : Message) → routed k m ≡ true → j ≢ k → routed j m ≡ false
routed_elsewhere j k m h n =
    ground
      (arith, same_iff (key m.estate m.station m.dir) k, same_iff (key m.estate m.station m.dir) j)

pub leave :
    (k : Text) (live : List Message) {gone kept zs : List Message}
    → Merge gone kept zs
    → zs ≡ keep (routed k) live
    → Left k live gone kept
leave k [] m e =
    let (p, q) = Merge-nil m e in
    rw (p, q) (record { rest = []; split = done; here = refl; there = λ j n. refl })
leave k (x ∷ live) m e = elim (Bool-cases (routed k x)) [
  | inl mine ↦ elim (Merge-cons x (keep (routed k) live) m (rw mine at e)) [
    | inl (xs, p, m') ↦
        let l = leave k live m' refl in
        rw p (record {
          rest = l.rest;
          split = left l.split;
          here = l.here;
          there = λ j n. rw (routed_elsewhere j k x mine n) (l.there j n);
        })
    | inr (ys, p, m') ↦
        let l = leave k live m' refl in
        rw p (record {
          rest = x ∷ l.rest;
          split = right l.split;
          here = rw mine (ap (λ t. x ∷ t) l.here);
          there = λ j n. rw (routed_elsewhere j k x mine n) (l.there j n);
        })
  ]
  | inr other ↦
      let l = leave k live m (rw other at e) in
      record {
        rest = x ∷ l.rest;
        split = right l.split;
        here = rw other l.here;
        there = λ j n. ap (λ t. if routed j x then x ∷ t else t) (l.there j n);
      }
]

-- The files of `gone` are removed one after the other.
pub drop_files : List Message → Dict Text → Dict Text
drop_files [] d = d
drop_files (m ∷ ms) d = drop_files ms (erase m.file d)

pub remove-drop_files :
    (ms : List Message) (sp : Spool)
    → ((name : Text) → sp.stuck name ≡ false)
    → All (λ m. is_empty m.file ≡ false) ms
    → remove ms sp ≡ record sp { disk = drop_files ms sp.disk }
unfolding remove unlink drop_files
remove-drop_files [] sp h f = refl
remove-drop_files (m ∷ ms) sp h f =
    rw (f.0, h m.file) (remove-drop_files ms (record sp { disk = erase m.file sp.disk }) h f.1)

drop_files-cons :
    (name v : Text) (ms : List Message) (d : Dict Text)
    → Elsewhere name ms
    → drop_files ms ((name, v) ∷ d) ≡ (name, v) ∷ drop_files ms d
unfolding drop_files erase
drop_files-cons name v [] d h = refl
drop_files-cons name v (m ∷ ms) d h =
    let apart : same name m.file ≡ false = ground (arith, same_iff name m.file, h.0) in
    rw apart (drop_files-cons name v ms (erase m.file d) h.1)

first-erase :
    (c : Codec) (x : Message) (zs : List Message)
    → Elsewhere x.file zs
    → erase x.file (map (entry c) (x ∷ zs)) ≡ map (entry c) zs
unfolding erase
first-erase c x zs h = rw (same_refl x.file) (erase-Elsewhere c x.file zs h)

pub drop_files-Merge :
    (c : Codec) (lo hi : ℕ) {gone rest live : List Message}
    → Merge gone rest live
    → hi ≤ 18446744073709551616
    → Numbered lo hi live
    → drop_files gone (map (entry c) live) ≡ map (entry c) rest
unfolding drop_files
drop_files-Merge c lo hi done b h = refl
drop_files-Merge c lo hi (left {x} {xs} {ys} {zs} m) b (n, e, l, h) =
    let clear : Elsewhere x.file zs = rw e (Numbered-below (n + 1) hi n zs (omega arith) b h) in
    ap (drop_files xs) (first-erase c x zs clear) ∙ drop_files-Merge c (n + 1) hi m b h
drop_files-Merge c lo hi (right {y} {xs} {ys} {zs} m) b (n, e, l, h) =
    let clear : Elsewhere y.file zs = rw e (Numbered-below (n + 1) hi n zs (omega arith) b h) in
    drop_files-cons y.file _ xs (map (entry c) zs) (Merge-All (λ m. m.file ≢ y.file) m clear).0
    ∙ ap (λ t. entry c y ∷ t) (drop_files-Merge c (n + 1) hi m b h)

pub Numbered-Merge :
    (lo hi : ℕ) {gone rest live : List Message}
    → Merge gone rest live
    → Numbered lo hi live
    → Numbered lo hi rest
Numbered-Merge lo hi done h = h
Numbered-Merge lo hi (left m) (n, e, l, h) =
    Numbered-lower (n + 1) lo hi _ (omega arith) (Numbered-Merge (n + 1) hi m h)
Numbered-Merge lo hi (right m) (n, e, l, h) = (n, e, l, Numbered-Merge (n + 1) hi m h)

pub Numbered-named :
    (lo hi : ℕ) (ms : List Message) → Numbered lo hi ms → All (λ m. is_empty m.file ≡ false) ms
Numbered-named lo hi [] h = tt
Numbered-named lo hi (m ∷ ms) (n, e, l, h) =
    (rw e (nonempty-spool_name n), Numbered-named (n + 1) hi ms h)

pub remove-plain : (ms : List Message) (sp : Spool) → remove (map plain ms) sp ≡ remove ms sp
unfolding remove
remove-plain [] sp = refl
remove-plain (m ∷ ms) sp = remove-plain ms (if is_empty m.file then sp else unlink m.file sp)
