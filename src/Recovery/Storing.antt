-- ===== src/Recovery/Storing.antt =====
-- Put keeps the disk a mirror of the queues, whether its write succeeds or fails at any step.
use mathlib.Core.Path.{subst}
use mathlib.Core.List.{map-append}
use native.Mathlib.Nat.{mod-eq_of_lt}
use heliograph_relay.Common.{
  ℕ, ◌+◌, ◌≤◌, ◌<◌, ◌%◌, ◌≡◌, ◌≢◌, refl, sym, ap, ◌∙◌, inl, inr, Bool, true, false, Option, none,
  some, List, [], ◌∷◌, ◌++◌, map, keep, All-append, Text, same, same_iff, same_refl, has_prefix,
  insert, erase, arith, if◌then◌else◌, Bool-cases, on_both,
}
use heliograph_relay.Relay.Message.{Message, Time, zero_time, key, valid_route}
use heliograph_relay.Relay.Store.{Store, queue, expire, next_id, enqueue, written, put}
use heliograph_relay.Relay.Frame.{queue-expire}
use heliograph_relay.Relay.Promises.{set_queue-spool}
use heliograph_relay.Relay.Durability.{made}
use heliograph_relay.Relay.Accepting
use heliograph_relay.Spool.Disk.{
  Codec, Spool, Faults, spool_tmp_pre, spool_name, head_of, file_content, unlink, put_file, discard,
  publish, write,
}
use heliograph_relay.Spool.Durable.{Nanosecond}
use heliograph_relay.Spool.Names.{not_tmp-spool_name}
use heliograph_relay.Recovery.Mirror.{
  plain, routed, entry, Survives, Readable, Mirror, Numbered, Numbered-le, Numbered-raise,
  Numbered-append, Numbered-past, Elsewhere, erase-Elsewhere, insert-Elsewhere, erase-last,
}
use heliograph_relay.Recovery.Settling.{Mirrored, expire-Mirrored}

-- A name for a temporary file.
abbrev pub Temporary : Faults → Type 0
Temporary f = has_prefix spool_tmp_pre f.tmp_name ≡ true

tmp_apart :
    (f : Faults) (n : ℕ) → Temporary f → n < 18446744073709551616 → spool_name n ≢ f.tmp_name
tmp_apart f n t h p =
    let q : true ≡ false =
      sym t ∙ ap (has_prefix spool_tmp_pre) (sym p) ∙ not_tmp-spool_name n (omega arith) in
    cc

tmp-Elsewhere :
    (f : Faults) (lo hi : ℕ) (ms : List Message)
    → Temporary f
    → hi ≤ 18446744073709551616
    → Numbered lo hi ms
    → Elsewhere f.tmp_name ms
tmp-Elsewhere f lo hi [] t b h = tt
tmp-Elsewhere f lo hi (m ∷ ms) t b (n, e, l, h) = (
  λ p. tmp_apart f n t (omega (arith, Numbered-le (n + 1) hi ms h)) (sym e ∙ p),
  tmp-Elsewhere f (n + 1) hi ms t b h,
)

-- How a write ends, for a spool that holds the files of `live` and no other.
pub data WriteEnd (c : Codec) (m : Message) (sp : Spool) (live : List Message)
    (r : Spool × Option Text) : Type 0 where
  failed :
      r.1 ≡ none
      → r.0.disk ≡ map (entry c) live
      → (r.0.stuck ≡ sp.stuck) × (r.0.unreadable ≡ sp.unreadable)
      → sp.next ≤ r.0.next
      → r.0.next ≤ sp.next + 1
      → WriteEnd c m sp live r
  wrote :
      r.1 ≡ some (spool_name sp.next)
      → r.0.disk ≡ map (entry c) live ++ (spool_name sp.next, file_content c m) ∷ []
      → (r.0.stuck ≡ sp.stuck) × (r.0.unreadable ≡ sp.unreadable)
      → r.0.next ≡ sp.next + 1
      → WriteEnd c m sp live r

module _ (c : Codec) (f : Faults) (m : Message) (sp : Spool) (live : List Message)
    (loose : (name : Text) → sp.stuck name ≡ false) (files : sp.disk ≡ map (entry c) live)
    (numbered : Numbered 1 sp.next live) (room : sp.next + 1 < 18446744073709551616)
    (t : Temporary f) where
  abbrev Q : Spool × Option Text → Type 0
  Q r = WriteEnd c m sp live r

  -- A temporary file that is removed again leaves the disk as it was.
  abandoned : (content : Text) → Q (unlink f.tmp_name (put_file f.tmp_name content sp), none)
  unfolding unlink put_file
  abandoned content =
      let apart = tmp-Elsewhere f 1 sp.next live t (omega arith) numbered in
      rw (loose f.tmp_name) (
        failed refl
          (rw files (
            ap (erase f.tmp_name) (insert-Elsewhere c f.tmp_name content live apart)
            ∙ erase-last c f.tmp_name content live apart))
          (refl, refl) (omega arith) (omega arith))

  publish-WriteEnd : Q (publish c f m sp)
  unfolding publish unlink
  publish-WriteEnd =
      let name = spool_name sp.next in
      let content = file_content c m in
      let apart = tmp-Elsewhere f 1 sp.next live t (omega arith) numbered in
      let clear = Numbered-past 1 sp.next sp.next live (omega arith) (omega arith) numbered in
      let added : insert name content (erase f.tmp_name sp.disk)
          ≡ map (entry c) live ++ (name, content) ∷ [] =
        rw files (
          ap (insert name content) (erase-Elsewhere c f.tmp_name live apart)
          ∙ insert-Elsewhere c name content live clear) in
      let next_eq : (sp.next + 1) % 18446744073709551616 ≡ sp.next + 1 = mod-eq_of_lt room in
      on_both Q f.rename (abandoned content) (
        on_both Q f.sync_dir
          (rw (loose name) (
            failed refl (ap (erase name) added ∙ erase-last c name content live clear) (refl, refl)
              (omega (arith, next_eq)) (omega (arith, next_eq))))
          (wrote refl added (refl, refl) next_eq))

  pub write-WriteEnd : Q (write c f m sp)
  unfolding write discard
  write-WriteEnd =
      let fails = abandoned f.partial in
      on_both Q f.create (failed refl files (refl, refl) (omega arith) (omega arith)) (
        on_both Q f.write_head fails (
          on_both Q f.write_body fails
            (on_both Q f.sync fails (on_both Q f.close fails publish-WriteEnd))))

keep-append :
    (p : Message → Bool) (xs : List Message) (x : Message)
    → keep p (xs ++ x ∷ []) ≡ (if p x then keep p xs ++ x ∷ [] else keep p xs)
keep-append p [] x = ground arith
keep-append p (y ∷ xs) x = ground (arith, keep-append p xs x)

none_not_some {ℓ} : {A : Type ℓ} (a : A) → ◌≡◌ {A = Option A} none (some a) → ⊥
none_not_some a e = cc

some_injective : (a b : Text) → some a ≡ some b → a ≡ b
some_injective a b e = cc

pub Mirrored-raise : (c : Codec) (n : ℕ) (s : Store) → Mirrored c n s → Mirrored c (n + 1) s
Mirrored-raise c n s h = record {
  sp = h.sp;
  live = h.live;
  mirror = h.mirror;
  next = omega (arith, h.next);
}

module _ (c : Codec) (f : Faults) (now : Time) (m : Message) (s : Store) (n : ℕ)
    (h : Mirrored c n s) (room : n + 1 < 18446744073709551616) (t : Temporary f)
    (free : m.lease ≡ []) (undue : m.lease_until ≡ zero_time) (range : Nanosecond now)
    (survives : Survives c (made now m s)) where
  abbrev k : Text
  k = key m.estate m.station m.dir

  abbrev x : Message
  x = made now m s

  abbrev h₁ : Mirrored c n (expire k now s)
  h₁ = expire-Mirrored c n k now s h

  abbrev w : Mirror c (expire k now s) h₁.sp h₁.live
  w = h₁.mirror

  abbrev r : Spool × Option Text
  r = write c f x h₁.sp

  ends : WriteEnd c x h₁.sp h₁.live r
  ends = write-WriteEnd c f x h₁.sp h₁.live w.loose w.files w.numbered (omega (arith, h₁.next)) t

  copied_eq : Accepting.copied c f now m s ≡ (some r.0, r.1)
  unfolding written next_id
  copied_eq = ap (written c f x) w.spooled

  legible_after : r.0.unreadable ≡ h₁.sp.unreadable → (name : Text) → r.0.unreadable name ≡ false
  legible_after e name = ap (λ (g : Text → Bool). g name) e ∙ w.legible name

  loose_after : r.0.stuck ≡ h₁.sp.stuck → (name : Text) → r.0.stuck name ≡ false
  loose_after e name = ap (λ (g : Text → Bool). g name) e ∙ w.loose name

  lost-Mirrored :
      (Accepting.copied c f now m s).1 ≡ none → Mirrored c (n + 1) (Accepting.tried c f now m s)
  lost-Mirrored e = elim ends [
    | wrote p d stk nx ↦
        absurd (none_not_some (spool_name h₁.sp.next) (sym e ∙ ap (λ q. q.1) copied_eq ∙ p))
    | failed p d stk lo hi ↦ record {
      sp = r.0;
      live = h₁.live;
      mirror = record {
        spooled = ap (λ q. q.0) copied_eq;
        loose = loose_after stk.0;
        legible = legible_after stk.1;
        files = d;
        numbered = Numbered-raise 1 h₁.sp.next r.0.next h₁.live lo w.numbered;
        small = omega (arith, h₁.next);
        queues = λ j. ap (map plain) (Accepting.queue-lost c f now m s j) ∙ w.queues j;
        readable = w.readable;
      };
      next = omega (arith, h₁.next);
    }
  ]

  module _ (name : Text) (e : (Accepting.copied c f now m s).1 ≡ some name)
      (valid : valid_route m.estate m.station m.dir ≡ true) where
    abbrev y : Message
    y = record x { file = name }

    abbrev after : Store
    after = enqueue k y (Accepting.tried c f now m s)

    y-plain : plain y ≡ y
    y-plain = rw (free, undue)

    y-Readable : Readable c y
    unfolding head_of
    y-Readable = record {
      free = free;
      undue = undue;
      survives = record { back = survives.back; line = survives.line };
      valid = valid;
      range = range;
    }

    queue_mine : map plain (queue k after) ≡ keep (routed k) (h₁.live ++ y ∷ [])
    queue_mine =
        ap (map plain) (Accepting.queue-kept c f now m s name k)
        ∙ rw
            (
              same_refl k,
              map-append plain (Accepting.room c f now m s) (y ∷ []),
              y-plain,
              keep-append (routed k) h₁.live y,
              same_refl k,
            )
            (ap (λ t. t ++ y ∷ [])
              (ap (map plain) (sym (Accepting.queue-room c f now m s)) ∙ w.queues k))

    queue_other :
        (j : Text)
        → same k j ≡ false
        → map plain (queue j after) ≡ keep (routed j) (h₁.live ++ y ∷ [])
    queue_other j other =
        ap (map plain) (Accepting.queue-kept c f now m s name j)
        ∙ rw (other, keep-append (routed j) h₁.live y, other)
            (ap (map plain) (sym (queue-expire j k now s ∙ rw other)) ∙ w.queues j)

    kept-Mirrored : Mirrored c (n + 1) after
    unfolding enqueue file_content head_of
    kept-Mirrored = elim ends [
      | failed p d stk lo hi ↦
          absurd (none_not_some name (sym p ∙ sym (ap (λ q. q.1) copied_eq) ∙ e))
      | wrote p d stk nx ↦
          let q : name ≡ spool_name h₁.sp.next =
            some_injective _ _ (sym e ∙ ap (λ q. q.1) copied_eq ∙ p) in
          record {
            sp = r.0;
            live = h₁.live ++ y ∷ [];
            mirror = record {
              spooled = set_queue-spool k _ (Accepting.tried c f now m s) ∙ ap (λ q. q.0) copied_eq;
              loose = loose_after stk.0;
              legible = legible_after stk.1;
              files = d ∙ rw (map-append (entry c) h₁.live (y ∷ []), q);
              numbered = rw nx (Numbered-append 1 h₁.sp.next h₁.live y q w.numbered);
              small = omega (arith, h₁.next);
              queues = λ j. elim (Bool-cases (same k j)) [
                | inl here ↦
                    subst (λ t. map plain (queue t after) ≡ keep (routed t) (h₁.live ++ y ∷ []))
                      ((same_iff k j).0 here) queue_mine
                | inr there ↦ queue_other j there
              ];
              readable = All-append (Readable c) h₁.live (y ∷ []) w.readable (y-Readable, tt);
            };
            next = omega (arith, h₁.next);
          }
    ]

  pub put-Mirrored : Mirrored c (n + 1) (put c f now m s).0
  put-Mirrored = elim (Accepting.put-PutEnd c f now m s) [
    | Accepting.rejected e p ↦ subst (λ z. Mirrored c (n + 1) z.0) (sym p) (Mirrored-raise c n s h)
    | Accepting.full p ↦ subst (λ z. Mirrored c (n + 1) z.0) (sym p) (Mirrored-raise c n _ h₁)
    | Accepting.lost e p ↦ subst (λ z. Mirrored c (n + 1) z.0) (sym p) (lost-Mirrored e)
    | Accepting.kept name e g p ↦
        subst (λ z. Mirrored c (n + 1) z.0) (sym p) (kept-Mirrored name e g.0)
  ]
