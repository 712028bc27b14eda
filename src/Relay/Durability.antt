-- ===== src/Relay/Durability.antt =====
-- Put with a spool: what is accepted can be read back from the disk.
use mathlib.Core.Path.{subst}
use heliograph_relay.Common.{
  ◌-◌, ◌≡◌, refl, sym, ◌∙◌, ap, inl, inr, true, false, List, [], ◌∷◌, ◌++◌, Text, same_refl, Option,
  none, some, if◌then◌else◌, arith, on_both, lookup, lookup-erase, is_empty,
}
use heliograph_relay.Common.Separators.{Lacks}
use heliograph_relay.Spool.Disk.{
  Codec, Faults, Spool, unlink, remove, head_of, file_content, spool_name, write,
}
use heliograph_relay.Spool.Open.{read_spool_file}
use heliograph_relay.Spool.Durable.{Nanosecond, write_whole, read-write}
use heliograph_relay.Relay.Message.{Message, Time, zero_time, ok, key, valid_route}
use heliograph_relay.Relay.Store.{
  Store, queue, drop_durable, expire, split_expired, next_id, put, written, enqueue,
}
use heliograph_relay.Relay.Accepting
use heliograph_relay.Relay.Promises.{unexpired, refused_not_ok, set_queue-spool}

-- Files have gone from the spool at most.
abbrev Smaller : Spool → Spool → Type 0
Smaller a b =
    (b.next ≡ a.next)
    × (b.stuck ≡ a.stuck)
    × ((j : Text) → lookup j a.disk ≡ none → lookup j b.disk ≡ none)

unlink-Smaller : (name : Text) (sp : Spool) → Smaller sp (unlink name sp)
unfolding unlink
unlink-Smaller name sp =
    on_both (Smaller sp) (sp.stuck name) (refl, refl, λ j h. h)
      (refl, refl, λ j h. ground (arith, lookup-erase name j sp.disk, h))

Smaller-trans : (a b c : Spool) → Smaller a b → Smaller b c → Smaller a c
Smaller-trans a b c (n, s, d) (n', s', d') = (n' ∙ n, s' ∙ s, λ j h. d' j (d j h))

remove-Smaller : (ms : List Message) (sp : Spool) → Smaller sp (remove ms sp)
unfolding remove
remove-Smaller [] sp = (refl, refl, λ j h. h)
remove-Smaller (m ∷ ms) sp =
    let sp' = if is_empty m.file then sp else unlink m.file sp in
    Smaller-trans sp sp' (remove ms sp')
      (on_both (Smaller sp) (is_empty m.file) (refl, refl, λ j h. h) (unlink-Smaller m.file sp))
      (remove-Smaller ms sp')

-- Expiry leaves a spool that has lost files at most.
expire-spool :
    (k : Text) (now : Time) (s : Store) (sp : Spool)
    → s.spool ≡ some sp
    → (sp' : Spool) × ((expire k now s).spool ≡ some sp') × Smaller sp sp'
unfolding expire drop_durable
expire-spool k now s sp h =
    let (old, rest) = split_expired (now - s.ttl) (queue k s) in
    let P : Store → Type 0 = λ s'. (sp' : Spool) × (s'.spool ≡ some sp') × Smaller sp sp' in
    on_both P (is_empty old) (sp, h, (refl, refl, λ j a. a))
      (remove old sp, set_queue-spool k rest (drop_durable old s) ∙ rw h, remove-Smaller old sp)

-- The message is on the disk as it is in the queue.
abbrev pub OnDisk : Codec → Message → Store → Type 0
OnDisk c m s =
    (sp : Spool) × (raw : Text) × (s.spool ≡ some sp)
    × (lookup m.file sp.disk ≡ some raw)
    × (read_spool_file c m.file raw ≡ some m)

some_injective : (a b : Text) → some a ≡ some b → a ≡ b
some_injective a b e = cc

none_not_some : (a : Text) → ◌≡◌ {A = Option Text} none (some a) → ⊥
none_not_some a e = cc

module _ (c : Codec) (f : Faults) (n : Message) (sp : Spool)
    (free : lookup (spool_name sp.next) sp.disk ≡ none)
    (loose : sp.stuck (spool_name sp.next) ≡ false) (plain : n.lease ≡ [])
    (undue : n.lease_until ≡ zero_time)
    (survives : c.unmarshal (c.marshal (head_of n)) ≡ some (head_of n))
    (line : Lacks 10 (c.marshal (head_of n))) (valid : valid_route n.estate n.station n.dir ≡ true)
    (range : Nanosecond n.arrived) where
  stored-OnDisk :
      (name : Text) (s : Store)
      → s.spool ≡ (written c f n (some sp)).0
      → (written c f n (some sp)).1 ≡ some name
      → OnDisk c (record n { file = name }) s
  unfolding written file_content
  stored-OnDisk name s e h = elim (write_whole c f n sp free loose) [
    | inl (p, q) ↦ (
      (write c f n sp).0,
      file_content c n,
      e,
      rw (some_injective _ _ (sym h ∙ p)) q,
      rw (plain, undue) (read-write c name n survives line valid range),
    )
    | inr (p, _) ↦ absurd (none_not_some name (sym p ∙ h))
  ]

-- The message that Put makes of the one that it is given, without its file.
abbrev pub made : Time → Message → Store → Message
made now m s = record m { arrived = now; id = (next_id s).1 }

-- What is queued last is on the disk.
abbrev pub Durable : Codec → Time → Message → Store → Store → Type 0
Durable c now m s s' =
    let k = key m.estate m.station m.dir in
    (file : Text) × (queue k s' ≡ unexpired k now s ++ record (made now m s) { file = file } ∷ [])
    × OnDisk c (record (made now m s) { file = file }) s'

module _ (c : Codec) (f : Faults) (now : Time) (m : Message) (s : Store) (sp : Spool)
    (spooled : s.spool ≡ some sp) (free : lookup (spool_name sp.next) sp.disk ≡ none)
    (loose : sp.stuck (spool_name sp.next) ≡ false) (plain : m.lease ≡ [])
    (undue : m.lease_until ≡ zero_time) (range : Nanosecond now)
    (survives : c.unmarshal (c.marshal (head_of (made now m s))) ≡ some (head_of (made now m s)))
    (line : Lacks 10 (c.marshal (head_of (made now m s)))) where
  abbrev k : Text
  k = key m.estate m.station m.dir

  kept-Durable :
      (name : Text)
      → (Accepting.copied c f now m s).1 ≡ some name
      → valid_route m.estate m.station m.dir ≡ true
      → Durable c now m s
          (enqueue k (record (made now m s) { file = name }) (Accepting.tried c f now m s))
  unfolding next_id enqueue
  kept-Durable name e valid =
      let (sp', q, (nx, stk, gone)) = expire-spool k now s sp spooled in
      let copied_eq = ap (written c f (made now m s)) q in
      (
        name,
        Accepting.queue-kept c f now m s name k ∙ rw (same_refl k),
        stored-OnDisk c f (made now m s) sp' (rw nx (gone (spool_name sp.next) free))
            (rw (nx, stk) loose) plain undue survives line valid range name
            (enqueue k (record (made now m s) { file = name }) (Accepting.tried c f now m s))
            (set_queue-spool k _ (Accepting.tried c f now m s) ∙ ap (λ r. r.0) copied_eq)
            (sym (ap (λ r. r.1) copied_eq) ∙ e),
      )

  -- With a spool, a message that Put has accepted is the last of its queue, and a file of the spool
  -- reads back as that very message. The next file name must be free and removable, the message come
  -- without a lease, the instant be within the range of a spool file, and the head survive the codec
  -- on one line.
  pub put-Durable : (put c f now m s).1 ≡ ok tt → Durable c now m s (put c f now m s).0
  put-Durable h = elim (Accepting.put-PutEnd c f now m s) [
    | Accepting.rejected e p ↦ absurd (refused_not_ok e (sym (ap (λ r. r.1) p) ∙ h))
    | Accepting.full p ↦ absurd (refused_not_ok _ (sym (ap (λ r. r.1) p) ∙ h))
    | Accepting.lost unwritten p ↦ absurd (refused_not_ok _ (sym (ap (λ r. r.1) p) ∙ h))
    | Accepting.kept name e g p ↦
        subst (λ r. Durable c now m s r.0) (sym p) (kept-Durable name e g.0)
  ]
