-- ===== src/Spool/Durable.antt =====
-- What the spool promises: a write is all or nothing, and a restart reads what was written.
use heliograph_relay.Common.{
  ℕ, ◌+◌, ◌≤◌, ◌<◌, ◌≡◌, refl, ◌∙◌, ◌⊎◌, inl, inr, true, false, not, Option, none, some, [], ◌∷◌,
  ◌++◌, Text, same, same_iff, same_refl, Dict, lookup, insert, erase, lookup-insert, lookup-erase,
  if◌then◌else◌, arith, Bool-cases, on_both,
}
use heliograph_relay.Common.Separators.{Lacks}
use heliograph_relay.Relay.Message.{Message, Time, zero_time, valid_route}
use heliograph_relay.Spool.Disk.{
  Spool, Codec, Faults, head_of, file_content, write, publish, discard, unlink, put_file,
  spool_name, unix_epoch, unix_nano, from_unix_nano,
}
use heliograph_relay.Spool.Open.{read_spool_file, cut_line, from_head}

-- No file but the temporary one differs.
abbrev pub SameFiles : Text → Spool → Spool → Type 0
SameFiles tmp a b = (j : Text) → (j ≡ tmp) ⊎ (lookup j b.disk ≡ lookup j a.disk)

lookup-unlink :
    (name j : Text) (sp : Spool)
    → lookup j (unlink name sp).disk ≡ (
        if not (sp.stuck name)
        then (if same name j then none else lookup j sp.disk)
        else lookup j sp.disk)
unfolding unlink
lookup-unlink name j sp = ground (arith, lookup-erase name j sp.disk)

discard-SameFiles : (f : Faults) (sp : Spool) → SameFiles f.tmp_name sp (discard f sp).0
unfolding discard put_file
discard-SameFiles f sp j = ground (
  arith,
  lookup-unlink f.tmp_name j (put_file f.tmp_name f.partial sp),
  lookup-insert f.tmp_name j f.partial sp.disk,
  same_iff f.tmp_name j,
)

-- How a write ends: with the whole message in a file of its own name and a new number for the next
-- one, or with an error and the same files as before.
abbrev pub Written : Codec → Faults → Message → Spool → Spool × Option Text → Type 0
Written c f m sp (sp', file) =
    ((file ≡ some (spool_name sp.next))
      × (lookup (spool_name sp.next) sp'.disk ≡ some (file_content c m)))
    ⊎ ((file ≡ none) × SameFiles f.tmp_name sp sp')

module _ (c : Codec) (f : Faults) (m : Message) (sp : Spool)
    (free : lookup (spool_name sp.next) sp.disk ≡ none)
    (loose : sp.stuck (spool_name sp.next) ≡ false) where
  abbrev content : Text
  content = file_content c m

  abbrev renamed : Dict Text
  renamed = insert (spool_name sp.next) content (erase f.tmp_name sp.disk)

  not_renamed : SameFiles f.tmp_name sp (unlink f.tmp_name (put_file f.tmp_name content sp))
  unfolding put_file
  not_renamed j = ground (
    arith,
    lookup-unlink f.tmp_name j (put_file f.tmp_name content sp),
    lookup-insert f.tmp_name j content sp.disk,
    same_iff f.tmp_name j,
  )

  undone :
      (n : ℕ)
      → SameFiles f.tmp_name sp
          (unlink (spool_name sp.next) (record sp { disk = renamed; next = n }))
  undone n j = ground (
    arith,
    free,
    loose,
    lookup-unlink (spool_name sp.next) j (record sp { disk = renamed; next = n }),
    lookup-insert (spool_name sp.next) j content (erase f.tmp_name sp.disk),
    lookup-erase f.tmp_name j sp.disk,
    same_iff f.tmp_name j,
    same_iff (spool_name sp.next) j,
  )

  there : lookup (spool_name sp.next) renamed ≡ some content
  there =
      lookup-insert (spool_name sp.next) (spool_name sp.next) content (erase f.tmp_name sp.disk)
      ∙ rw (same_refl (spool_name sp.next))

  publish-Written : Written c f m sp (publish c f m sp)
  unfolding publish
  publish-Written = elim (Bool-cases f.rename) [
    | inl a ↦ rw a (inr (refl, not_renamed))
    | inr a ↦ elim (Bool-cases f.sync_dir) [
      | inl b ↦ rw (a, b) (inr (refl, undone _))
      | inr b ↦ rw (a, b) (inl (refl, there))
    ]
  ]

  failed : Written c f m sp (discard f sp)
  unfolding discard
  failed = inr (refl, discard-SameFiles f sp)

-- A write to the spool either returns the name of a file that holds the whole message, or an error,
-- and then no file but the temporary one differs from before. The name must be free, and a file of
-- that name must be removable.
pub write_whole :
    (c : Codec) (f : Faults) (m : Message) (sp : Spool)
    → lookup (spool_name sp.next) sp.disk ≡ none
    → sp.stuck (spool_name sp.next) ≡ false
    → Written c f m sp (write c f m sp)
unfolding write
write_whole c f m sp free loose =
    let P = Written c f m sp in
    let fails = failed c f m sp free loose in
    on_both P f.create (inr (refl, λ j. inr refl)) (
      on_both P f.write_head fails (
        on_both P f.write_body fails
          (on_both P f.sync fails (on_both P f.close fails (publish-Written c f m sp free loose)))))

cut_line-Lacks : (xs body : Text) → Lacks 10 xs → cut_line (xs ++ 10 ∷ body) ≡ some (xs, body)
unfolding cut_line
cut_line-Lacks [] body h = refl
cut_line-Lacks (x ∷ xs) body h = ground (arith, cut_line-Lacks xs body h.1)

-- The instants that an int64 of nanoseconds since 1970 can hold: from 1677 to 2262.
abbrev pub Nanosecond : Time → Type 0
Nanosecond t = (unix_epoch ≤ t + 9223372036854775808) × (t < unix_epoch + 9223372036854775808)

from_unix_nano-unix_nano : (t : Time) → Nanosecond t → from_unix_nano (unix_nano t) ≡ t
unfolding from_unix_nano unix_nano
from_unix_nano-unix_nano t h = ground arith

-- A spool file is read back as the message that was written, with the file's name and no lease.
-- The message's route must be valid, its head survive the codec, on one line, and its arrival be
-- within the range that an int64 of nanoseconds holds.
pub read-write :
    (c : Codec) (name : Text) (m : Message)
    → c.unmarshal (c.marshal (head_of m)) ≡ some (head_of m)
    → Lacks 10 (c.marshal (head_of m))
    → valid_route m.estate m.station m.dir ≡ true
    → Nanosecond m.arrived
    → read_spool_file c name (file_content c m)
      ≡ some (record m { file = name; lease = []; lease_until = zero_time })
unfolding read_spool_file from_head head_of file_content
read-write c name m reads line valid range = rw (
  read_spool_file,
  cut_line-Lacks (c.marshal (head_of m)) m.body line,
  reads,
  valid,
  from_unix_nano-unix_nano m.arrived range,
)
