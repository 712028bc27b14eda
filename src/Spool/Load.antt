-- ===== src/Spool/Load.antt =====
-- spool.go: load and OpenSpool, over a directory that holds files only.
use heliograph_relay.Common.{
  ℕ, ◌+◌, ◌%◌, Bool, true, false, ◌||◌, ◌&&◌, Option, none, some, List, [], ◌∷◌, ◌++◌, Text,
  has_prefix, Dict, lookup, insert, erase, length, ltb, ◌==◌, if◌then◌else◌,
}
use heliograph_relay.Relay.Message.{Message, key}
use heliograph_relay.Relay.Store.{Store, enqueue}
use heliograph_relay.Relay.Leased.{is_blank}
use heliograph_relay.Spool.Disk.{Spool, Codec, spool_ext, spool_tmp_pre, spool_corrupt, unlink}
use heliograph_relay.Spool.Open.{read_spool_file, strip_suffix, spool_number, message_number}

-- The order of sort.Strings: byte by byte.
unfoldable pub text_le : Text → Text → Bool
text_le [] t = true
text_le (x ∷ xs) [] = false
text_le (x ∷ xs) (y ∷ ys) = ltb x y || (x == y && text_le xs ys)

unfoldable pub insert_sorted : Text → List Text → List Text
insert_sorted n [] = n ∷ []
insert_sorted n (m ∷ ms) = if text_le n m then n ∷ m ∷ ms else m ∷ insert_sorted n ms

unfoldable pub sort_names : List Text → List Text
unfolding insert_sorted
sort_names [] = []
sort_names (n ∷ ns) = insert_sorted n (sort_names ns)

abbrev pub is_tmp : Text → Bool
is_tmp name = has_prefix spool_tmp_pre name

abbrev pub has_ext : Text → Bool
has_ext name = elim (strip_suffix spool_ext name) [ none ↦ false | some _ ↦ true ]

-- The first loop of load: the files of unfinished writes go, the messages' names are gathered.
unfoldable pub scan_dir : Dict Text → Spool → Spool × List Text
scan_dir [] sp = (sp, [])
scan_dir ((name, _) ∷ entries) sp =
    let (sp', names) = scan_dir entries (if is_tmp name then unlink name sp else sp) in
    (sp', if is_tmp name then names else if has_ext name then name ∷ names else names)

pub record Loaded : Type 0 where
  pub msgs : List Message
  pub quarantined : List Text
  pub highest : ℕ

-- os.Rename to the name with ".corrupt" behind it.
unfoldable pub move_aside : Text → Text → Spool → Spool × Text
move_aside name raw sp = if sp.stuck name then (sp, name) else (
  record sp { disk = insert (name ++ spool_corrupt) raw (erase name sp.disk) },
  name ++ spool_corrupt,
)

-- `highest` after a file.
abbrev pub raise_to : Option ℕ → ℕ → ℕ
raise_to none h = h
raise_to (some n) h = if ltb h n then n else h

abbrev pub accept_file : Text → Message → Loaded → Loaded
accept_file name m l = record l {
  msgs = l.msgs ++ m ∷ [];
  highest = raise_to (spool_number name) l.highest;
}

-- One round of the second loop, with what the file holds. os.ReadFile fails for one that is not there,
-- which cannot be renamed either, and for an unreadable one, which is moved aside if it can be.
unfoldable pub load_file : Codec → Text → Option Text → Spool → Loaded → Spool × Loaded
unfolding move_aside
load_file c name none sp l = (sp, record l { quarantined = l.quarantined ++ name ∷ [] })
load_file c name (some raw) sp l =
    let (sp', aside) = move_aside name raw sp in
    elim (if sp.unreadable name then none else read_spool_file c name raw) [
      | none ↦ (sp', record l { quarantined = l.quarantined ++ aside ∷ [] })
      | some m ↦ (sp, accept_file name m l)
    ]

unfoldable pub load_files : Codec → List Text → Spool → Loaded → Spool × Loaded
unfolding load_file
load_files c [] sp l = (sp, l)
load_files c (name ∷ names) sp l =
    let (sp', l') = load_file c name (lookup name sp.disk) sp l in load_files c names sp' l'

unfoldable pub load : Codec → Spool → Spool × Loaded
unfolding scan_dir load_files sort_names
load c sp =
    let (sp', names) = scan_dir sp.disk sp in
    load_files c (sort_names names) sp' (record { msgs = []; quarantined = []; highest = 0 })

pub record SpoolReport : Type 0 where
  pub dir : Text
  pub messages : ℕ
  pub bytes : ℕ
  pub quarantined : List Text

unfoldable pub body_bytes : List Message → ℕ
body_bytes [] = 0
body_bytes (m ∷ ms) = length m.body + body_bytes ms

-- The loop of OpenSpool over the messages that were read.
unfoldable pub recover : List Message → Store → Store
unfolding enqueue
recover [] s = s
recover (m ∷ ms) s =
    let s' = enqueue (key m.estate m.station m.dir) m s in
    recover ms (record s' { ids = raise_to (message_number m.id) s'.ids })

-- `none` for the directory is that it cannot be made or read.
unfoldable pub open_spool : Codec → Text → Option Spool → Store → Store × Option SpoolReport
unfolding load recover is_blank body_bytes
open_spool c dir none s = (s, none)
open_spool c dir (some sp) s =
    let (sp', l) = load c sp in
    let opened = record sp' { dir = dir; next = (l.highest + 1) % 18446744073709551616 } in
    let report : SpoolReport = record {
      dir = dir;
      messages = length l.msgs;
      bytes = body_bytes l.msgs;
      quarantined = l.quarantined;
    } in
    if is_blank dir
    then (s, none)
    else (recover l.msgs (record s { spool = some opened }), some report)
