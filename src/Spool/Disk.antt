-- ===== src/Spool/Disk.antt =====
-- spool.go: the durable copy of a message. A file system is a dictionary from the names of the
-- files in the spool's directory to their contents; which system calls fail is an argument.
use heliograph_relay.Common.{
  ℕ, zero, suc, ◌+◌, ◌-◌, ◌*◌, ◌%◌, Bool, false, Option, none, some, List, [], ◌∷◌, ◌++◌, Text,
  bytes, Dict, insert, erase, decimal, length, ltb, is_empty, if◌then◌else◌,
}
use heliograph_relay.Relay.Message.{Message, Time}

-- The first line of a spool file. `at` is the bit pattern of an int64.
pub record Head : Type 0 where
  pub id : Text
  pub estate : Text
  pub station : Text
  pub dir : Text
  pub seq : ℕ
  pub at : ℕ

-- encoding/json at this one type.
pub record Codec : Type 0 where
  pub marshal : Head → Text
  pub unmarshal : Text → Option Head

-- `stuck` tells the files that os.Remove and os.Rename cannot move, `unreadable` those that
-- os.ReadFile fails on though they are there.
pub record Spool : Type 0 where
  pub dir : Text
  pub next : ℕ
  pub disk : Dict Text
  pub stuck : Text → Bool
  pub unreadable : Text → Bool

-- Which step of a write fails, and what a failed write of the temporary file has left in it.
pub record Faults : Type 0 where
  pub tmp_name : Text
  pub create : Bool
  pub write_head : Bool
  pub write_body : Bool
  pub sync : Bool
  pub close : Bool
  pub rename : Bool
  pub sync_dir : Bool
  pub partial : Text

abbrev pub no_faults : Faults
no_faults = record {
  tmp_name = bytes "writing-1";
  create = false;
  write_head = false;
  write_body = false;
  sync = false;
  close = false;
  rename = false;
  sync_dir = false;
  partial = [];
}

-- 1970-01-01, in nanoseconds.
abbrev pub unix_epoch : Time
unix_epoch = (9223372036854775808 + 62135596800) * 1000000000

-- t.UnixNano(): an int64, which wraps.
unfoldable pub unix_nano : Time → ℕ
unix_nano t = (t + 18446744073709551616 * 1000000000 - unix_epoch) % 18446744073709551616

-- time.Unix(0, ns) at an int64.
unfoldable pub from_unix_nano : ℕ → Time
from_unix_nano ns =
    if ltb ns 9223372036854775808 then unix_epoch + ns else unix_epoch + ns - 18446744073709551616

unfoldable pub head_of : Message → Head
head_of m = record {
  id = m.id;
  estate = m.estate;
  station = m.station;
  dir = m.dir;
  seq = m.seq;
  at = unix_nano m.arrived;
}

unfoldable pub zeros : ℕ → Text
zeros zero = []
zeros (suc n) = b'0' ∷ zeros n

-- fmt.Sprintf("%020d", n)
unfoldable pub padded : ℕ → Text
unfolding zeros
padded n = let d = decimal n in zeros (20 - length d) ++ d

abbrev pub spool_ext : Text
spool_ext = bytes ".msg"

abbrev pub spool_tmp_pre : Text
spool_tmp_pre = bytes "writing-"

abbrev pub spool_corrupt : Text
spool_corrupt = bytes ".corrupt"

unfoldable pub spool_name : ℕ → Text
unfolding padded
spool_name n = padded n ++ spool_ext

-- os.Remove, whose failure every caller ignores.
unfoldable pub unlink : Text → Spool → Spool
unlink name sp = if sp.stuck name then sp else record sp { disk = erase name sp.disk }

unfoldable pub put_file : Text → Text → Spool → Spool
put_file name content sp = record sp { disk = insert name content sp.disk }

-- `fail` of the source: the temporary file goes, if it can.
unfoldable pub discard : Faults → Spool → Spool × Option Text
unfolding unlink put_file
discard f sp = (unlink f.tmp_name (put_file f.tmp_name f.partial sp), none)

unfoldable pub file_content : Codec → Message → Text
unfolding head_of
file_content c m = c.marshal (head_of m) ++ 10 ∷ m.body

-- os.Rename of the finished temporary file, then the directory's fsync.
unfoldable pub publish : Codec → Faults → Message → Spool → Spool × Option Text
unfolding unlink put_file
publish c f m sp =
    let name = spool_name sp.next in
    let renamed = record sp {
      disk = insert name (file_content c m) (erase f.tmp_name sp.disk);
      next = (sp.next + 1) % 18446744073709551616;
    } in
    if f.rename
    then (unlink f.tmp_name (put_file f.tmp_name (file_content c m) sp), none)
    else if f.sync_dir
    then (unlink name renamed, none)
    else (renamed, some name)

-- The new spool, and the file that holds the message, or `none` for an error.
unfoldable pub write : Codec → Faults → Message → Spool → Spool × Option Text
unfolding publish discard
write c f m sp =
    if f.create
    then (sp, none)
    else if f.write_head
    then discard f sp
    else if f.write_body
    then discard f sp
    else if f.sync
    then discard f sp
    else if f.close
    then discard f sp
    else publish c f m sp

-- The durable copies of messages that have left the queue.
unfoldable pub remove : List Message → Spool → Spool
unfolding unlink
remove [] sp = sp
remove (m ∷ ms) sp = remove ms (if is_empty m.file then sp else unlink m.file sp)
