-- ===== src/Recovery/Reading.antt =====
-- What load makes of a directory that holds the files of `live` and no other.
use mathlib.Core.Path.{subst}
use mathlib.Core.List.{append-nil, append_assoc}
use heliograph_relay.Common.{
  ℕ, ◌+◌, ◌≤◌, ◌<◌, ◌≡◌, refl, sym, ap, ◌∙◌, true, false, some, List, [], ◌∷◌, ◌++◌, map, All, Text,
  same_iff, same_refl, lookup, Dict, arith,
}
use heliograph_relay.Relay.Message.{Message}
use heliograph_relay.Spool.Disk.{Codec, Spool, spool_name, file_content}
use heliograph_relay.Spool.Open.{read_spool_file, spool_number}
use heliograph_relay.Spool.Load.{
  scan_dir, sort_names, insert_sorted, text_le, is_tmp, has_ext, Loaded, load_file, load_files,
  load,
}
use heliograph_relay.Spool.Durable.{read-write}
use heliograph_relay.Spool.Names.{
  not_tmp-spool_name, has_ext-spool_name, text_le-spool_name, spool_number-spool_name,
}
use heliograph_relay.Recovery.Mirror.{
  entry, Readable, Numbered, Numbered-le, Numbered-below, Elsewhere,
}

abbrev file_of : Message → Text
file_of m = m.file

scan_dir-entries :
    (c : Codec) (lo hi : ℕ) (ms : List Message) (sp : Spool)
    → hi ≤ 18446744073709551616
    → Numbered lo hi ms
    → scan_dir (map (entry c) ms) sp ≡ (sp, map file_of ms)
unfolding scan_dir
scan_dir-entries c lo hi [] sp b h = refl
scan_dir-entries c lo hi (m ∷ ms) sp b (n, e, l, h) =
    let fits = Numbered-le (n + 1) hi ms h in
    let t : is_tmp m.file ≡ false = rw e (not_tmp-spool_name n (omega arith)) in
    let x : has_ext m.file ≡ true = rw e (has_ext-spool_name n) in
    rw (scan_dir, t, x, scan_dir-entries c (n + 1) hi ms sp b h)

sort_names-sorted :
    (lo hi : ℕ) (ms : List Message)
    → hi ≤ 18446744073709551616
    → Numbered lo hi ms
    → sort_names (map file_of ms) ≡ map file_of ms
unfolding sort_names insert_sorted
sort_names-sorted lo hi [] b h = refl
sort_names-sorted lo hi (m ∷ []) b h = refl
sort_names-sorted lo hi (m ∷ x ∷ ms) b (n, e, l, (a, p, l', h)) =
    let fits = Numbered-le (a + 1) hi ms h in
    let first : text_le m.file x.file ≡ true =
      rw (e, p) (text_le-spool_name n a (omega arith) (omega arith)) in
    ap (insert_sorted m.file) (sort_names-sorted (n + 1) hi (x ∷ ms) b (a, p, l', h)) ∙ rw first

-- Each of these files is there with its message.
abbrev Stored : Codec → Dict Text → List Message → Type 0
Stored c d ms = All (λ m. lookup m.file d ≡ some (file_content c m)) ms

Stored-cons :
    (c : Codec) (x : Message) (d : Dict Text) (ms : List Message)
    → Elsewhere x.file ms
    → Stored c d ms
    → Stored c (entry c x ∷ d) ms
unfolding lookup
Stored-cons c x d [] h s = tt
Stored-cons c x d (m ∷ ms) h s =
    (ground (arith, same_iff x.file m.file, h.0, s.0), Stored-cons c x d ms h.1 s.1)

Stored-entries :
    (c : Codec) (lo hi : ℕ) (ms : List Message)
    → hi ≤ 18446744073709551616
    → Numbered lo hi ms
    → Stored c (map (entry c) ms) ms
unfolding lookup
Stored-entries c lo hi [] b h = tt
Stored-entries c lo hi (m ∷ ms) b (n, e, l, h) =
    let clear : Elsewhere m.file ms = rw e (Numbered-below (n + 1) hi n ms (omega arith) b h) in
    (
      rw (same_refl m.file),
      Stored-cons c m (map (entry c) ms) ms clear (Stored-entries c (n + 1) hi ms b h),
    )

reads_back :
    (c : Codec) (m : Message) → Readable c m → read_spool_file c m.file (file_content c m) ≡ some m
reads_back c m h =
    read-write c m.file m h.survives.back h.survives.line h.valid h.range ∙ rw (h.free, h.undue)

-- What the second loop makes of such files.
record Read (l : Loaded) (ms : List Message) (hi : ℕ) (r : Loaded) : Type 0 where
  msgs : r.msgs ≡ l.msgs ++ ms
  quarantined : r.quarantined ≡ l.quarantined
  below : r.highest < hi
  numbered : Numbered (l.highest + 1) (r.highest + 1) ms

load_file-reads :
    (c : Codec) (n : ℕ) (m : Message) (sp : Spool) (l : Loaded)
    → Readable c m
    → m.file ≡ spool_name n
    → n < 18446744073709551616
    → l.highest < n
    → sp.unreadable m.file ≡ false
    → load_file c m.file (some (file_content c m)) sp l
      ≡ (sp, record l { msgs = l.msgs ++ m ∷ []; highest = n })
unfolding load_file
load_file-reads c n m sp l h e b up seen =
    let number : spool_number m.file ≡ some n = rw e (spool_number-spool_name n b) in
    rw (load_file, seen, reads_back c m h, number) (ground arith)

load_files-reads :
    (c : Codec) (hi : ℕ) (ms : List Message) (sp : Spool) (l : Loaded)
    → hi ≤ 18446744073709551616
    → Numbered (l.highest + 1) hi ms
    → All (Readable c) ms
    → Stored c sp.disk ms
    → ((name : Text) → sp.unreadable name ≡ false)
    → ((load_files c (map file_of ms) sp l).0 ≡ sp)
      × Read l ms hi (load_files c (map file_of ms) sp l).1
unfolding load_files
load_files-reads c hi [] sp l b h r s seen = (
  refl,
  record {
    msgs = sym (append-nil l.msgs);
    quarantined = refl;
    below = omega arith;
    numbered = omega arith;
  },
)
load_files-reads c hi (m ∷ ms) sp l b (n, e, up, h) r s seen =
    let fits = Numbered-le (n + 1) hi ms h in
    let l' : Loaded = record l { msgs = l.msgs ++ m ∷ []; highest = n } in
    let (same_sp, rest) = load_files-reads c hi ms sp l' b h r.1 s.1 seen in
    rw (load_files, s.0, load_file-reads c n m sp l r.0 e (omega arith) (omega arith) (seen m.file))
      (
        same_sp,
        record {
          msgs = rest.msgs ∙ append_assoc l.msgs (m ∷ []) ms;
          quarantined = rest.quarantined;
          below = rest.below;
          numbered = (n, e, up, rest.numbered);
        },
      )

abbrev nothing_loaded : Loaded
nothing_loaded = record { msgs = []; quarantined = []; highest = 0 }

-- The result of load, from the directory on.
pub record Loads (c : Codec) (ms : List Message) (sp : Spool) (r : Spool × Loaded) : Type 0 where
  pub unmoved : r.0 ≡ sp
  pub msgs : r.1.msgs ≡ ms
  pub quarantined : r.1.quarantined ≡ []
  pub below : r.1.highest < sp.next
  pub numbered : Numbered 1 (r.1.highest + 1) ms

pub load-Loads :
    (c : Codec) (ms : List Message) (sp : Spool)
    → sp.disk ≡ map (entry c) ms
    → sp.next ≤ 18446744073709551616
    → Numbered 1 sp.next ms
    → All (Readable c) ms
    → ((name : Text) → sp.unreadable name ≡ false)
    → Loads c ms sp (load c sp)
unfolding load
load-Loads c ms sp e b h r seen =
    let scanned = ap (λ d. scan_dir d sp) e ∙ scan_dir-entries c 1 sp.next ms sp b h in
    let eq : load c sp ≡ load_files c (map file_of ms) sp nothing_loaded =
      ap (λ (x : Spool × List Text). load_files c (sort_names x.1) x.0 nothing_loaded) scanned
      ∙ ap (λ ns. load_files c ns sp nothing_loaded) (sort_names-sorted 1 sp.next ms b h) in
    let stored : Stored c sp.disk ms =
      subst (λ d. Stored c d ms) (sym e) (Stored-entries c 1 sp.next ms b h) in
    let (unmoved, reads) = load_files-reads c sp.next ms sp nothing_loaded b h r stored seen in
    subst (Loads c ms sp) (sym eq) (record {
      unmoved = unmoved;
      msgs = reads.msgs;
      quarantined = reads.quarantined;
      below = reads.below;
      numbered = reads.numbered;
    })
