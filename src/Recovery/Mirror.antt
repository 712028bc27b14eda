-- ===== src/Recovery/Mirror.antt =====
-- The disk as a mirror of the queues. `live` is the abstract state: the messages that are accepted
-- and not yet gone, of all routes, in the order in which they were accepted.
use heliograph_relay.Common.{
  ℕ, ◌+◌, ◌≤◌, ◌<◌, ◌≡◌, refl, sym, ◌∙◌, ◌≢◌, Bool, true, false, some, List, [], ◌∷◌, ◌++◌, map,
  keep, All, Text, same, same_iff, insert, erase, arith,
}
use heliograph_relay.Common.Separators.{Lacks}
use heliograph_relay.Relay.Message.{Message, zero_time, key, valid_route}
use heliograph_relay.Relay.Store.{Store, queue}
use heliograph_relay.Spool.Disk.{Codec, Spool, head_of, file_content, spool_name}
use heliograph_relay.Spool.Durable.{Nanosecond}
use heliograph_relay.Spool.Names.{spool_name-ne}

-- A message as the disk has it: under no lease.
abbrev pub plain : Message → Message
plain m = record m { lease = []; lease_until = zero_time }

abbrev pub route_of : Message → Text
route_of m = key m.estate m.station m.dir

abbrev pub routed : Text → Message → Bool
routed k m = same (route_of m) k

-- Its spool file.
abbrev pub entry : Codec → Message → Text × Text
entry c m = (m.file, file_content c m)

-- The codec gives the head back, from one line.
pub record Survives (c : Codec) (m : Message) : Type 0 where
  pub back : c.unmarshal (c.marshal (head_of m)) ≡ some (head_of m)
  pub line : Lacks 10 (c.marshal (head_of m))

pub record Readable (c : Codec) (m : Message) : Type 0 where
  pub free : m.lease ≡ []
  pub undue : m.lease_until ≡ zero_time
  pub survives : Survives c m
  pub valid : valid_route m.estate m.station m.dir ≡ true
  pub range : Nanosecond m.arrived

-- The files are numbered upwards, from `lo` and below `hi`.
abbrev pub Numbered : ℕ → ℕ → List Message → Type 0
Numbered lo hi [] = lo ≤ hi
Numbered lo hi (m ∷ ms) = (n : ℕ) × (m.file ≡ spool_name n) × (lo ≤ n) × Numbered (n + 1) hi ms

pub record Mirror (c : Codec) (s : Store) (sp : Spool) (live : List Message) : Type 0 where
  pub spooled : s.spool ≡ some sp
  pub loose : (name : Text) → sp.stuck name ≡ false
  pub legible : (name : Text) → sp.unreadable name ≡ false
  pub files : sp.disk ≡ map (entry c) live
  pub numbered : Numbered 1 sp.next live
  pub small : sp.next ≤ 18446744073709551616
  pub queues : (k : Text) → map plain (queue k s) ≡ keep (routed k) live
  pub readable : All (Readable c) live

pub Numbered-le : (lo hi : ℕ) (ms : List Message) → Numbered lo hi ms → lo ≤ hi
Numbered-le lo hi [] h = h
Numbered-le lo hi (m ∷ ms) (n, e, l, h) = omega (arith, Numbered-le (n + 1) hi ms h)

pub Numbered-lower :
    (lo lo' hi : ℕ) (ms : List Message) → lo' ≤ lo → Numbered lo hi ms → Numbered lo' hi ms
Numbered-lower lo lo' hi [] l h = omega arith
Numbered-lower lo lo' hi (m ∷ ms) l (n, e, l', h) = (n, e, omega arith, h)

pub Numbered-raise :
    (lo hi hi' : ℕ) (ms : List Message) → hi ≤ hi' → Numbered lo hi ms → Numbered lo hi' ms
Numbered-raise lo hi hi' [] l h = omega arith
Numbered-raise lo hi hi' (m ∷ ms) l (n, e, l', h) = (n, e, l', Numbered-raise (n + 1) hi hi' ms l h)

pub Numbered-append :
    (lo hi : ℕ) (ms : List Message) (m : Message)
    → m.file ≡ spool_name hi
    → Numbered lo hi ms
    → Numbered lo (hi + 1) (ms ++ m ∷ [])
Numbered-append lo hi [] m e h = (hi, e, h, omega arith)
Numbered-append lo hi (x ∷ ms) m e (n, p, l, h) = (n, p, l, Numbered-append (n + 1) hi ms m e h)

-- No file has a given name.
abbrev pub Elsewhere : Text → List Message → Type 0
Elsewhere name ms = All (λ m. m.file ≢ name) ms

-- A number below the others, or past them, names no file among them.
pub Numbered-below :
    (lo hi n : ℕ) (ms : List Message)
    → n < lo
    → hi ≤ 18446744073709551616
    → Numbered lo hi ms
    → Elsewhere (spool_name n) ms
Numbered-below lo hi n [] l b h = tt
Numbered-below lo hi n (m ∷ ms) l b (a, e, l', h) = (
  λ p. spool_name-ne n a (omega arith) (omega (arith, Numbered-le (a + 1) hi ms h)) (sym p ∙ e),
  Numbered-below (a + 1) hi n ms (omega arith) b h,
)

pub Numbered-past :
    (lo hi n : ℕ) (ms : List Message)
    → hi ≤ n
    → n < 18446744073709551616
    → Numbered lo hi ms
    → Elsewhere (spool_name n) ms
Numbered-past lo hi n [] l b h = tt
Numbered-past lo hi n (m ∷ ms) l b (a, e, l', h) = (
  λ p. spool_name-ne a n (omega (arith, Numbered-le (a + 1) hi ms h)) b (sym e ∙ p),
  Numbered-past (a + 1) hi n ms l b h,
)

module _ (c : Codec) (name : Text) where
  pub erase-Elsewhere :
      (ms : List Message) → Elsewhere name ms → erase name (map (entry c) ms) ≡ map (entry c) ms
  unfolding erase
  erase-Elsewhere [] h = refl
  erase-Elsewhere (m ∷ ms) h = ground (arith, same_iff m.file name, h.0, erase-Elsewhere ms h.1)

  pub insert-Elsewhere :
      (v : Text) (ms : List Message)
      → Elsewhere name ms
      → insert name v (map (entry c) ms) ≡ map (entry c) ms ++ (name, v) ∷ []
  unfolding insert
  insert-Elsewhere v [] h = refl
  insert-Elsewhere v (m ∷ ms) h =
      ground (arith, same_iff m.file name, h.0, insert-Elsewhere v ms h.1)

  pub erase-last :
      (v : Text) (ms : List Message)
      → Elsewhere name ms
      → erase name (map (entry c) ms ++ (name, v) ∷ []) ≡ map (entry c) ms
  unfolding erase
  erase-last v [] h = ground (arith, same_iff name name)
  erase-last v (m ∷ ms) h = ground (arith, same_iff m.file name, h.0, erase-last v ms h.1)
