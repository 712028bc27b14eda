-- ===== src/Conformance/Client.antt =====
-- conformance.go: the suite's client. A relay under test is what answers its calls, over a state of
-- its own; `none` is a call that fails. The JSON of a reply is kept as the values that the suite's
-- structs read from it. A check's diagnosis, which is only printed, is left out.
use heliograph_relay.Common.{ℕ, Bool, false, Option, none, some, List, [], Text, bytes}

-- Target.do, by method and path. Of a query, `wait` and `lease`; an empty one is left out.
pub data Call : Type 0 where
  post : (estate station dir tok : Text) (seq : ℕ) (body : Text) → Call
  fetch : (estate station dir wait lease tok : Text) → Call
  acknowledge : (estate station dir lease tok : Text) → Call

pub record Msg : Type 0 where
  pub id : Text
  pub seq : ℕ
  pub body : Text

pub record Refusal : Type 0 where
  pub error : Text
  pub reason : Text

pub record LeaseReply : Type 0 where
  pub lease : Text
  pub until : Text
  pub messages : List Msg

-- The body of a reply.
pub data Content : Type 0 where
  blank : Content
  refused : Refusal → Content
  array : List Msg → Content
  leased : LeaseReply → Content
  deleted : ℕ → Content

pub record Answer : Type 0 where
  pub code : ℕ
  pub content : Content

-- What json.Unmarshal leaves in a zero value; an error of it is dropped.
abbrev pub read_refusal : Content → Refusal
read_refusal (refused r) = r
read_refusal _ = record { error = []; reason = [] }

abbrev pub read_array : Content → List Msg
read_array (array ms) = ms
read_array _ = []

abbrev pub read_lease : Content → LeaseReply
read_lease (leased l) = l
read_lease _ = record { lease = []; until = []; messages = [] }

abbrev pub read_deleted : Content → ℕ
read_deleted (deleted n) = n
read_deleted _ = 0

-- The relay under test, and Disrupt: none where the harness has no lever, and `false` for an error.
pub record Peer (S : Type 0) : Type 0 where
  pub send : Call → S → S × Option Answer
  pub sleep : ℕ → S → S
  pub disrupt : Option (S → S × Bool)

pub record Target : Type 0 where
  pub estate : Text
  pub station : Text
  pub control : Text
  pub station_tok : Text
  pub other_estate : Text

abbrev pub Run : Type 0 → Type 0 → Type 0
Run S A = S → S × A

infixl 5 ◌>>=◌ ◌>>◌
abbrev pub ◌>>=◌ : {S A B : Type 0} → Run S A → (A → Run S B) → Run S B
◌>>=◌ m f s = let (s', a) = m s in f a s'

abbrev pub ◌>>◌ : {S A B : Type 0} → Run S A → Run S B → Run S B
◌>>◌ m k s = let (s', a) = m s in k s'

abbrev pub pure : {S A : Type 0} → A → Run S A
pure a s = (s, a)

pub record Result : Type 0 where
  pub name : Text
  pub good : Bool
  pub skipped : Bool

-- `ok` of Run and of its sections.
abbrev pub assert : Text → Bool → Result
assert name cond = record { name = name; good = cond; skipped = false }

-- A failed call has status 0 and an empty body.
abbrev pub read_answer : {A : Type 0} → (Content → A) → A → Option Answer → ℕ × A
read_answer read zero none = (0, zero)
read_answer read zero (some a) = (a.code, read a.content)

module _ {S : Type 0} (p : Peer S) where
  unfoldable pub put_r : Text → Text → Text → Text → ℕ → Text → Run S (ℕ × Refusal)
  put_r estate station dir tok seq body s =
      let (s', a) = p.send (post estate station dir tok seq body) s in
      (s', read_answer read_refusal (record { error = []; reason = [] }) a)

  unfoldable pub put : Text → Text → Text → Text → ℕ → Text → Run S ℕ
  unfolding put_r
  put estate station dir tok seq body s =
      let (s', (code, why)) = put_r estate station dir tok seq body s in (s', code)

  unfoldable pub take : Text → Text → Text → Text → Run S (ℕ × List Msg)
  take estate station dir tok s =
      let (s', a) = p.send (fetch estate station dir (bytes "0") [] tok) s in
      (s', read_answer read_array [] a)

  unfoldable pub take_leased : Text → Text → Text → Text → Text → Run S (ℕ × LeaseReply)
  take_leased estate station dir tok lease s =
      let (s', a) = p.send (fetch estate station dir (bytes "0") lease tok) s in
      (s', read_answer read_lease (record { lease = []; until = []; messages = [] }) a)

  unfoldable pub ack : Text → Text → Text → Text → Text → Run S (ℕ × ℕ)
  ack estate station dir tok lease s =
      let (s', a) = p.send (acknowledge estate station dir lease tok) s in
      (s', read_answer read_deleted 0 a)
