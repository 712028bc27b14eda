-- ===== src/Conformance/Passing.antt =====
-- Run's sections on the exchange of messages and on credentials, against a relay with a spool.
use heliograph_relay.Common.{
  ℕ, ◌+◌, ◌<◌, ◌≡◌, refl, ap, ◌∙◌, ◌⊎◌, inl, inr, true, false, List, [], ◌∷◌, ◌++◌, map, All,
  All-append, Text, bytes, same, same_refl, length, length-append, arith,
}
use heliograph_relay.Relay.Message.{Message, key, valid_route}
use heliograph_relay.Relay.Store.{queue}
use heliograph_relay.Spool.Disk.{Codec}
use heliograph_relay.Auth.Types.{Reason, refusal, status, detail}
use heliograph_relay.Auth.Scoped.{Authoriser, c2s, s2c}
use heliograph_relay.Server.LeaseParam.{Floats}
use heliograph_relay.Server.Reply.{refuse}
use heliograph_relay.Recovery.Mirror.{Survives}
use heliograph_relay.Conformance.Client.{Target, Result, Msg, Run}
use heliograph_relay.Conformance.Client
use heliograph_relay.Conformance.Durability.{report, count_results}
use heliograph_relay.Conformance.Exchange.{
  exchanged, scopes_split, credentials_wanted, reasons_given, exchange_sections, ciphertext,
  unchanged, wrong_token,
}
use heliograph_relay.Conformance.Machine.{Bench, Machine, machine, msg_of, reason_text, content_of}
use heliograph_relay.Conformance.Stations.{same-key_dir}
use heliograph_relay.Conformance.Steps
use heliograph_relay.Conformance.Calls
use heliograph_relay.Conformance.Ready.{
  Sends, Collects, Denies, DeniesRead, Calm, Keeps, queue_at, Ready, Fresh, Fresh-Waits,
}

-- The assertions were made, and hold.
abbrev pub Passed : List Result → Type 0
Passed rs = All (λ r. (r.good ≡ true) × (r.skipped ≡ false)) rs

counted :
    (rs : List Result)
    → Passed rs
    → count_results rs ≡ record { pass = length rs; fail = 0; skipped = 0 }
unfolding count_results
counted [] h = refl
counted (r ∷ rs) h = rw (h.0.0, h.0.1, counted rs h.1) (ground arith)

-- Report counts them all as passes.
pub report-Passed :
    (rs : List Result)
    → Passed rs
    → report rs ≡ (record { pass = length rs; fail = 0; skipped = 0 }, true)
unfolding report
report-Passed rs h = rw (counted rs h) refl

Passed-append : (rs ss : List Result) → Passed rs → Passed ss → Passed (rs ++ ss)
Passed-append rs ss h k =
    All-append (λ (r : Result). (r.good ≡ true) × (r.skipped ≡ false)) rs ss h k

followed :
    (rs : List Result) (name : Text) → Passed rs → Passed (rs ++ Client.assert name true ∷ [])
followed rs name h = Passed-append rs _ h ((refl, refl), tt)

-- How the authoriser judges the suite's credentials.
pub record Judges (auth : Authoriser) (Sane : auth.State → Type 0) (t : Target) : Type 0 where
  pub control_sends : Sends auth Sane t.estate c2s t.control
  pub station_sends : Sends auth Sane t.estate s2c t.station_tok
  pub station_collects : Collects auth Sane t.estate c2s t.station_tok
  pub control_collects : Collects auth Sane t.estate s2c t.control
  pub station_refused : Denies auth Sane t.estate c2s t.station_tok Reason.wrong_direction
  pub control_refused : Denies auth Sane t.estate s2c t.control Reason.wrong_direction
  pub nobody_sends : Denies auth Sane t.estate c2s [] Reason.no_credential
  pub nobody_collects : DeniesRead auth Sane t.estate c2s [] Reason.no_credential
  pub stranger_refused : Denies auth Sane t.estate c2s wrong_token Reason.bad_credential

module _ (c : Codec) (fl : Floats) (auth : Authoriser) (b : Bench auth.State) (t : Target)
    (Sane : auth.State → Type 0) (keeps : Keeps auth Sane) (judges : Judges auth Sane t)
    (begin file : ℕ) (calm : Calm b begin file) (uniq : Text)
    (valid : valid_route t.estate uniq c2s ≡ true) (valid' : valid_route t.estate uniq s2c ≡ true)
    (survives_on : (x : Message)
      → x.estate ≡ t.estate
      → x.station ≡ uniq
      → (x.dir ≡ c2s) ⊎ (x.dir ≡ s2c)
      → Survives c x) where
  abbrev relay : Client.Peer (Machine auth.State)
  relay = machine c fl auth b

  -- The relay is ready for its call number `n`, with nothing on the run's two routes.
  abbrev pub Empty : ℕ → Machine auth.State → Type 0
  Empty n w =
      Ready c Sane begin file n w
      × (queue_at t.estate uniq c2s w ≡ [])
      × (queue_at t.estate uniq s2c w ≡ [])

  apart : same (key t.estate uniq c2s) (key t.estate uniq s2c) ≡ false
  unfolding same
  apart = same-key_dir t.estate uniq c2s s2c

  apart' : same (key t.estate uniq s2c) (key t.estate uniq c2s) ≡ false
  unfolding same
  apart' = same-key_dir t.estate uniq s2c c2s

  one_unchanged :
      (x : Message)
      → Fresh begin 1 ciphertext x
      → Passed (unchanged ciphertext (map msg_of (x ∷ [])))
  one_unchanged x fresh =
      rw (fresh.body_eq, fresh.seq_eq, same_refl ciphertext) ((refl, refl), ((refl, refl), tt))

  exchanged_passes :
      (n : ℕ) (w : Machine auth.State)
      → n < 80
      → Empty n w
      → (Passed (exchanged relay t uniq w).1 × (length (exchanged relay t uniq w).1 ≡ 6))
        × Empty (((n + 1) + 1) + 1) (exchanged relay t uniq w).0
  unfolding exchanged Client.put
  exchanged_passes n w few (h, vacant, vacant') =
      let (told, h₁, (x, alone, fresh), same₁) =
        Steps.put_step c fl auth b Sane keeps begin file calm t.estate uniq c2s valid n w
          (omega arith) h t.control 1 ciphertext judges.control_sends vacant (omega arith)
          (λ x e st d. survives_on x e st (inl d)) in
      let w₁ = (Client.put_r relay t.estate uniq c2s t.control 1 ciphertext w).0 in
      let (handed, h₂, emptied, same₂) =
        Calls.take_step c fl auth b Sane keeps begin file calm t.estate uniq c2s valid (n + 1) w₁
          (omega arith) h₁ t.station_tok (x ∷ []) judges.station_collects
          (
            Fresh-Waits c b Sane begin file (n + 1) calm w₁ h₁ 1 ciphertext x (omega arith) fresh,
            tt,
          )
          alone in
      let w₂ = (Client.take relay t.estate uniq c2s t.station_tok w₁).0 in
      let (again, h₃, emptied', same₃) =
        Calls.take_step c fl auth b Sane keeps begin file calm t.estate uniq c2s valid ((n + 1) + 1)
          w₂ (omega arith) h₂ t.station_tok [] judges.station_collects tt emptied in
      let j = key t.estate uniq s2c in
      (
        rw (told, handed, again)
            (
              (
                (refl, refl),
                (
                  (refl, refl),
                  (
                    (refl, refl),
                    followed (unchanged ciphertext (map msg_of (x ∷ [])))
                        (bytes "a collected message is not delivered twice")
                        (one_unchanged x fresh),
                  ),
                ),
              ),
              refl,
            ),
        (h₃, emptied', same₃ j apart ∙ same₂ j apart ∙ same₁ j apart ∙ vacant'),
      )

  scopes_split_passes :
      (n : ℕ) (w : Machine auth.State)
      → n < 80
      → Empty n w
      → Passed (scopes_split relay t uniq w).1
        × Empty ((((n + 1) + 1) + 1) + 1) (scopes_split relay t uniq w).0
  unfolding scopes_split Client.put status refuse
  scopes_split_passes n w few (h, vacant, vacant') =
      let (evil, h₁, same₁) =
        Calls.put_refused c fl auth b Sane keeps begin file calm t.estate uniq c2s valid n w
          (omega arith) h t.station_tok Reason.wrong_direction 2 (bytes "evil")
          (judges.station_refused _ _ _ _ valid h.sane) in
      let w₁ = (Client.put_r relay t.estate uniq c2s t.station_tok 2 (bytes "evil") w).0 in
      let (fake, h₂, same₂) =
        Calls.put_refused c fl auth b Sane keeps begin file calm t.estate uniq s2c valid' (n + 1) w₁
          (omega arith) h₁ t.control Reason.wrong_direction 2 (bytes "fake status")
          (judges.control_refused _ _ _ _ valid' h₁.sane) in
      let w₂ = (Client.put_r relay t.estate uniq s2c t.control 2 (bytes "fake status") w₁).0 in
      let j = key t.estate uniq s2c in
      let (real, h₃, (x, alone, fresh), same₃) =
        Steps.put_step c fl auth b Sane keeps begin file calm t.estate uniq s2c valid' ((n + 1) + 1)
          w₂ (omega arith) h₂ t.station_tok 1 (bytes "real status") judges.station_sends
          (same₂ j ∙ same₁ j ∙ vacant') (omega arith) (λ x e st d. survives_on x e st (inr d)) in
      let w₃ = (Client.put_r relay t.estate uniq s2c t.station_tok 1 (bytes "real status") w₂).0 in
      let (handed, h₄, emptied, same₄) =
        Calls.take_step c fl auth b Sane keeps begin file calm t.estate uniq s2c valid'
          (((n + 1) + 1) + 1) w₃ (omega arith) h₃ t.control (x ∷ []) judges.control_collects
          (
            Fresh-Waits c b Sane begin file (((n + 1) + 1) + 1) calm w₃ h₃ 1 (bytes "real status") x
                (omega arith) fresh,
            tt,
          )
          alone in
      let k = key t.estate uniq c2s in
      (
        rw (evil, fake, real, handed)
            ((refl, refl), ((refl, refl), ((refl, refl), ((refl, refl), tt)))),
        (h₄, same₄ k apart' ∙ same₃ k apart' ∙ same₂ k ∙ same₁ k ∙ vacant, emptied),
      )

  -- A call that is refused on the way to the station, and what it leaves.
  module _ (n : ℕ) (w : Machine auth.State) (few : n < 90) (e : Empty n w) where
    abbrev still_empty :
        (w' : Machine auth.State)
        → Ready c Sane begin file (n + 1) w'
        → ((j : Text) → queue j w'.server.store ≡ queue j w.server.store)
        → Empty (n + 1) w'
    still_empty w' h same_queues =
        (h, same_queues (key t.estate uniq c2s) ∙ e.1, same_queues (key t.estate uniq s2c) ∙ e.2)

    send_refused :
        (tok : Text) (why : Reason) (seq : ℕ) (body : Text)
        → Denies auth Sane t.estate c2s tok why
        → let r = Client.put_r relay t.estate uniq c2s tok seq body w in
          (r.1 ≡ (
            (refuse (refusal why)).code,
            Client.read_refusal (content_of b.stamp (refuse (refusal why)).body),
          ))
          × Empty (n + 1) r.0
    send_refused tok why seq body denies =
        let (answer, h, same_queues) =
          Calls.put_refused c fl auth b Sane keeps begin file calm t.estate uniq c2s valid n w
            (omega arith) e.0 tok why seq body (denies _ _ _ _ valid e.0.sane) in
        (answer, still_empty _ h same_queues)

  credentials_wanted_passes :
      (n : ℕ) (w : Machine auth.State)
      → n < 80
      → Empty n w
      → Passed (credentials_wanted relay t uniq w).1
        × Empty (((n + 1) + 1) + 1) (credentials_wanted relay t uniq w).0
  unfolding credentials_wanted Client.put status refuse
  credentials_wanted_passes n w few e =
      let (none_put, e₁) =
        send_refused n w (omega arith) e [] Reason.no_credential 3 (bytes "x")
          judges.nobody_sends in
      let w₁ = (Client.put_r relay t.estate uniq c2s [] 3 (bytes "x") w).0 in
      let (none_get, h₂, same₂) =
        Calls.take_refused c fl auth b Sane keeps begin file calm t.estate uniq c2s valid (n + 1) w₁
          (omega arith) e₁.0 [] Reason.no_credential
          (judges.nobody_collects _ _ _ valid e₁.0.sane) in
      let w₂ = (Client.take relay t.estate uniq c2s [] w₁).0 in
      let (wrong, e₃) =
        send_refused ((n + 1) + 1) w₂ (omega arith)
          (still_empty (n + 1) w₁ (omega arith) e₁ w₂ h₂ same₂) wrong_token Reason.bad_credential 3
          (bytes "x") judges.stranger_refused in
      (rw (none_put, none_get, wrong) ((refl, refl), ((refl, refl), ((refl, refl), tt))), e₃)

  reasons_given_passes :
      (n : ℕ) (w : Machine auth.State)
      → n < 80
      → Empty n w
      → Passed (reasons_given relay t uniq w).1
        × Empty (((n + 1) + 1) + 1) (reasons_given relay t uniq w).0
  unfolding reasons_given status refuse reason_text detail same
  reasons_given_passes n w few e =
      let (none, e₁) =
        send_refused n w (omega arith) e [] Reason.no_credential 3 (bytes "x")
          judges.nobody_sends in
      let w₁ = (Client.put_r relay t.estate uniq c2s [] 3 (bytes "x") w).0 in
      let (wrong, e₂) =
        send_refused (n + 1) w₁ (omega arith) e₁ wrong_token Reason.bad_credential 3 (bytes "x")
          judges.stranger_refused in
      let w₂ = (Client.put_r relay t.estate uniq c2s wrong_token 3 (bytes "x") w₁).0 in
      let (dirn, e₃) =
        send_refused ((n + 1) + 1) w₂ (omega arith) e₂ t.station_tok Reason.wrong_direction 3
          (bytes "x") judges.station_refused in
      (
        rw (none, wrong, dirn) ((refl, refl), ((refl, refl), ((refl, refl), ((refl, refl), tt)))),
        e₃,
      )

  -- The first sections of Run pass against this relay.
  pub exchange_passes :
      (w : Machine auth.State)
      → Empty 0 w
      → report (exchange_sections relay t uniq w).1
        ≡ (record { pass = 17; fail = 0; skipped = 0 }, true)
  unfolding exchange_sections scopes_split credentials_wanted reasons_given
  exchange_passes w e =
      let ((a, six), e₁) = exchanged_passes 0 w (omega arith) e in
      let w₁ = (exchanged relay t uniq w).0 in
      let (b', e₂) = scopes_split_passes _ w₁ (omega arith) e₁ in
      let w₂ = (scopes_split relay t uniq w₁).0 in
      let (c', e₃) = credentials_wanted_passes _ w₂ (omega arith) e₂ in
      let w₃ = (credentials_wanted relay t uniq w₂).0 in
      let (d, _) = reasons_given_passes _ w₃ (omega arith) e₃ in
      let rs = (exchanged relay t uniq w).1 in
      let ss = (scopes_split relay t uniq w₁).1 in
      let ts = (credentials_wanted relay t uniq w₂).1 in
      let us = (reasons_given relay t uniq w₃).1 in
      let all_passed =
        Passed-append rs (ss ++ (ts ++ us)) a
          (Passed-append ss (ts ++ us) b' (Passed-append ts us c' d)) in
      report-Passed (exchange_sections relay t uniq w).1 all_passed
      ∙ ap (λ (k : ℕ). (record { pass = k; fail = 0; skipped = 0 }, true))
          (length-append rs (ss ++ (ts ++ us)) ∙ rw six refl)
