-- ===== src/Notification/Final.antt =====
-- A delivery that was sent, or that was given up, stays as it is through `DeliverDue`.
use mathlib.Core.Path.{subst}
use konzhitai.Prelude.{
  ℕ, zero, suc, ◌≡◌, ◌≢◌, refl, sym, ◌∙◌, ap, String, Bool, true, false, not, ◌&&◌, ◌⊎◌, inl, inr,
  Option, none, some, List, [], ◌∷◌, All, Result, ok, err, if◌then◌else◌, ◌==◌, string_eq, leb,
  arith,
}
use konzhitai.Clock.{Time, add}
use konzhitai.Notification.{
  DeliveryStatus, Delivery, Config, Database, Error, Outside, failure, due, candidate, earlier,
  claimed, update, mark_sent, mark_failed, enabled_config, claim_due, World, statement,
  record_failure, retry_delay, sent_or_failed, resolved_or_failed, deliver, next_round,
  deliver_claim, deliver_one, deliver_rounds, deliver_due,
}
use konzhitai.Notification.Kept.{
  is_final, Kept, Kept-refl, Forward, Forward-refl, Forward-trans, Keyed, Keyed-Forward,
  update_sending-Forward,
}

module _ {Message : Type 0} where
  abbrev Among : Delivery Message → List (Delivery Message) → Type 0
  Among d [] = ⊥
  Among d (e ∷ es) = (e ≡ d) ⊎ Among d es

  candidate-Among :
      (now : Time) (ds : List (Delivery Message)) (c : Delivery Message)
      → candidate now ds ≡ some c
      → Among c ds × (due now c ≡ true)
  candidate-Among now [] c h = absurd (ground (arith, h))
  candidate-Among now (d ∷ ds) c h =
      step (candidate now ds) (due now d) refl (candidate-Among now ds) h
    where
      same : (e : Delivery Message) → some e ≡ some c → e ≡ c
      same e g = ground (arith, g)

      step :
          (o : Option (Delivery Message)) (b : Bool)
          → due now d ≡ b
          → ((e : Delivery Message) → o ≡ some e → Among e ds × (due now e ≡ true))
          → elim o [
            | none ↦ if b then some d else none
            | some e ↦ if b && not (earlier e d) then some d else some e
          ]
            ≡ some c
          → Among c (d ∷ ds) × (due now c ≡ true)
      step none true q ih e = (inl (same d e), ap (due now) (sym (same d e)) ∙ q)
      step none false q ih e = absurd (ground (arith, e))
      step (some x) false q ih e = let (m, g) = ih c e in (inr m, g)
      step (some x) true q ih e = picked (earlier x d) e
        where
          picked :
              (y : Bool)
              → (if not y then some d else some x) ≡ some c
              → Among c (d ∷ ds) × (due now c ≡ true)
          picked false g = (inl (same d g), ap (due now) (sym (same d g)) ∙ q)
          picked true g = let (m, k) = ih c g in (inr m, k)

  claimed-Kept : (now : Time) (d : Delivery Message) → due now d ≡ true → Kept d (claimed now d)
  claimed-Kept now d h = record {
    same_id = refl;
    final = λ f. absurd (step d.status refl f);
    counted = ground arith;
  }
    where
      step : (x : DeliveryStatus) → d.status ≡ x → is_final d.status ≡ true → ⊥
      step DeliveryStatus.sent p f = ground (arith, h, p)
      step DeliveryStatus.failed p f = ground (arith, h, p)
      step DeliveryStatus.pending p f = ground (arith, f, p)
      step DeliveryStatus.retrying p f = ground (arith, f, p)
      step DeliveryStatus.sending p f = ground (arith, f, p)

  update_absent :
      (id : String) (f : Delivery Message → Delivery Message) (ds : List (Delivery Message))
      → All (λ e. e.id ≢ id) ds
      → update id f ds ≡ ds
  update_absent id f [] h = refl
  update_absent id f (d ∷ ds) (h, hs) = ground (arith, h, update_absent id f ds hs)

  Among-other :
      (c d : Delivery Message) (ds : List (Delivery Message))
      → Among c ds
      → All (λ e. e.id ≢ d.id) ds
      → d.id ≢ c.id
  Among-other c d [] m h = absurd m
  Among-other c d (e ∷ es) (inl p) (h, hs) = λ g. h (ap (λ x. x.id) p ∙ sym g)
  Among-other c d (e ∷ es) (inr m) (h, hs) = Among-other c d es m hs

  update_one-Forward :
      (f : Delivery Message → Delivery Message) (c : Delivery Message)
      (ds : List (Delivery Message))
      → Keyed ds
      → Among c ds
      → Kept c (f c)
      → Forward ds (update c.id f ds)
  update_one-Forward f c [] k m h = tt
  update_one-Forward f c (d ∷ ds) (fresh, k) (inl p) h = (
    own (d.id == c.id),
    subst (Forward ds)
        (sym (update_absent c.id f ds (subst (λ x. All (λ e. e.id ≢ x.id) ds) p fresh)))
        (Forward-refl ds),
  )
    where
      own : (b : Bool) → Kept d (if b then f d else d)
      own true = subst (λ x. Kept x (f x)) (sym p) h
      own false = Kept-refl d
  update_one-Forward f c (d ∷ ds) (fresh, k) (inr m) h = (
    subst (Kept d) (ground (arith, Among-other c d ds m fresh)) (Kept-refl d),
    update_one-Forward f c ds k m h,
  )

  claim_due-Forward :
      (now : Time) (db : Database Message)
      → Keyed db.outbox
      → Forward db.outbox (claim_due now db).1.outbox
  claim_due-Forward now db k = step (enabled_config db.config) (candidate now db.outbox) refl
    where
      outbox_of : Option (Delivery Message × Config) × Database Message → List (Delivery Message)
      outbox_of x = x.1.outbox

      step :
          (x : Option Config) (y : Option (Delivery Message))
          → candidate now db.outbox ≡ y
          → Forward db.outbox (
              outbox_of (elim x [
                | none ↦ (none, db)
                | some c ↦ elim y [
                  | none ↦ (none, db)
                  | some d ↦ (
                    some (claimed now d, c),
                    record db { outbox = update d.id (claimed now) db.outbox },
                  )
                ]
              ]))
      step none y p = Forward-refl db.outbox
      step (some c) none p = Forward-refl db.outbox
      step (some c) (some d) p =
          let (m, h) = candidate-Among now db.outbox d p in
          update_one-Forward (claimed now) d db.outbox k m (claimed-Kept now d h)

module _ {Message : Type 0} (outside : Outside Message) where
  open outside use {State, now, answers, resolve, send}

  statement-Forward :
      (f : Database Message → Result Error (Unit {0}) × Database Message) (w : World outside)
      → ((db : Database Message) → Forward db.outbox (f db).1.outbox)
      → Forward w.1.outbox (statement outside f w).1.1.outbox
  statement-Forward f (s, db) h = step (answers s).0
    where
      outbox_of : Result Error (Unit {0}) × World outside → List (Delivery Message)
      outbox_of x = x.1.1.outbox

      step :
          (b : Bool)
          → Forward db.outbox (
              outbox_of (
                if b
                then ((f db).0, ((answers s).1, (f db).1))
                else (err (failure "outbox"), ((answers s).1, db))))
      step true = h db
      step false = Forward-refl db.outbox

  record_failure-Forward :
      (d : Delivery Message) (message : String) (at : Time) (w : World outside)
      → Forward w.1.outbox (record_failure outside d message at w).1.1.outbox
  record_failure-Forward d message at w =
      statement-Forward
        (mark_failed d.id message
          (if leb 24 d.attempts then at else add at (retry_delay d.attempts)) (leb 24 d.attempts)
          at)
        w (λ db. update_sending-Forward d.id _ db (λ e. refl) (λ e. refl))

  deliver-Forward :
      (d : Delivery Message) (c : Config) (at : Time) (w : World outside)
      → Forward w.1.outbox (deliver outside d c at w).1.1.outbox
  unfolding deliver
  deliver-Forward d c at (s, db) = step (resolve c.webhook_secret_id c.signing_secret_id s)
    where
      sent :
          (x : Option String × State)
          → Forward db.outbox (sent_or_failed outside d at x db).1.1.outbox
      sent (none, t) = record_failure-Forward d "飞书消息发送失败" at (t, db)
      sent (some response_id, t) =
          statement-Forward (mark_sent d.id response_id at) (t, db)
            (λ db. update_sending-Forward d.id _ db (λ e. refl) (λ e. refl))

      step :
          (x : Option (String × String) × State)
          → Forward db.outbox (resolved_or_failed outside d at x db).1.1.outbox
      step (none, t) = record_failure-Forward d "读取飞书通知凭据失败" at (t, db)
      step (some (webhook, signing), t) = sent (send webhook signing d.payload t)

  deliver_claim-Forward :
      (at : Time) (s : State) (x : Option (Delivery Message × Config) × Database Message)
      → Forward x.1.outbox (deliver_claim outside at s x).1.1.outbox
  unfolding deliver_claim
  deliver_claim-Forward at s (none, db) = Forward-refl db.outbox
  deliver_claim-Forward at s (some (d, c), db) =
      round (deliver outside d c at (s, db)) (deliver-Forward d c at (s, db))
    where
      round :
          (r : Result Error (Unit {0}) × World outside)
          → Forward db.outbox r.1.1.outbox
          → Forward db.outbox (next_round outside r).1.1.outbox
      round (ok a, w) h = h
      round (err e, w) h = h

  deliver_one-Forward :
      (w : World outside) → Keyed w.1.outbox → Forward w.1.outbox (deliver_one outside w).1.1.outbox
  unfolding deliver_one
  deliver_one-Forward (s, db) k = step (answers (now s).1).0
    where
      at : Time
      at = (now s).0

      u : State
      u = (answers (now s).1).1

      outbox_of : Option (Result Error (Unit {0})) × World outside → List (Delivery Message)
      outbox_of x = x.1.1.outbox

      step :
          (b : Bool)
          → Forward db.outbox (
              outbox_of (
                if b
                then deliver_claim outside at u (claim_due at db)
                else (some (err (failure "outbox")), (u, db))))
      step true =
          Forward-trans db.outbox (claim_due at db).1.outbox
            (deliver_claim outside at u (claim_due at db)).1.1.outbox (claim_due-Forward at db k)
            (deliver_claim-Forward at u (claim_due at db))
      step false = Forward-refl db.outbox

  deliver_rounds-Forward :
      (n : ℕ) (w : World outside)
      → Keyed w.1.outbox
      → Forward w.1.outbox (deliver_rounds outside n w).1.1.outbox
  unfolding deliver_rounds
  deliver_rounds-Forward zero w k = Forward-refl w.1.outbox
  deliver_rounds-Forward (suc n) w k = step (deliver_one outside w).0 (deliver_one-Forward w k) (
      deliver_rounds-Forward n (deliver_one outside w).1
        (Keyed-Forward w.1.outbox (deliver_one outside w).1.1.outbox (deliver_one-Forward w k) k))
    where
      v : World outside
      v = (deliver_one outside w).1

      outbox_of : Result Error (Unit {0}) × World outside → List (Delivery Message)
      outbox_of x = x.1.1.outbox

      step :
          (o : Option (Result Error (Unit {0})))
          → Forward w.1.outbox v.1.outbox
          → Forward v.1.outbox (deliver_rounds outside n v).1.1.outbox
          → Forward w.1.outbox
              (outbox_of (elim o [ some r ↦ (r, v) | none ↦ deliver_rounds outside n v ]))
      step (some r) h g = h
      step none h g =
          Forward-trans w.1.outbox v.1.outbox (deliver_rounds outside n v).1.1.outbox h g

  -- Whatever the clock, the database, the secrets and the sending do, `DeliverDue` keeps each delivery under its key,
  -- takes none of its attempts back, and changes none that was sent or given up.
  pub deliver_due-Forward :
      (w : World outside) → Keyed w.1.outbox → Forward w.1.outbox (deliver_due outside w).1.1.outbox
  unfolding deliver_due
  deliver_due-Forward w k = deliver_rounds-Forward 100 w k
