-- ===== src/Notification/Kept.antt =====
-- What the statements on `notification_outbox` may make of a delivery: its key and its attempts stay, and one that was
-- sent or given up stays as it is.
use mathlib.Core.Path.{subst}
use konzhitai.Prelude.{
  ◌≤◌, ◌≡◌, ◌≢◌, refl, sym, ◌∙◌, ap, String, Bool, true, false, ◌&&◌, List, [], ◌∷◌, any, All,
  Result, ok, err, if◌then◌else◌, ◌==◌, string_eq, arith,
}
use konzhitai.Notification.{
  DeliveryStatus, Delivery, Database, Error, delivery_not_found, is_sending, update, if_sending,
  update_sending,
}

abbrev pub is_final : DeliveryStatus → Bool
is_final DeliveryStatus.sent = true
is_final DeliveryStatus.failed = true
is_final _ = false

module _ {Message : Type 0} where
  -- What later steps may make of a delivery.
  pub record Kept (d e : Delivery Message) : Type 0 where
    pub same_id : e.id ≡ d.id
    pub final : is_final d.status ≡ true → e ≡ d
    pub counted : d.attempts ≤ e.attempts

  pub Kept-refl : (d : Delivery Message) → Kept d d
  Kept-refl d = record { same_id = refl; final = λ h. refl; counted = omega arith }

  pub Kept-trans : (d e f : Delivery Message) → Kept d e → Kept e f → Kept d f
  Kept-trans d e f k l = record {
    same_id = l.same_id ∙ k.same_id;
    final = λ h. l.final (ap (λ x. is_final x.status) (k.final h) ∙ h) ∙ k.final h;
    counted = ground (arith, k.counted, l.counted);
  }

  abbrev pub Forward : List (Delivery Message) → List (Delivery Message) → Type 0
  Forward [] [] = Unit
  Forward [] (e ∷ es) = ⊥
  Forward (d ∷ ds) [] = ⊥
  Forward (d ∷ ds) (e ∷ es) = Kept d e × Forward ds es

  pub Forward-refl : (ds : List (Delivery Message)) → Forward ds ds
  Forward-refl [] = tt
  Forward-refl (d ∷ ds) = (Kept-refl d, Forward-refl ds)

  pub Forward-trans :
      (ds es fs : List (Delivery Message)) → Forward ds es → Forward es fs → Forward ds fs
  Forward-trans [] [] [] h k = tt
  Forward-trans [] [] (f ∷ fs) h k = absurd k
  Forward-trans [] (e ∷ es) fs h k = absurd h
  Forward-trans (d ∷ ds) [] fs h k = absurd h
  Forward-trans (d ∷ ds) (e ∷ es) [] h k = absurd k
  Forward-trans (d ∷ ds) (e ∷ es) (f ∷ fs) (h, hs) (k, ks) =
      (Kept-trans d e f h k, Forward-trans ds es fs hs ks)

  -- The primary key.
  abbrev pub Keyed : List (Delivery Message) → Type 0
  Keyed [] = Unit
  Keyed (d ∷ ds) = All (λ e. e.id ≢ d.id) ds × Keyed ds

  pub Fresh-Forward :
      (id : String) (ds es : List (Delivery Message))
      → Forward ds es
      → All (λ e. e.id ≢ id) ds
      → All (λ e. e.id ≢ id) es
  Fresh-Forward id [] [] h f = tt
  Fresh-Forward id [] (e ∷ es) h f = absurd h
  Fresh-Forward id (d ∷ ds) [] h f = absurd h
  Fresh-Forward id (d ∷ ds) (e ∷ es) (h, hs) (f, fs) =
      ((λ g. f (sym h.same_id ∙ g)), Fresh-Forward id ds es hs fs)

  pub Keyed-Forward : (ds es : List (Delivery Message)) → Forward ds es → Keyed ds → Keyed es
  Keyed-Forward [] [] h k = tt
  Keyed-Forward [] (e ∷ es) h k = absurd h
  Keyed-Forward (d ∷ ds) [] h k = absurd h
  Keyed-Forward (d ∷ ds) (e ∷ es) (h, hs) (f, k) = (
    subst (λ i. All (λ x. x.id ≢ i) es) (sym h.same_id) (Fresh-Forward d.id ds es hs f),
    Keyed-Forward ds es hs k,
  )

  -- An update of any row of the key, and that of the one row that is there.
  pub update-Forward :
      (id : String) (f : Delivery Message → Delivery Message) (ds : List (Delivery Message))
      → ((d : Delivery Message) → Kept d (f d))
      → Forward ds (update id f ds)
  update-Forward id f [] h = tt
  update-Forward id f (d ∷ ds) h = (step (d.id == id), update-Forward id f ds h)
    where
      step : (b : Bool) → Kept d (if b then f d else d)
      step true = h d
      step false = Kept-refl d

  pub if_sending-Kept :
      (f : Delivery Message → Delivery Message)
      → ((d : Delivery Message) → (f d).id ≡ d.id)
      → ((d : Delivery Message) → (f d).attempts ≡ d.attempts)
      → (d : Delivery Message) → Kept d (if_sending f d)
  if_sending-Kept f i n d = step d.status refl
    where
      step : (x : DeliveryStatus) → d.status ≡ x → Kept d (if is_sending x then f d else d)
      step DeliveryStatus.sending p = record {
        same_id = i d;
        final = λ h. absurd (ground (arith, p, h));
        counted = ground (arith, n d);
      }
      step DeliveryStatus.pending p = Kept-refl d
      step DeliveryStatus.retrying p = Kept-refl d
      step DeliveryStatus.sent p = Kept-refl d
      step DeliveryStatus.failed p = Kept-refl d

  pub update_sending-Forward :
      (id : String) (f : Delivery Message → Delivery Message) (db : Database Message)
      → ((d : Delivery Message) → (f d).id ≡ d.id)
      → ((d : Delivery Message) → (f d).attempts ≡ d.attempts)
      → Forward db.outbox (update_sending id f db).1.outbox
  update_sending-Forward id f db i n = step (any (λ d. d.id == id && is_sending d.status) db.outbox)
    where
      outbox_of : Result Error (Unit {0}) × Database Message → List (Delivery Message)
      outbox_of x = x.1.outbox

      step :
          (b : Bool)
          → Forward db.outbox (
              outbox_of (
                if b
                then (ok tt, record db { outbox = update id (if_sending f) db.outbox })
                else (err delivery_not_found, db)))
      step true = update-Forward id (if_sending f) db.outbox (if_sending-Kept f i n)
      step false = Forward-refl db.outbox
