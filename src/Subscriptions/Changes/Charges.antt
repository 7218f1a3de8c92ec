-- ===== src/Subscriptions/Changes/Charges.antt =====
-- What an immediate change charges.
use paywall.Prelude.{
  ℕ, ◌+◌, ◌*◌, ◌↔◌, ◌≡◌, refl, sym, ap, ◌∙◌, inl, inr, true, false, some_eq, Option, none, some,
  get_or, ◌==◌, [], ◌∷◌, ◌++◌, arith, find_first, ok, ◌>>=◌,
}
use paywall.Prelude.Int.{ℤ, pos, negsuc, abs, pos_part, neg_part}
use paywall.Dates.{Date, add_billing_interval}
use paywall.Subscriptions.Proration.{Scale, calculate_proration}
use paywall.Subscriptions.Model.{
  PlatformEventType, Db, Subscription, SubscriptionItem, Price, ProrationRecord, FinancialEvent,
}
use paywall.Subscriptions.Store.{has_id, fresh_id, update_item, get_item, get_price}
use paywall.Subscriptions.Transition.{
  platform_event, publish_type, publish_transition, ProrationInfo, TransitionResult, is_replay,
  run_transition_info,
}
use paywall.Subscriptions.Transition.Cases.{written, run_transition_info_cases}
use paywall.Subscriptions.Changes.{
  ChangeDto, change_compute, new_price_of, proration_row, prorate, book_change, has_proration,
  change_result, financial_row, record_financial, report, is_nonneg, Change, apply_change,
}
use paywall.Subscriptions.Changes.Retries.{change_now_parts, apply_change_parts}

abs-parts : (z : ℤ) → abs z ≡ pos_part z + neg_part z
abs-parts (pos n) = omega arith
abs-parts (negsuc n) = omega arith

is_nonneg-parts : (z : ℤ) → (is_nonneg z ≡ true) ↔ (neg_part z ≡ 0)
is_nonneg-parts (pos n) = ground arith
is_nonneg-parts (negsuc n) = ground arith

publish_transition-money :
    (result : Option TransitionResult) (s : Subscription) (db : Db)
    → ((publish_transition result s db).prorations ≡ db.prorations)
      × ((publish_transition result s db).financial_events ≡ db.financial_events)
unfolding publish_transition
publish_transition-money none s db = (refl, refl)
publish_transition-money (some r) s db = go (platform_event r.event_type)
  where
    go :
        (p : Option PlatformEventType)
        → ((publish_type p s db).prorations ≡ db.prorations)
          × ((publish_type p s db).financial_events ≡ db.financial_events)
    go none = (refl, refl)
    go (some q) = (refl, refl)

record_financial_effect :
    (s : Subscription) (info : ProrationInfo) (db : Db)
    → find_first (has_proration info.id) db.financial_events ≡ none
    → ((record_financial s info db).prorations ≡ db.prorations)
      × ((record_financial s info db).financial_events
          ≡ db.financial_events ++ financial_row s info ∷ [])
unfolding record_financial
record_financial_effect s info db unused = ground arith

book_change_effect :
    (dto : ChangeDto) (s : Subscription) (item : SubscriptionItem) (price : Price)
    (row_of : ℕ → ProrationRecord) (db : Db) {r : TransitionResult} {mid : Db}
    → book_change dto s item price row_of db ≡ ok r mid
    → (r ≡ change_result dto s (row_of db.next_id))
      × (mid.prorations ≡ db.prorations ++ row_of db.next_id ∷ [])
      × (mid.financial_events ≡ db.financial_events)
unfolding fresh_id update_item
book_change_effect dto s item price row_of db {r} {mid} h = ground arith

module _ (scale : Scale) (now : Date) (id user : ℕ) (dto : ChangeDto) (db : Db) (s : Subscription)
    (item : SubscriptionItem) (price new_price : Price)
    (item_found : find_first (λ i. i.subscription_id == s.id) db.items ≡ some item)
    (price_found : find_first (λ p. p.id == item.price_id) db.prices ≡ some price)
    (target_found : find_first (λ p. p.id == get_or dto.target_price_id item.price_id) db.prices
      ≡ some new_price) where
  abbrev booked_row : ProrationRecord
  booked_row =
      proration_row now dto s item new_price (prorate scale now dto s item price new_price)
        db.next_id

  new_price_of_eq :
      (d : Db) → d.prices ≡ db.prices → new_price_of dto.target_price_id price d ≡ ok new_price d
  unfolding get_price
  new_price_of_eq d same = go dto.target_price_id target_found
    where
      go :
          (o : Option ℕ)
          → find_first (λ p. p.id == get_or o item.price_id) db.prices ≡ some new_price
          → new_price_of o price d ≡ ok new_price d
      go none h = rw (some_eq (sym price_found ∙ h), new_price_of)
      go (some k) h = rw (same, h, new_price_of)

  -- What the computation writes and returns.
  computed_booking :
      (change_compute scale now dto s db
        ≡ book_change dto s item new_price
            (proration_row now dto s item new_price (prorate scale now dto s item price new_price))
            db)
  unfolding change_compute get_item get_price
  computed_booking =
      rw (item_found, change_compute, get_item, ◌>>=◌)
        (rw (price_found, get_price, ◌>>=◌) (rw (new_price_of_eq db refl, ◌>>=◌)))

  -- What a commit of that computation leaves.
  committed_booking :
      {t : Subscription} {info : Option ProrationInfo} {mid : Db}
      → is_replay dto.options db ≡ false
      → find_first (has_id id) db.subscriptions ≡ some s
      → run_transition_info id dto.options user (change_compute scale now dto) db ≡ ok (t, info) mid
      → (mid.prorations ≡ db.prorations ++ booked_row ∷ [])
        × (mid.financial_events ≡ db.financial_events)
        × (info
            ≡ some (record {
              id = booked_row.id;
              net_minor = booked_row.net_minor;
              currency = booked_row.currency;
            }))
  committed_booking {t} {info} {mid} fresh found h =
      let (s', found', cases) =
        run_transition_info_cases id dto.options user (change_compute scale now dto) db h in
      elim cases [
        | inl (replay, _, _, _) ↦ absurd (ground arith)
        | inr (c, told) ↦
            let computed : change_compute scale now dto s db ≡ ok c.r c.mid =
              rw (some_eq (sym found ∙ found')) c.computed in
            let (result, booked, quiet) =
              book_change_effect dto s item new_price _ db (sym computed_booking ∙ computed) in
            let (published, published') =
              publish_transition-money (some c.r) t (written id s' dto.options user c.r c.mid) in
            (
              ap (λ d. d.prorations) c.result ∙ published ∙ booked,
              ap (λ d. d.financial_events) c.result ∙ published' ∙ quiet,
              told ∙ ap (λ x. x.info) result,
            )
      ]

  -- An immediate change that succeeds and is not a replay adds one proration record and one
  -- financial event, provided no financial event has the key of the new record. The credit, the
  -- charge and the net amount are those of calculateProration from now to the end of the row's
  -- period (without one: a period of the new price from its start, and without a start from now),
  -- for the old price at the item's quantity and the new price at the quantity asked for, or else
  -- the row's. The event has the record's id as its key, its net amount, the absolute value of that
  -- as its amount, and its currency, the new price's; it is a charge unless the net amount is
  -- negative.
  pub apply_change_books :
      (c : Change) (db' : Db)
      → dto.immediate ≡ true
      → is_replay dto.options db ≡ false
      → find_first (has_id id) db.subscriptions ≡ some s
      → find_first (has_proration db.next_id) db.financial_events ≡ none
      → apply_change scale now id user dto db ≡ ok c db'
      → let start = get_or s.current_period_start now in
        let r = calculate_proration scale (record {
          period_start = start;
          period_end =
              get_or s.current_period_end
                (add_billing_interval start new_price.interval new_price.interval_count);
          now = now;
          old_amount_minor = price.amount_minor * item.quantity;
          new_amount_minor = new_price.amount_minor * get_or dto.target_quantity s.quantity;
        }) in
        (row : ProrationRecord) × (event : FinancialEvent) × (db'.prorations
          ≡ db.prorations ++ row ∷ [])
        × (row.subscription_id ≡ s.id)
        × (row.credit_minor ≡ r.credit_minor)
        × (row.charge_minor ≡ r.charge_minor)
        × (row.net_minor ≡ r.net_minor)
        × (row.currency ≡ new_price.currency)
        × (db'.financial_events ≡ db.financial_events ++ event ∷ [])
        × (event.idempotency_key ≡ row.id)
        × (event.net_minor ≡ r.net_minor)
        × (event.amount_minor ≡ pos_part r.net_minor + neg_part r.net_minor)
        × (event.currency ≡ new_price.currency)
        × ((event.is_charge ≡ true) ↔ (neg_part r.net_minor ≡ 0))
  unfolding record_financial
  apply_change_books c db' at_once fresh found unused h =
      let (s', found', done) = apply_change_parts scale now id user dto db at_once h in
      let same : s' ≡ s = some_eq (sym found' ∙ found) in
      let (t, info, mid, ran, e, e') = change_now_parts scale now id user dto s' db done in
      let (booked, quiet, told) = committed_booking fresh found ran in
      let info' : ProrationInfo = record {
        id = booked_row.id;
        net_minor = booked_row.net_minor;
        currency = booked_row.currency;
      } in
      let reported : db' ≡ record_financial s info' mid =
        e' ∙ (λ i. report (same i) (told i) mid) in
      let (kept, added) = record_financial_effect s info' mid (rw quiet unused) in
      (
        booked_row,
        financial_row s info',
        ap (λ d. d.prorations) reported ∙ kept ∙ booked,
        refl,
        refl,
        refl,
        refl,
        refl,
        ap (λ d. d.financial_events) reported
            ∙ added
            ∙ ap (λ es. es ++ financial_row s info' ∷ []) quiet,
        refl,
        refl,
        abs-parts booked_row.net_minor,
        refl,
        is_nonneg-parts booked_row.net_minor,
      )
