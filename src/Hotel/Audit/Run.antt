-- ===== src/Hotel/Audit/Run.antt =====
-- What a run of the night audit of custom-addons/goliatt_pms/models/pms_night_audit.py does.
use odoo_custom.Prelude.{
  ◌≤◌, ◌<◌, ◌↔◌, Memᴰ, keep_if-member, member-keep_if, ◌≡◌, ◌≢◌, refl, sym, ap, ◌∙◌, List, arith,
  All, subst, map,
}
use odoo_custom.Hotel.Schema.{
  checked_in, Reservation, Floats, HasUnit, AuditState, Charge, Hotel, audit_completed, ok, err,
}
use odoo_custom.Hotel.Folio.{sum_onto, charge_amount}
use odoo_custom.Hotel.Audit.{
  Audit, is_in_house, in_house, no_shows, post_charges, mark_no_shows, action_run, total_revenue,
}
use odoo_custom.Hotel.Audit.Posting.{
  reverse_onto, AreNights, AreNights-amounts, post_charges-PostsAll,
}
use odoo_custom.Hotel.Audit.Marking.{
  IsSettled, keep_if-AreListed, mark_no_shows-IsSettled, mark_no_shows-rest,
}

module _ {A : Type 0} where
  -- The reservation is checked in at the property of the audit and stays over the night of its date.
  abbrev pub IsStaying : Audit → Hotel A → Reservation A → Type 0
  IsStaying audit h r =
      Memᴰ r h.reservations
      × (r.property_id ≡ audit.property_id)
      × (r.checkin_date ≤ audit.audit_date)
      × (audit.audit_date < r.checkout_date)
      × (r.state ≡ checked_in)

  in_house-IsStaying :
      (audit : Audit) (h : Hotel A) (r : Reservation A)
      → Memᴰ r (in_house audit h) ↔ IsStaying audit h r
  unfolding in_house
  in_house-IsStaying audit h r = (
    (λ m.
        let (listed, hit) =
          keep_if-member (is_in_house audit.property_id audit.audit_date) h.reservations m in
        (listed, ground arith, ground arith, ground arith, ground arith)),
    (λ (listed, here, from, until, state).
        member-keep_if (is_in_house audit.property_id audit.audit_date) h.reservations listed
          (ground arith)),
  )

module _ {A : Type 0} (F : Floats A) where
  -- What a run of the audit has done: its one new charge for each reservation in house, the revenue
  -- that these make, and no expected guest of the date left.
  pub record IsAudited (audit : Audit) (h h' : Hotel A) : Type 0 where
    pub posted : List (Charge A)
    pub charged : h'.charges ≡ reverse_onto posted h.charges
    pub nights : AreNights F audit.audit_date h'.folios (in_house audit h) posted
    pub in_house_iff : (r : Reservation A) → Memᴰ r (in_house audit h) ↔ IsStaying audit h r
    pub settled : All (IsSettled audit.property_id audit.audit_date) h'.reservations

  -- The hotel after a run.
  audited : Audit → Hotel A → Hotel A
  audited audit h =
      let charged = post_charges F audit.audit_date (in_house audit h) h in
      mark_no_shows (no_shows audit charged) charged

  audited-IsAudited : (audit : Audit) (h : Hotel A) → IsAudited audit h (audited audit h)
  unfolding audited no_shows
  audited-IsAudited audit h =
      let charged = post_charges F audit.audit_date (in_house audit h) h in
      let missing = no_shows audit charged in
      let (posted, made, nights, _, _) =
        post_charges-PostsAll F audit.audit_date (in_house audit h) h in
      let (kept, folios) = mark_no_shows-rest missing charged in
      record {
        posted = posted;
        charged = kept ∙ made;
        nights =
            subst (λ fs. AreNights F audit.audit_date fs (in_house audit h) posted) (sym folios)
              nights;
        in_house_iff = in_house-IsStaying audit h;
        settled =
            mark_no_shows-IsSettled audit.property_id audit.audit_date missing charged
              (keep_if-AreListed audit.property_id audit.audit_date charged.reservations);
      }

  -- An audit that is not completed can be run: it posts exactly one charge for each reservation in
  -- house, which are the checked-in ones of the property that stay over the night of the date, for one
  -- night at its rate and on one of its open folios, and leaves no reservation of that
  -- property and that date as confirmed or guaranteed; a second run is refused.
  pub action_run-IsAudited :
      (audit : Audit) (h : Hotel A)
      → audit.state ≢ AuditState.completed
      → (audit' : Audit) × (h' : Hotel A) × (action_run F audit h ≡ ok (audit', h'))
        × IsAudited audit h h'
        × ((h'' : Hotel A) → action_run F audit' h'' ≡ err audit_completed)
  unfolding action_run audited
  action_run-IsAudited audit h fresh = (
    record audit { state = AuditState.completed },
    audited audit h,
    ground arith,
    audited-IsAudited audit h,
    (λ h''. refl),
  )

  -- The charges that a run of the audit posts come to the revenue that its statistics computed before.
  pub action_run-total_revenue :
      (unit : HasUnit F) (audit : Audit) (h : Hotel A) {audit' : Audit} {h' : Hotel A}
      → action_run F audit h ≡ ok (audit', h')
      → (posted : List (Charge A)) × (h'.charges ≡ reverse_onto posted h.charges)
        × (sum_onto F F.zero (map (charge_amount F) posted) ≡ total_revenue F audit h)
  unfolding action_run audited total_revenue
  action_run-total_revenue unit audit h {audit'} {h'} e =
      let is : audited audit h ≡ h' = ground (arith, e) in
      let d = audited-IsAudited audit h in
      (
        d.posted,
        subst (λ (g : Hotel A). g.charges ≡ reverse_onto d.posted h.charges) is d.charged,
        ap (sum_onto F F.zero)
            (AreNights-amounts F audit.audit_date unit _ (in_house audit h) d.posted d.nights),
      )
