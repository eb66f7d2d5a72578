-- ===== src/Validators/Dates/Rule.antt =====
-- What the rule `dates` passes.
use n8n_production_systems.Validators.Dates.{parse_date, dates, check_invoice, compare_due}
use n8n_production_systems.Validators.Dates.Calendar.{Date, IsDate, before, before_iff, key}
use n8n_production_systems.Validators.Dates.Parse.{parse_date-IsDate}
use n8n_production_systems.Text.{CharDb, Text, is_empty, or_empty}
use n8n_production_systems.Common.{
  ◌≡◌, ◌≤◌, Option, false, some, arith, true, ◌↔◌, Option-cases, inl, inr,
}
use n8n_production_systems.Text.Strip.{strip}

-- Both dates can be read, and invoice ≤ today, invoice ≤ due.
pub record IsTimely (db : CharDb) (invoice_date due_date : Option Text) (today : Date)
    : Type 0 where
  pub invoice : Date
  pub due : Date
  pub invoice_reads : parse_date db invoice_date ≡ some invoice
  pub due_reads : parse_date db due_date ≡ some due
  pub not_future : key invoice ≤ key today
  pub not_overdue : key invoice ≤ key due

module _ (db : CharDb) where
  reads_not_empty :
      (given : Option Text) (t : Date)
      → parse_date db given ≡ some t
      → is_empty (strip db (or_empty given)) ≡ false
  unfolding parse_date
  reads_not_empty given t h = ground arith

  not_before : (a b : Date) → IsDate a → IsDate b → before a b ≡ false → key b ≤ key a
  not_before a b ha hb e = ground (arith, before_iff a b ha hb)

  le-before : (a b : Date) → IsDate a → IsDate b → key b ≤ key a → before a b ≡ false
  le-before a b ha hb e = ground (arith, before_iff a b ha hb)

  passed-IsTimely :
      (invoice_date due_date : Option Text) (today : Date)
      → IsDate today
      → (dates db invoice_date due_date today).passed ≡ true
      → IsTimely db invoice_date due_date today
  unfolding dates
  passed-IsTimely invoice_date due_date today ht h =
      elim (Option-cases (parse_date db invoice_date)) [
        | inl none_read ↦ absurd (ground arith)
        | inr (i, reads_i) ↦ elim (Option-cases (parse_date db due_date)) [
          | inl none_read ↦ absurd (ground arith)
          | inr (d, reads_d) ↦
              let hi = parse_date-IsDate db invoice_date i reads_i in
              let hd = parse_date-IsDate db due_date d reads_d in
              record {
                invoice = i;
                due = d;
                invoice_reads = reads_i;
                due_reads = reads_d;
                not_future = not_before today i ht hi (ground arith);
                not_overdue = not_before d i hd hi (ground arith);
              }
        ]
      ]

  IsTimely-passed :
      (invoice_date due_date : Option Text) (today : Date)
      → IsDate today
      → IsTimely db invoice_date due_date today
      → (dates db invoice_date due_date today).passed ≡ true
  unfolding dates
  IsTimely-passed invoice_date due_date today ht h =
      let hi = parse_date-IsDate db invoice_date h.invoice h.invoice_reads in
      let hd = parse_date-IsDate db due_date h.due h.due_reads in
      ground (
        arith,
        h.invoice_reads,
        h.due_reads,
        reads_not_empty invoice_date h.invoice h.invoice_reads,
        reads_not_empty due_date h.due h.due_reads,
        le-before today h.invoice ht hi h.not_future,
        le-before h.due h.invoice hd hi h.not_overdue,
      )

  -- `dates` passes exactly when both texts read as dates, the invoice date is not after today and
  -- the due date is not before the invoice date.
  pub dates-passed_iff :
      (invoice_date due_date : Option Text) (today : Date)
      → IsDate today
      → ((dates db invoice_date due_date today).passed ≡ true)
        ↔ IsTimely db invoice_date due_date today
  dates-passed_iff invoice_date due_date today ht = (
    passed-IsTimely invoice_date due_date today ht,
    IsTimely-passed invoice_date due_date today ht,
  )

pub dates-rule :
    (db : CharDb) (invoice_date due_date : Option Text) (today : Date)
    → (dates db invoice_date due_date today).rule ≡ "dates"
unfolding dates check_invoice compare_due
dates-rule db invoice_date due_date today = ground arith
