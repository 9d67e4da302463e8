-- ===== src/Crm/Invoices.antt =====
-- Invoices and payments: backend/internal/handlers/crm_finance.go (ListInvoices, CreateInvoice,
-- SetInvoiceStatus, DeleteInvoice, ListInvoicePayments, RecordPayment). Amounts are in paise; an
-- amount of a request that is not positive stands as 0, which the code treats alike. A tax rate is in
-- hundredths of a percent, and the division is exact where the code uses float64.
pub mod Covered
pub mod Ledger
use onrol_infra.Base.{
  ℕ, ◌+◌, ◌-◌, ◌*◌, ◌/◌, Bool, true, false, not, ◌&&◌, ◌||◌, Option, none, some, List, [], ◌∷◌,
  ◌++◌, ltb, leb, if◌then◌else◌, find, any, select, map, take, reverse, sort_by, Str, codes, beq,
  is_empty, trim_space, Reply, ok, fail, refuse, ◌>>=◌, ◌>>◌, require, update_where, delete_where,
}
use onrol_infra.Live.Tables.{Caller}

pub record Invoice : Type 0 where
  pub id : Str
  pub number : ℕ
  pub lead_id : Option Str
  pub account_id : Option Str
  pub status : Str
  pub notes : Str
  pub line_items : Str
  pub subtotal : ℕ
  pub tax_rate : ℕ
  pub tax_amount : ℕ
  pub total : ℕ
  pub due_date : Option Str
  pub sent_at : Option ℕ
  pub paid_at : Option ℕ
  pub created_by : Str
  pub created_at : ℕ
  pub updated_at : ℕ

pub record Payment : Type 0 where
  pub id : Str
  pub lead_id : Option Str
  pub invoice_id : Option Str
  pub amount : ℕ
  pub status : Str
  pub provider : Str
  pub provider_payment_id : Option Str
  pub created_at : ℕ

pub record Books : Type 0 where
  pub invoices : List Invoice
  pub payments : List Payment

pub data BooksStmt : Type 0 where
  insert_invoice update_status delete_invoice read_invoice insert_payment sum_payments : BooksStmt
  mark_paid list_invoices list_payments : BooksStmt

pub record InvoiceReq : Type 0 where
  pub lead_id : Str
  pub account_id : Str
  pub total : ℕ
  pub tax_rate : ℕ
  pub due_date : Str
  pub notes : Str
  pub line_items : Str

-- nullUUID and nullStr
abbrev pub null_if_blank : Str → Option Str
null_if_blank s = if is_empty (trim_space s) then none else some s

abbrev pub items_or_empty : Str → Str
items_or_empty s = if is_empty s || beq s (codes "null") then codes "[]" else s

-- int64(float64(req.Total) / (1 + req.TaxRate/100))
unfoldable pub subtotal_of : ℕ → ℕ → ℕ
subtotal_of total rate = if ltb 0 rate then total * 10_000 / (10_000 + rate) else total

unfoldable pub tax_of : ℕ → ℕ → ℕ
unfolding subtotal_of
tax_of total rate = if ltb 0 rate then total - subtotal_of total rate else 0

-- The columns of a new row; `number` is the next of the sequence.
unfoldable pub new_invoice : ℕ → Str → ℕ → Caller → InvoiceReq → Invoice
unfolding subtotal_of tax_of beq
new_invoice now id number c req = record {
  id = id;
  number = number;
  lead_id = null_if_blank req.lead_id;
  account_id = null_if_blank req.account_id;
  status = codes "draft";
  notes = req.notes;
  line_items = items_or_empty req.line_items;
  subtotal = subtotal_of req.total req.tax_rate;
  tax_rate = req.tax_rate;
  tax_amount = tax_of req.total req.tax_rate;
  total = req.total;
  due_date = null_if_blank req.due_date;
  sent_at = none;
  paid_at = none;
  created_by = c.id;
  created_at = now;
  updated_at = now;
}

abbrev pub insert_row : Invoice → Books → Books
insert_row i b = record b { invoices = b.invoices ++ i ∷ [] }

unfoldable pub create_invoice :
    (BooksStmt → Bool) → ℕ → Str → ℕ → Caller → Option InvoiceReq → Books → Reply Invoice × Books
unfolding new_invoice
create_invoice up now id number c none b = (refuse 400 "total (in paise) required", b)
create_invoice up now id number c (some req) b =
    if not (ltb 0 req.total)
    then (refuse 400 "total (in paise) required", b)
    else if up insert_invoice
    then (let i = new_invoice now id number c req in (ok i, insert_row i b))
    else (refuse 500 "create failed", b)

abbrev pub is_status : Str → Bool
is_status s =
    beq s (codes "draft")
    || beq s (codes "sent")
    || beq s (codes "paid")
    || beq s (codes "cancelled")

abbrev pub first_time : ℕ → Option ℕ → Option ℕ
first_time now none = some now
first_time now (some t) = some t

abbrev pub with_status : ℕ → Str → Invoice → Invoice
with_status now status i = record i {
  status = status;
  sent_at = if beq status (codes "sent") then first_time now i.sent_at else i.sent_at;
  paid_at = if beq status (codes "paid") then some now else i.paid_at;
  updated_at = now;
}

abbrev pub is_invoice : Str → Invoice → Bool
is_invoice id i = beq i.id id

unfoldable pub set_invoice_status :
    (BooksStmt → Bool) → ℕ → Str → Option Str → Books → Reply Str × Books
unfolding update_where beq
set_invoice_status up now id none b = (refuse 400 "invalid body", b)
set_invoice_status up now id (some status) b =
    if not (is_status status)
    then (refuse 400 "invalid status", b)
    else if not (up update_status)
    then (refuse 500 "update failed", b)
    else if any (is_invoice id) b.invoices
    then (
      ok status,
      record b { invoices = update_where (is_invoice id) (with_status now status) b.invoices },
    )
    else (refuse 404 "invoice not found", b)

abbrev pub is_for : Str → Payment → Bool
is_for id p = elim p.invoice_id [ none ↦ false | some i ↦ beq i id ]

abbrev pub unlinked : Payment → Payment
unlinked p = record p { invoice_id = none }

-- The payments of a deleted invoice stay, without it (ON DELETE SET NULL).
unfoldable pub delete_invoice_row : (BooksStmt → Bool) → Str → Books → Reply (Unit {0}) × Books
unfolding update_where delete_where beq
delete_invoice_row up id b =
    if up delete_invoice
    then (
      ok tt,
      record b {
        invoices = delete_where (is_invoice id) b.invoices;
        payments = update_where (is_for id) unlinked b.payments;
      },
    )
    else (refuse 500 "delete failed", b)

abbrev pub is_captured : Str → Payment → Bool
is_captured id p = is_for id p && beq p.status (codes "captured")

-- SELECT COALESCE(sum(amount),0) FROM payments WHERE invoice_id=$1 AND status='captured'
unfoldable pub captured : Str → List Payment → ℕ
unfolding beq
captured id [] = 0
captured id (p ∷ ps) = (if is_captured id p then p.amount else 0) + captured id ps

pub record PaymentReq : Type 0 where
  pub amount : ℕ
  pub provider : Str
  pub reference : Str

abbrev pub provider_of : Str → Str
provider_of p = if beq p (codes "razorpay") then p else codes "manual"

abbrev pub new_payment : ℕ → Str → Invoice → PaymentReq → Payment
new_payment now id i req = record {
  id = id;
  lead_id = i.lead_id;
  invoice_id = some i.id;
  amount = req.amount;
  status = codes "captured";
  provider = provider_of req.provider;
  provider_payment_id = null_if_blank req.reference;
  created_at = now;
}

abbrev pub paid : ℕ → Invoice → Invoice
paid now i = record i { status = codes "paid"; paid_at = some now; updated_at = now }

abbrev pub mark_if : Bool → ℕ → Str → List Invoice → List Invoice
mark_if true now id is = update_where (is_invoice id) (paid now) is
mark_if false now id is = is

abbrev pub or_unpaid : Bool → ℕ → ℕ
or_unpaid up n = if up then n else 0

-- What RecordPayment does once the payment is stored. The sum is 0 where its query fails.
abbrev pub settle : (BooksStmt → Bool) → ℕ → Invoice → Books → Reply ℕ × Books
settle up now i b =
    let paid_total = or_unpaid (up sum_payments) (captured i.id b.payments) in
    (
      ok paid_total,
      record b { invoices = mark_if (leb i.total paid_total && up mark_paid) now i.id b.invoices },
    )

abbrev pub pay :
    (BooksStmt → Bool) → ℕ → Str → Option PaymentReq → Invoice → Books → Reply ℕ × Books
pay up now id none i b = (refuse 400 "amount (in paise) required", b)
pay up now id (some req) i b =
    if not (ltb 0 req.amount)
    then (refuse 400 "amount (in paise) required", b)
    else if up insert_payment
    then settle up now i (record b { payments = b.payments ++ new_payment now id i req ∷ [] })
    else (refuse 500 "record failed", b)

abbrev pub pay_found :
    (BooksStmt → Bool) → ℕ → Str → Option PaymentReq → Option Invoice → Books → Reply ℕ × Books
pay_found up now id req none b = (refuse 404 "invoice not found", b)
pay_found up now id req (some i) b = pay up now id req i b

unfoldable pub record_payment :
    (BooksStmt → Bool) → ℕ → Str → Str → Option PaymentReq → Books → Reply ℕ × Books
unfolding update_where captured beq
record_payment up now id invoice req b =
    pay_found up now id req (if up read_invoice then find (is_invoice invoice) b.invoices else none)
      b

pub record InvoiceView : Type 0 where
  pub invoice : Invoice
  pub paid : ℕ

-- ListInvoices, without the names of lead and account: the newest 500.
unfoldable pub list_invoice_views : (BooksStmt → Bool) → Books → Reply (List InvoiceView)
unfolding captured sort_by
list_invoice_views up b =
    if up list_invoices
    then ok (
        map (λ i. record { invoice = i; paid = captured i.id b.payments })
          (take 500 (reverse (sort_by (λ i. i.created_at) b.invoices))))
    else refuse 500 "list failed"

unfoldable pub list_invoice_payments : (BooksStmt → Bool) → Str → Books → Reply (List Payment)
unfolding sort_by beq
list_invoice_payments up id b =
    if up list_payments
    then ok (reverse (sort_by (λ p. p.created_at) (select (is_for id) b.payments)))
    else refuse 500 "list failed"
