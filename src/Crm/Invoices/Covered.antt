-- ===== src/Crm/Invoices/Covered.antt =====
-- What an invoice that is marked as paid rests on (crm_finance.go).
use onrol_infra.Base.{
  ℕ, ◌+◌, ◌≤◌, ◌<◌, ◌≡◌, refl, sym, ap, ◌∙◌, arith, Bool, true, ◌&&◌, Option, none, some, List, [],
  ◌∷◌, ◌++◌, ltb, leb, if◌then◌else◌, find, Str, codes, beq_refl, ok, Bool-cases, inl, inr,
}
use onrol_infra.Live.Tables.{Caller}
use onrol_infra.Crm.Invoices.{
  Invoice, Payment, Books, BooksStmt, sum_payments, mark_paid, read_invoice, InvoiceReq,
  subtotal_of, tax_of, new_invoice, create_invoice, is_invoice, is_captured, captured, PaymentReq,
  new_payment, mark_if, or_unpaid, pay, pay_found, record_payment,
}

subtotal-le : (total rate : ℕ) → subtotal_of total rate ≤ total
unfolding subtotal_of
subtotal-le total rate = elim (Bool-cases (ltb 0 rate)) [
  | inl e ↦ rw e (grind arith)
  | inr e ↦ rw e (omega arith)
]

tax-adds : (total rate : ℕ) → subtotal_of total rate + tax_of total rate ≡ total
unfolding tax_of
tax-adds total rate = elim (Bool-cases (ltb 0 rate)) [
  | inl e ↦ rw e (omega (arith, subtotal-le total rate))
  | inr e ↦ rw e (omega arith)
]

-- An invoice that CreateInvoice stores is a draft over a positive total, which its subtotal and its
-- tax add up to; it stands behind all others.
pub created_adds_up :
    (up : BooksStmt → Bool) (now : ℕ) (id : Str) (number : ℕ) (c : Caller) (req : InvoiceReq)
    (b b' : Books) (i : Invoice)
    → create_invoice up now id number c (some req) b ≡ (ok i, b')
    → (b'.invoices ≡ b.invoices ++ i ∷ [])
      × (i.subtotal + i.tax_amount ≡ i.total)
      × (0 < i.total)
      × (i.status ≡ codes "draft")
unfolding create_invoice new_invoice
created_adds_up up now id number c req b b' i h =
    (ground arith, ground (arith, tax-adds req.total req.tax_rate), ground arith, ground arith)

pub captured-append :
    (id : Str) (ps : List Payment) (p : Payment)
    → captured id (ps ++ p ∷ []) ≡ captured id ps + (if is_captured id p then p.amount else 0)
unfolding captured
captured-append id [] p = omega arith
captured-append id (q ∷ ps) p = omega (arith, captured-append id ps p)

new_payment-captured :
    (now : ℕ) (id : Str) (i : Invoice) (req : PaymentReq)
    → is_captured i.id (new_payment now id i req) ≡ true
new_payment-captured now id i req = rw (beq_refl i.id) (rw (beq_refl (codes "captured")) refl)

-- What a payment has found, stored and marked.
pub record Settles (up : BooksStmt → Bool) (now : ℕ) (invoice : Str) (req : PaymentReq)
    (b b' : Books) (n : ℕ) : Type 0 where
  pub row : Invoice
  pub is_row : find (is_invoice invoice) b.invoices ≡ some row
  pub is_positive : 0 < req.amount
  pub sums : captured row.id b'.payments ≡ captured row.id b.payments + req.amount
  pub tells : up sum_payments ≡ true → n ≡ captured row.id b'.payments
  pub marks : b'.invoices ≡ mark_if (leb row.total n && up mark_paid) now row.id b.invoices

pay-Settles :
    (up : BooksStmt → Bool) (now : ℕ) (id invoice : Str) (req : PaymentReq) (b b' : Books) (n : ℕ)
    (i : Invoice)
    → find (is_invoice invoice) b.invoices ≡ some i
    → pay up now id (some req) i b ≡ (ok n, b')
    → Settles up now invoice req b b' n
pay-Settles up now id invoice req b b' n i e h =
    let p = new_payment now id i req in
    let stored : b'.payments ≡ b.payments ++ p ∷ [] = ground arith in
    let total : captured i.id b'.payments ≡ captured i.id b.payments + req.amount =
      ap (captured i.id) stored
      ∙ captured-append i.id b.payments p
      ∙ rw (new_payment-captured now id i req) refl in
    let told : n ≡ or_unpaid (up sum_payments) (captured i.id (b.payments ++ p ∷ [])) =
      ground arith in
    record {
      row = i;
      is_row = e;
      is_positive = ground arith;
      sums = total;
      tells = λ u.
          told
          ∙ ap (λ x. or_unpaid x (captured i.id (b.payments ++ p ∷ []))) u
          ∙ ap (captured i.id) (sym stored);
      marks = ground arith;
    }

-- A payment that is recorded is positive and raises what is captured for its invoice by its amount;
-- the total that is answered is what is captured now, provided that the sum could be read. The
-- invoice is marked as paid exactly where that total covers it (and the statement succeeds), whatever
-- its status was, and no other invoice is touched.
pub payment-Settles :
    (up : BooksStmt → Bool) (now : ℕ) (id invoice : Str) (req : PaymentReq) (b b' : Books) (n : ℕ)
    → record_payment up now id invoice (some req) b ≡ (ok n, b')
    → Settles up now invoice req b b' n
unfolding record_payment
payment-Settles up now id invoice req b b' n h = elim (Bool-cases (up read_invoice)) [
  | inl e ↦ go (find (is_invoice invoice) b.invoices) refl (rw e at h)
  | inr e ↦ absurd (none_found (rw e at h))
]
  where
    none_found : ¬ (pay_found up now id (some req) none b ≡ (ok n, b'))
    none_found k = absurd (cc)

    go :
        (o : Option Invoice)
        → find (is_invoice invoice) b.invoices ≡ o
        → pay_found up now id (some req) o b ≡ (ok n, b')
        → Settles up now invoice req b b' n
    go none e k = absurd (cc)
    go (some i) e k = pay-Settles up now id invoice req b b' n i e k
