-- ===== src/Crm/Invoices/Ledger.antt =====
-- An invoice that payments have marked as paid is covered (crm_finance.go).
use onrol_infra.Base.{
  ℕ, ◌+◌, ◌≤◌, ◌≡◌, refl, sym, ap, ◌∙◌, subst, arith, Bool, true, false, ◌&&◌, Option, none, some,
  List, [], ◌∷◌, ◌++◌, ltb, leb, if◌then◌else◌, find, find-holds, Str, codes, beq, beq_iff,
  Bool-cases, inl, inr, update_where, delete_where,
}
use onrol_infra.Live.Tables.{Caller}
use onrol_infra.Crm.Invoices.{
  Invoice, Payment, Books, BooksStmt, sum_payments, mark_paid, read_invoice, InvoiceReq,
  new_invoice, create_invoice, is_invoice, is_for, unlinked, delete_invoice_row, is_captured,
  captured, PaymentReq, new_payment, paid, mark_if, or_unpaid, settle, pay, pay_found,
  record_payment,
}
use onrol_infra.Crm.Invoices.Covered.{captured-append}

-- The first row of an invoice, if it is marked as paid, is covered by what is captured.
abbrev pub CoveredBy : Option Invoice → ℕ → Type 0
CoveredBy none n = Unit {0}
CoveredBy (some i) n = beq i.status (codes "paid") ≡ true → i.total ≤ n

abbrev pub IsCovered : Str → Books → Type 0
IsCovered id b = CoveredBy (find (is_invoice id) b.invoices) (captured id b.payments)

CoveredBy-mono : (o : Option Invoice) (m n : ℕ) → m ≤ n → CoveredBy o m → CoveredBy o n
CoveredBy-mono none m n le h = tt
CoveredBy-mono (some i) m n le h = λ e. omega (arith, h e)

-- The calls but SetInvoiceStatus, which sets any status by hand.
pub data BooksCall : Type 0 where
  create : (BooksStmt → Bool) → ℕ → Str → ℕ → Caller → Option InvoiceReq → BooksCall
  remove : (BooksStmt → Bool) → Str → BooksCall
  receive : (BooksStmt → Bool) → ℕ → Str → Str → Option PaymentReq → BooksCall

abbrev pub serve : BooksCall → Books → Books
serve (create up now id number c req) b = (create_invoice up now id number c req b).1
serve (remove up id) b = (delete_invoice_row up id b).1
serve (receive up now id invoice req) b = (record_payment up now id invoice req b).1

abbrev pub serve_all : List BooksCall → Books → Books
serve_all [] b = b
serve_all (r ∷ rs) b = serve_all rs (serve r b)

find-append :
    (id : Str) (xs : List Invoice) (y : Invoice) (n : ℕ)
    → CoveredBy (find (is_invoice id) xs) n
    → CoveredBy (some y) n
    → CoveredBy (find (is_invoice id) (xs ++ y ∷ [])) n
find-append id [] y n h k = elim (Bool-cases (is_invoice id y)) [ inl e ↦ rw e k | inr e ↦ rw e tt ]
find-append id (x ∷ xs) y n h k = elim (Bool-cases (is_invoice id x)) [
  | inl e ↦ rw e (rw e at h)
  | inr e ↦ rw e (find-append id xs y n (rw e at h) k)
]

find-delete_self :
    (id : Str) (xs : List Invoice) → find (is_invoice id) (delete_where (is_invoice id) xs) ≡ none
unfolding delete_where
find-delete_self id [] = refl
find-delete_self id (x ∷ xs) = ground (arith, find-delete_self id xs)

find-delete_other :
    (id j : Str) (xs : List Invoice)
    → beq j id ≡ false
    → find (is_invoice id) (delete_where (is_invoice j) xs) ≡ find (is_invoice id) xs
unfolding delete_where
find-delete_other id j [] ne = refl
find-delete_other id j (x ∷ xs) ne =
    ground (arith, beq_iff x.id j, beq_iff x.id id, beq_iff j id, find-delete_other id j xs)

captured-unlink :
    (id j : Str) (ps : List Payment)
    → beq j id ≡ false
    → captured id (update_where (is_for j) unlinked ps) ≡ captured id ps
unfolding captured update_where
captured-unlink id j [] ne = refl
captured-unlink id j (p ∷ ps) ne = elim (Bool-cases (is_for j p)) [
  | inl e ↦ rw e (ground (arith, for_other p j id ne e, captured-unlink id j ps ne))
  | inr e ↦
      rw e (
        ap (λ (n : ℕ). (if is_captured id p then p.amount else 0) + n) (captured-unlink id j ps ne))
]
  where
    by_link :
        (o : Option Str) (j id : Str)
        → beq j id ≡ false
        → (elim o [ none ↦ false | some i ↦ beq i j ]) ≡ true
        → (elim o [ none ↦ false | some i ↦ beq i id ]) ≡ false
    by_link none j id ne k = absurd (cc)
    by_link (some i) j id ne k = ground (arith, beq_iff i j, beq_iff i id, beq_iff j id)

    for_other :
        (p : Payment) (j id : Str) → beq j id ≡ false → is_for j p ≡ true → is_for id p ≡ false
    for_other p j id ne k = by_link p.invoice_id j id ne k

find-paid_other :
    (now : ℕ) (id j : Str) (xs : List Invoice)
    → beq j id ≡ false
    → find (is_invoice id) (update_where (is_invoice j) (paid now) xs) ≡ find (is_invoice id) xs
unfolding update_where
find-paid_other now id j [] ne = refl
find-paid_other now id j (x ∷ xs) ne =
    ground (arith, beq_iff x.id j, beq_iff x.id id, beq_iff j id, find-paid_other now id j xs)

find-paid_self :
    (now : ℕ) (id : Str) (xs : List Invoice) (i : Invoice)
    → find (is_invoice id) xs ≡ some i
    → find (is_invoice id) (update_where (is_invoice id) (paid now) xs) ≡ some (paid now i)
unfolding update_where
find-paid_self now id [] i h = absurd (cc)
find-paid_self now id (x ∷ xs) i h = elim (Bool-cases (is_invoice id x)) [
  | inl e ↦
      let same : x ≡ i = ground arith in rw (e, e) (ap (λ (o : Invoice). some (paid now o)) same)
  | inr e ↦ rw (e, e) (find-paid_self now id xs i (rw e at h))
]

module _ (id : Str) where
  create-IsCovered :
      (up : BooksStmt → Bool) (now : ℕ) (new : Str) (number : ℕ) (c : Caller)
      (req : Option InvoiceReq) (b : Books)
      → IsCovered id b
      → IsCovered id (create_invoice up now new number c req b).1
  unfolding create_invoice new_invoice
  create-IsCovered up now new number c none b h = h
  create-IsCovered up now new number c (some req) b h =
      let i = new_invoice now new number c req in
      ground (
        arith,
        find-append id b.invoices i (captured id b.payments) h (λ e. absurd (draft_unpaid e)),
      )
    where
      draft_unpaid : ¬ (beq (codes "draft") (codes "paid") ≡ true)
      draft_unpaid e = absurd (ground (arith, (beq_iff (codes "draft") (codes "paid")).0 e))

  remove-IsCovered :
      (up : BooksStmt → Bool) (j : Str) (b : Books)
      → IsCovered id b
      → IsCovered id (delete_invoice_row up j b).1
  unfolding delete_invoice_row
  remove-IsCovered up j b h = elim (Bool-cases (up BooksStmt.delete_invoice)) [
    | inl e ↦ rw e (elim (Bool-cases (beq j id)) [
      | inl same ↦
          let is_id : id ≡ j = sym ((beq_iff j id).0 same) in
          let rows = delete_where (is_invoice j) b.invoices in
          let ps = update_where (is_for j) unlinked b.payments in
          let gone : find (is_invoice id) rows ≡ none =
            ap (λ (x : Str). find (is_invoice x) rows) is_id ∙ find-delete_self j b.invoices in
          subst (λ (o : Option Invoice). CoveredBy o (captured id ps)) (sym gone) tt
      | inr other ↦
          rw (find-delete_other id j b.invoices other, captured-unlink id j b.payments other) h
    ])
    | inr e ↦ rw e h
  ]

  -- What is captured does not fall, and the row that is marked is covered.
  settle-IsCovered :
      (up : BooksStmt → Bool) (now : ℕ) (i : Invoice) (b : Books)
      → find (is_invoice i.id) b.invoices ≡ some i
      → IsCovered id b
      → IsCovered id (settle up now i b).1
  settle-IsCovered up now i b e h = marked (leb i.total n && up mark_paid) refl
    where
      n : ℕ
      n = or_unpaid (up sum_payments) (captured i.id b.payments)

      marked :
          (t : Bool)
          → (leb i.total n && up mark_paid) ≡ t
          → CoveredBy
              (find (is_invoice id) (mark_if t now i.id b.invoices))
              (captured id b.payments)
      marked false k = h
      marked true k = elim (Bool-cases (beq i.id id)) [
        | inl same ↦
            let is_id : i.id ≡ id = (beq_iff i.id id).0 same in
            let enough : i.total ≤ captured i.id b.payments = ground arith in
            subst
              (λ (x : Str).
                CoveredBy (find (is_invoice x) (mark_if true now i.id b.invoices))
                  (captured x b.payments))
              is_id (rw (find-paid_self now i.id b.invoices i e) (λ _. enough))
        | inr other ↦ rw (find-paid_other now id i.id b.invoices other) h
      ]

  stored-IsCovered :
      (b : Books) (p : Payment)
      → IsCovered id b
      → IsCovered id (record b { payments = b.payments ++ p ∷ [] })
  stored-IsCovered b p h =
      CoveredBy-mono (find (is_invoice id) b.invoices) (captured id b.payments)
        (captured id (b.payments ++ p ∷ [])) (omega (arith, captured-append id b.payments p)) h

  pay-IsCovered :
      (up : BooksStmt → Bool) (now : ℕ) (new : Str) (req : Option PaymentReq) (i : Invoice)
      (b : Books)
      → find (is_invoice i.id) b.invoices ≡ some i
      → IsCovered id b
      → IsCovered id (pay up now new req i b).1
  pay-IsCovered up now new none i b e h = h
  pay-IsCovered up now new (some req) i b e h = elim (Bool-cases (ltb 0 req.amount)) [
    | inl pos ↦ rw pos (elim (Bool-cases (up BooksStmt.insert_payment)) [
      | inl u ↦
          let p = new_payment now new i req in
          rw u (
            settle-IsCovered up now i (record b { payments = b.payments ++ p ∷ [] }) e
              (stored-IsCovered b p h))
      | inr u ↦ rw u h
    ])
    | inr none_paid ↦ rw none_paid h
  ]

  receive-IsCovered :
      (up : BooksStmt → Bool) (now : ℕ) (new invoice : Str) (req : Option PaymentReq) (b : Books)
      → IsCovered id b
      → IsCovered id (record_payment up now new invoice req b).1
  unfolding record_payment
  receive-IsCovered up now new invoice req b h = elim (Bool-cases (up read_invoice)) [
    | inl u ↦ rw u (go (find (is_invoice invoice) b.invoices) refl)
    | inr u ↦ rw u h
  ]
    where
      go :
          (o : Option Invoice)
          → find (is_invoice invoice) b.invoices ≡ o
          → IsCovered id (pay_found up now new req o b).1
      go none e = h
      go (some i) e =
          let is_id : i.id ≡ invoice =
            (beq_iff i.id invoice).0 (find-holds (is_invoice invoice) b.invoices i e) in
          pay-IsCovered up now new req i b
            (ap (λ (x : Str). find (is_invoice x) b.invoices) is_id ∙ e) h

  -- Over any history of invoices created and deleted and of payments received, with any statements
  -- failing: an invoice that was not marked as paid, or covered if it was, is covered by the captured
  -- payments for it whenever it is marked as paid.
  pub serve_all-IsCovered :
      (rs : List BooksCall) (b : Books) → IsCovered id b → IsCovered id (serve_all rs b)
  serve_all-IsCovered [] b h = h
  serve_all-IsCovered (create up now new number c req ∷ rs) b h =
      serve_all-IsCovered rs (create_invoice up now new number c req b).1
        (create-IsCovered up now new number c req b h)
  serve_all-IsCovered (remove up j ∷ rs) b h =
      serve_all-IsCovered rs (delete_invoice_row up j b).1 (remove-IsCovered up j b h)
  serve_all-IsCovered (receive up now new invoice req ∷ rs) b h =
      serve_all-IsCovered rs (record_payment up now new invoice req b).1
        (receive-IsCovered up now new invoice req b h)
