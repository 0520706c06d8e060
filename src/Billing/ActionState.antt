-- ===== src/Billing/ActionState.antt =====
-- billing/services.py: what may be done with an invoice or a quotation, from its status and balances.
use internet_ms.Base.{ℕ, Bool, true, false, not, ◌&&◌, List}
use internet_ms.Base.Int.{ℤ, pos, ◌-ℤ◌, ◌+ℤ◌, max_ℤ, eq_ℤ, ltb_ℤ}
use internet_ms.Base.{if◌then◌else◌, none}
use internet_ms.Base.Result.{Result, ok, ◌>>◌}
use internet_ms.Billing.Errors.{BillingError}
use internet_ms.Billing.Models.{Document, Status}
use internet_ms.Billing.Documents.{require_same_tenant}
use internet_ms.Billing.Ledger.{
  invoice_paid_total, invoice_credited_total, customer_open_invoice_balance,
}

pub record InvoiceState : Type 0 where
  pub paid_total : ℤ
  pub credited_total : ℤ
  pub remaining_balance : ℤ
  pub credit_capacity : ℤ
  pub is_open_period : Bool
  pub can_void : Bool
  pub can_reissue : Bool
  pub can_register_payment : Bool
  pub can_create_credit_note : Bool
  pub is_locked : Bool

-- `active_issued_states`
abbrev pub is_active_issued : Status → Bool
is_active_issued Status.issued = true
is_active_issued Status.sent = true
is_active_issued Status.approved = true
is_active_issued Status.rejected = true
is_active_issued _ = false

-- `TERMINAL_INVOICE_STATUSES`, with the legacy ones
abbrev pub is_terminal : Status → Bool
is_terminal Status.paid = true
is_terminal Status.void = true
is_terminal Status.superseded = true
is_terminal Status.cancelled = true
is_terminal Status.reissued = true
is_terminal _ = false

-- The statuses in which no credit note may be made.
abbrev pub takes_no_credit : Status → Bool
takes_no_credit Status.draft = true
takes_no_credit Status.void = true
takes_no_credit Status.superseded = true
takes_no_credit Status.cancelled = true
takes_no_credit Status.reissued = true
takes_no_credit _ = false

abbrev pub is_draft : Status → Bool
is_draft Status.draft = true
is_draft _ = false

-- `is_accounting_period_open` answers `True` for every date.
abbrev pub is_accounting_period_open : ℕ → ℕ → Bool
is_accounting_period_open organization on_date = true

unfoldable pub get_invoice_action_state : List Document → ℕ → Document → InvoiceState
get_invoice_action_state documents organization invoice =
    let paid_total = invoice_paid_total documents organization invoice in
    let credited_total = invoice_credited_total documents organization invoice in
    let remaining_balance = max_ℤ (invoice.total -ℤ paid_total -ℤ credited_total) (pos 0) in
    let is_open_period = is_accounting_period_open organization invoice.issue_date in
    let unsettled = eq_ℤ paid_total (pos 0) && eq_ℤ credited_total (pos 0) in
    record {
      paid_total = paid_total;
      credited_total = credited_total;
      remaining_balance = remaining_balance;
      credit_capacity = remaining_balance;
      is_open_period = is_open_period;
      can_void = is_active_issued invoice.status && unsettled && is_open_period;
      can_reissue = is_active_issued invoice.status && unsettled;
      can_register_payment =
          not (is_draft invoice.status)
          && not (is_terminal invoice.status)
          && ltb_ℤ (pos 0) remaining_balance;
      can_create_credit_note =
          not (takes_no_credit invoice.status) && ltb_ℤ (pos 0) remaining_balance;
      is_locked = not (is_draft invoice.status);
    }

pub record AccountSummary : Type 0 where
  pub previous_outstanding_balance : ℤ
  pub current_invoice_total : ℤ
  pub total_amount_due : ℤ
  pub payment_received : ℤ
  pub current_invoice_balance : ℤ
  pub outstanding_account_balance : ℤ
  pub has_previous_outstanding : Bool
  pub has_payment : Bool

unfoldable pub account_summary : List Document → ℕ → Document → AccountSummary
unfolding get_invoice_action_state
account_summary documents organization invoice =
    let state = get_invoice_action_state documents organization invoice in
    let account = customer_open_invoice_balance documents organization invoice.customer_id none in
    record {
      previous_outstanding_balance = invoice.balance_brought_forward;
      current_invoice_total = invoice.total;
      total_amount_due = invoice.balance_brought_forward +ℤ invoice.total;
      payment_received = state.paid_total;
      current_invoice_balance = state.remaining_balance;
      outstanding_account_balance =
          if invoice.is_walk_in_sale
          then state.remaining_balance
          else if is_draft invoice.status
          then account +ℤ state.remaining_balance
          else account;
      has_previous_outstanding = ltb_ℤ (pos 0) invoice.balance_brought_forward;
      has_payment = ltb_ℤ (pos 0) state.paid_total;
    }

unfoldable pub invoice_account_summary :
    List Document → ℕ → Document → Result BillingError AccountSummary
unfolding account_summary require_same_tenant
invoice_account_summary documents organization invoice = do
  require_same_tenant organization invoice
  ok (account_summary documents organization invoice)
