-- ===== src/Billing/Quotations.antt =====
-- billing/services.py: the lifecycle of a quotation.
pub mod Lifecycle
use internet_ms.Base.{ℕ, String, Bool, true, false, not, ◌&&◌, ◌||◌, Option, some}
use internet_ms.Base.Result.{Result, ok, ◌>>=◌, ◌>>◌, raise_if}
use internet_ms.Billing.Errors.{BillingError, transition_not_allowed}
use internet_ms.Billing.Models.{Document, Status}
use internet_ms.Billing.Ledger.{Ledger, update_document, log_action}
use internet_ms.Billing.ActionState.{is_draft}
use internet_ms.Billing.Documents.{require_same_tenant, resolve_quotation, is_sent}

pub record QuotationState : Type 0 where
  pub is_current_version : Bool
  pub is_locked : Bool
  pub can_edit : Bool
  pub can_send : Bool
  pub can_accept : Bool
  pub can_reject : Bool
  pub can_expire : Bool
  pub can_convert : Bool
  pub converted_invoice : Option ℕ

-- `ACTIVE_QUOTATION_STATUSES`
abbrev pub is_active_quotation : Status → Bool
is_active_quotation Status.draft = true
is_active_quotation Status.sent = true
is_active_quotation Status.accepted = true
is_active_quotation _ = false

abbrev pub quotation_state : Document → QuotationState
quotation_state quotation = record {
  is_current_version = quotation.is_current_version;
  is_locked = not (is_draft quotation.status);
  can_edit = quotation.is_current_version && is_draft quotation.status;
  can_send = quotation.is_current_version && is_draft quotation.status;
  can_accept = quotation.is_current_version && is_sent quotation.status;
  can_reject =
      quotation.is_current_version && (is_draft quotation.status || is_sent quotation.status);
  can_expire = quotation.is_current_version && is_sent quotation.status;
  can_convert = quotation.is_current_version && is_active_quotation quotation.status;
  converted_invoice = quotation.converted_invoice_id;
}

unfoldable pub get_quotation_action_state : ℕ → Document → Result BillingError QuotationState
unfolding require_same_tenant
get_quotation_action_state organization quotation = do
  require_same_tenant organization quotation
  ok (quotation_state quotation)

-- `allowed.get(to_status, False)`
abbrev pub is_allowed_transition : QuotationState → Status → Bool
is_allowed_transition state Status.sent = state.can_send
is_allowed_transition state Status.accepted = state.can_accept
is_allowed_transition state Status.rejected = state.can_reject
is_allowed_transition state Status.expired = state.can_expire
is_allowed_transition state _ = false

-- `updates`: the status and its timestamp
abbrev pub status_update : ℕ → Status → Document → Document
status_update now Status.sent d = record d { status = Status.sent; sent_at = some now }
status_update now Status.accepted d = record d { status = Status.accepted; accepted_at = some now }
status_update now Status.rejected d = record d { status = Status.rejected; rejected_at = some now }
status_update now Status.expired d = record d { status = Status.expired; expired_at = some now }
status_update now to_status d = record d { status = to_status }

-- `f"quotation_{to_status}"` at the four statuses that pass the check
abbrev pub quotation_action : Status → String
quotation_action Status.sent = "quotation_sent"
quotation_action Status.accepted = "quotation_accepted"
quotation_action Status.rejected = "quotation_rejected"
quotation_action Status.expired = "quotation_expired"
quotation_action _ = "quotation_"

unfoldable pub transition_quotation_status :
    ℕ → ℕ → ℕ → Status → Ledger → Result BillingError (Document × Ledger)
transition_quotation_status now organization quotation_id to_status l = do
  quotation ← resolve_quotation organization quotation_id l
  state ← get_quotation_action_state organization quotation
  raise_if (not (is_allowed_transition state to_status)) transition_not_allowed
  ok (
    status_update now to_status quotation,
    log_action (quotation_action to_status) quotation.pk
        (update_document quotation.pk (status_update now to_status) l),
  )

-- `QuotationLifecycleService`
unfoldable pub send : ℕ → ℕ → ℕ → Ledger → Result BillingError (Document × Ledger)
unfolding transition_quotation_status
send now organization quotation_id =
    transition_quotation_status now organization quotation_id Status.sent

unfoldable pub accept : ℕ → ℕ → ℕ → Ledger → Result BillingError (Document × Ledger)
unfolding transition_quotation_status
accept now organization quotation_id =
    transition_quotation_status now organization quotation_id Status.accepted

unfoldable pub reject : ℕ → ℕ → ℕ → Ledger → Result BillingError (Document × Ledger)
unfolding transition_quotation_status
reject now organization quotation_id =
    transition_quotation_status now organization quotation_id Status.rejected

unfoldable pub expire : ℕ → ℕ → ℕ → Ledger → Result BillingError (Document × Ledger)
unfolding transition_quotation_status
expire now organization quotation_id =
    transition_quotation_status now organization quotation_id Status.expired
