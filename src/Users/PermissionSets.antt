-- ===== src/Users/PermissionSets.antt =====
-- users/permissions.py: the sets of action codes, each as a list of its members.
use internet_ms.Base.{String, List, [], ◌∷◌, ◌++◌}
use internet_ms.Users.PermissionCode

unfoldable pub manager_finance_permissions : List String
manager_finance_permissions =
    PermissionCode.finance_dashboard_view ∷ PermissionCode.finance_sales_view_all
    ∷ PermissionCode.finance_sales_reports_view ∷ PermissionCode.finance_reports_export
    ∷ PermissionCode.finance_purchases_view ∷ PermissionCode.finance_purchase_costs_view
    ∷ PermissionCode.finance_supplier_balances_view ∷ PermissionCode.finance_stock_valuation_view
    ∷ PermissionCode.finance_profitability_view ∷ PermissionCode.finance_receivables_view
    ∷ PermissionCode.finance_tax_reports_view ∷ PermissionCode.finance_reconciliation_view
    ∷ PermissionCode.finance_reversals_manage ∷ PermissionCode.finance_audit_view
    ∷ PermissionCode.invoices_cancel ∷ PermissionCode.invoices_reissue
    ∷ PermissionCode.receipts_void ∷ []

unfoldable pub platform_permissions : List String
platform_permissions =
    PermissionCode.platform_tenants_manage ∷ PermissionCode.platform_settings_manage
    ∷ PermissionCode.platform_audit_view ∷ []

unfoldable pub sales_baseline : List String
sales_baseline =
    PermissionCode.customers_view ∷ PermissionCode.customers_create
    ∷ PermissionCode.customers_update ∷ PermissionCode.packages_view ∷ PermissionCode.products_view
    ∷ PermissionCode.inventory_view ∷ PermissionCode.sales_documents_view_own
    ∷ PermissionCode.sales_documents_create ∷ PermissionCode.quotations_update_own_draft
    ∷ PermissionCode.quotations_send ∷ PermissionCode.invoices_update_own_draft
    ∷ PermissionCode.invoices_issue_own ∷ PermissionCode.payments_record_own
    ∷ PermissionCode.receipts_view ∷ PermissionCode.receipts_issue_own ∷ []

unfoldable pub technician_baseline : List String
technician_baseline =
    PermissionCode.technician_work_reports_create_own
    ∷ PermissionCode.technician_work_reports_view_own
    ∷ PermissionCode.technician_work_reports_update_own
    ∷ PermissionCode.technician_work_reports_submit_own
    ∷ PermissionCode.technician_payments_view_own ∷ PermissionCode.technician_payments_confirm_own
    ∷ PermissionCode.technician_payments_dispute_own ∷ []

unfoldable pub work_report_management_permissions : List String
work_report_management_permissions =
    PermissionCode.technician_work_reports_view_all ∷ PermissionCode.technician_work_reports_approve
    ∷ PermissionCode.technician_work_reports_reject
    ∷ PermissionCode.technician_work_reports_correct_approved
    ∷ PermissionCode.technician_payments_view_all ∷ PermissionCode.technician_payments_record
    ∷ PermissionCode.technician_payments_void ∷ []

unfoldable pub tenant_operation_permissions : List String
unfolding manager_finance_permissions work_report_management_permissions
tenant_operation_permissions =
    (PermissionCode.customers_balance_summary_view ∷ PermissionCode.customers_view
      ∷ PermissionCode.customers_create ∷ PermissionCode.customers_update
      ∷ PermissionCode.customers_archive ∷ PermissionCode.packages_view
      ∷ PermissionCode.packages_create ∷ PermissionCode.packages_update
      ∷ PermissionCode.products_view ∷ PermissionCode.products_create
      ∷ PermissionCode.products_update ∷ PermissionCode.inventory_view
      ∷ PermissionCode.inventory_adjust ∷ PermissionCode.purchases_create
      ∷ PermissionCode.reports_view ∷ PermissionCode.reports_export ∷ PermissionCode.users_view
      ∷ PermissionCode.users_invite ∷ PermissionCode.users_update_access
      ∷ PermissionCode.users_deactivate ∷ PermissionCode.tenant_settings_view
      ∷ PermissionCode.tenant_settings_update ∷ PermissionCode.sales_documents_view_own
      ∷ PermissionCode.sales_documents_create ∷ PermissionCode.quotations_update_own_draft
      ∷ PermissionCode.quotations_send ∷ PermissionCode.quotations_approve
      ∷ PermissionCode.quotations_reject ∷ PermissionCode.quotations_cancel
      ∷ PermissionCode.invoices_update_own_draft ∷ PermissionCode.invoices_issue_own
      ∷ PermissionCode.payments_record_own ∷ PermissionCode.receipts_view
      ∷ PermissionCode.receipts_issue_own ∷ PermissionCode.cart_pricing_override
      ∷ PermissionCode.cart_discount_apply ∷ PermissionCode.cart_tax_rate_edit ∷ [])
    ++ manager_finance_permissions
    ++ work_report_management_permissions

unfoldable pub delegable_permissions : List String
delegable_permissions =
    PermissionCode.customers_balance_summary_view ∷ PermissionCode.customers_view
    ∷ PermissionCode.customers_create ∷ PermissionCode.customers_update
    ∷ PermissionCode.packages_view ∷ PermissionCode.products_view ∷ PermissionCode.inventory_view
    ∷ PermissionCode.purchases_create ∷ PermissionCode.sales_documents_view_own
    ∷ PermissionCode.sales_documents_create ∷ PermissionCode.quotations_update_own_draft
    ∷ PermissionCode.quotations_send ∷ PermissionCode.invoices_update_own_draft
    ∷ PermissionCode.invoices_issue_own ∷ PermissionCode.payments_record_own
    ∷ PermissionCode.receipts_view ∷ PermissionCode.receipts_issue_own
    ∷ PermissionCode.cart_pricing_override ∷ PermissionCode.cart_discount_apply
    ∷ PermissionCode.cart_tax_rate_edit ∷ []
