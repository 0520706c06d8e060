-- ===== src/Users/PermissionCode.antt =====
-- users/permissions.py, class PermissionCode: the stable action codes.
use internet_ms.Base.{String}

abbrev pub customers_view : String
customers_view = "customers.view"

abbrev pub customers_balance_summary_view : String
customers_balance_summary_view = "customers.balance_summary.view"

abbrev pub customers_create : String
customers_create = "customers.create"

abbrev pub customers_update : String
customers_update = "customers.update"

abbrev pub customers_archive : String
customers_archive = "customers.archive"

abbrev pub packages_view : String
packages_view = "packages.view"

abbrev pub packages_create : String
packages_create = "packages.create"

abbrev pub packages_update : String
packages_update = "packages.update"

abbrev pub products_view : String
products_view = "products.view"

abbrev pub products_create : String
products_create = "products.create"

abbrev pub products_update : String
products_update = "products.update"

abbrev pub inventory_view : String
inventory_view = "inventory.view"

abbrev pub inventory_adjust : String
inventory_adjust = "inventory.adjust"

abbrev pub purchases_create : String
purchases_create = "purchases.create"

abbrev pub reports_view : String
reports_view = "reports.view"

abbrev pub reports_export : String
reports_export = "reports.export"

abbrev pub users_view : String
users_view = "users.view"

abbrev pub users_invite : String
users_invite = "users.invite"

abbrev pub users_update_access : String
users_update_access = "users.update_access"

abbrev pub users_deactivate : String
users_deactivate = "users.deactivate"

abbrev pub tenant_settings_view : String
tenant_settings_view = "tenant_settings.view"

abbrev pub tenant_settings_update : String
tenant_settings_update = "tenant_settings.update"

abbrev pub sales_documents_view_own : String
sales_documents_view_own = "sales_documents.view_own"

abbrev pub sales_documents_create : String
sales_documents_create = "sales_documents.create"

abbrev pub quotations_update_own_draft : String
quotations_update_own_draft = "quotations.update_own_draft"

abbrev pub quotations_send : String
quotations_send = "quotations.send"

abbrev pub quotations_approve : String
quotations_approve = "quotations.approve"

abbrev pub quotations_reject : String
quotations_reject = "quotations.reject"

abbrev pub quotations_cancel : String
quotations_cancel = "quotations.cancel"

abbrev pub invoices_update_own_draft : String
invoices_update_own_draft = "invoices.update_own_draft"

abbrev pub invoices_issue_own : String
invoices_issue_own = "invoices.issue_own"

abbrev pub invoices_cancel : String
invoices_cancel = "invoices.cancel"

abbrev pub invoices_reissue : String
invoices_reissue = "invoices.reissue"

abbrev pub payments_record_own : String
payments_record_own = "payments.record_own"

abbrev pub receipts_view : String
receipts_view = "receipts.view"

abbrev pub receipts_issue_own : String
receipts_issue_own = "receipts.issue_own"

abbrev pub receipts_void : String
receipts_void = "receipts.void"

abbrev pub cart_pricing_override : String
cart_pricing_override = "cart.pricing_category.override"

abbrev pub cart_discount_apply : String
cart_discount_apply = "cart.discount.apply"

abbrev pub cart_tax_rate_edit : String
cart_tax_rate_edit = "cart.tax_rate.edit"

abbrev pub finance_dashboard_view : String
finance_dashboard_view = "finance.dashboard.view"

abbrev pub finance_sales_view_all : String
finance_sales_view_all = "finance.sales.view_all"

abbrev pub finance_sales_reports_view : String
finance_sales_reports_view = "finance.sales_reports.view"

abbrev pub finance_reports_export : String
finance_reports_export = "finance.reports.export"

abbrev pub finance_purchases_view : String
finance_purchases_view = "finance.purchases.view"

abbrev pub finance_purchase_costs_view : String
finance_purchase_costs_view = "finance.purchase_costs.view"

abbrev pub finance_supplier_balances_view : String
finance_supplier_balances_view = "finance.supplier_balances.view"

abbrev pub finance_stock_valuation_view : String
finance_stock_valuation_view = "finance.stock_valuation.view"

abbrev pub finance_profitability_view : String
finance_profitability_view = "finance.profitability.view"

abbrev pub finance_receivables_view : String
finance_receivables_view = "finance.receivables.view"

abbrev pub finance_tax_reports_view : String
finance_tax_reports_view = "finance.tax_reports.view"

abbrev pub finance_reconciliation_view : String
finance_reconciliation_view = "finance.reconciliation.view"

abbrev pub finance_reversals_manage : String
finance_reversals_manage = "finance.reversals.manage"

abbrev pub finance_audit_view : String
finance_audit_view = "finance.audit.view"

abbrev pub platform_tenants_manage : String
platform_tenants_manage = "platform.tenants.manage"

abbrev pub platform_settings_manage : String
platform_settings_manage = "platform.settings.manage"

abbrev pub platform_audit_view : String
platform_audit_view = "platform.audit.view"

abbrev pub technician_work_reports_create_own : String
technician_work_reports_create_own = "technician_work_reports.create_own"

abbrev pub technician_work_reports_view_own : String
technician_work_reports_view_own = "technician_work_reports.view_own"

abbrev pub technician_work_reports_update_own : String
technician_work_reports_update_own = "technician_work_reports.update_own_draft_or_rejected"

abbrev pub technician_work_reports_submit_own : String
technician_work_reports_submit_own = "technician_work_reports.submit_own"

abbrev pub technician_work_reports_view_all : String
technician_work_reports_view_all = "technician_work_reports.view_all"

abbrev pub technician_work_reports_approve : String
technician_work_reports_approve = "technician_work_reports.approve"

abbrev pub technician_work_reports_reject : String
technician_work_reports_reject = "technician_work_reports.reject"

abbrev pub technician_work_reports_correct_approved : String
technician_work_reports_correct_approved = "technician_work_reports.correct_approved"

abbrev pub technician_payments_view_own : String
technician_payments_view_own = "technician_payments.view_own"

abbrev pub technician_payments_view_all : String
technician_payments_view_all = "technician_payments.view_all"

abbrev pub technician_payments_record : String
technician_payments_record = "technician_payments.record"

abbrev pub technician_payments_confirm_own : String
technician_payments_confirm_own = "technician_payments.confirm_own"

abbrev pub technician_payments_dispute_own : String
technician_payments_dispute_own = "technician_payments.dispute_own"

abbrev pub technician_payments_void : String
technician_payments_void = "technician_payments.void"
