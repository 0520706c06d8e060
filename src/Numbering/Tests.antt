-- ===== src/Numbering/Tests.antt =====
-- Runs of the numbering, and the theorems at concrete tables.
use internet_ms.Base.{ℕ, ◌<◌, ◌≡◌, ◌≢◌, refl, true, false, some, List, [], ◌∷◌}
use internet_ms.Base.Text.{Text, codes}
use internet_ms.Base.Digits.{digits, digits_from, pad}
use internet_ms.Billing.Models.{DocumentType}
use internet_ms.Numbering.Purchases as Buying
use internet_ms.Numbering.Purchases.Allocation.{next_number-allocates}
use internet_ms.Billing.Calendar.{Date}
use internet_ms.Numbering.Documents.{
  Organization, Sequence, get_tenant_code, normalize_code, split_from, format_number,
  get_or_create_locked_counter, next_number,
}
use internet_ms.Numbering.Documents.Apart.{Later, annual_numbers_differ}
use internet_ms.Numbering.Documents.TenantCode.{IsCode, get_tenant_code-IsCode}

abbrev same_text : Text → Text
same_text t = t

-- The number after the counter's is taken by a reference that was entered by hand.
abbrev bought : Buying.Store
bought = record {
  counters = (record { tenant_id = 1; last_number = 3 }) ∷ [];
  purchases = (record { tenant_id = 1; reference_number = codes "PUR-2026-00004" }) ∷ [];
}

next_number-allocates_example :
    (number : ℕ) × (s' : Buying.Store) × (Buying.next_number same_text 1 2026 bought
      ≡ some (Buying.format_number 2026 number, s'))
    × (Buying.preview_next_number same_text 1 2026 bought ≡ some (Buying.format_number 2026 number))
    × (Buying.last_number_of 1 bought < number)
    × (Buying.is_used same_text 1 2026 bought number ≡ false)
    × ((k : ℕ)
        → Buying.last_number_of 1 bought < k
        → k < number
        → Buying.is_used same_text 1 2026 bought k ≡ true)
    × (Buying.last_number_of 1 s' ≡ number)
    × (s'.purchases ≡ bought.purchases)
next_number-allocates_example = next_number-allocates same_text (λ year number. refl) 1 2026 bought

abbrev company : Organization
company = record {
  pk = 1;
  code_attributes = [];
  slug = codes "jumbo-systems";
  name = codes "Jumbo Systems Ltd";
}

abbrev day : Date
day = record { year = 2026; month = 3; day = 9 }

invoice_number :
    (next_number company DocumentType.invoice day []).0.value ≡ codes "INV-JS-2026-0001"
unfolding next_number get_or_create_locked_counter format_number digits digits_from pad
invoice_number = refl

credit_note_number :
    (next_number company DocumentType.credit_note day []).0.value ≡ codes "CRN-JUMBO-20260309-0001"
unfolding next_number get_or_create_locked_counter get_tenant_code normalize_code split_from
    format_number digits digits_from pad
credit_note_number = refl

get_tenant_code-IsCode_example : IsCode (get_tenant_code company)
get_tenant_code-IsCode_example = get_tenant_code-IsCode company

-- An invoice, then a credit note, then another invoice.
abbrev once : List Sequence
once = (next_number company DocumentType.invoice day []).1

abbrev twice : List Sequence
twice = (next_number company DocumentType.credit_note day once).1

annual_numbers_differ_example :
    (next_number company DocumentType.invoice day []).0.value
    ≢ (next_number company DocumentType.invoice day twice).0.value
annual_numbers_differ_example =
    annual_numbers_differ company company DocumentType.invoice DocumentType.invoice day day [] twice
      refl refl refl (Later.after_call company DocumentType.credit_note day Later.now)
