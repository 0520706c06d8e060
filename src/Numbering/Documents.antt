-- ===== src/Numbering/Documents.antt =====
-- billing/numbering.py: the numbers of billing documents.
pub mod Apart
pub mod TenantCode
use internet_ms.Base.{
  ℕ, zero, suc, ◌+◌, ◌-◌, Bool, true, false, not, ◌&&◌, ◌||◌, Option, none, some, List, [], ◌∷◌,
  ◌++◌, ◌==◌, ltb, leb, find, update, filter, map, length, if◌then◌else◌,
}
use internet_ms.Base.Text.{Text, is_empty}
use internet_ms.Base.Digits.{digits, pad}
use internet_ms.Billing.Calendar.{Date, same_date}
use internet_ms.Billing.Models.{DocumentType, is_credit_note, is_invoice, is_quotation, is_receipt}

-- `Organization`: the attributes that may hold a code, in the order of `get_tenant_code`, a missing one
-- empty.
pub record Organization : Type 0 where
  pub pk : ℕ
  pub code_attributes : List Text
  pub slug : Text
  pub name : Text

-- `DocumentSequence`
pub record Sequence : Type 0 where
  pub tenant_id : ℕ
  pub document_type : DocumentType
  pub year : Option ℕ
  pub sequence_date : Option Date
  pub last_number : ℕ

-- `GeneratedDocumentNumber`
pub record Generated : Type 0 where
  pub value : Text
  pub sequence_number : ℕ
  pub tenant_code : Text
  pub sequence_date : Date

-- `[A-Za-z0-9]`
abbrev pub is_alphanumeric : ℕ → Bool
is_alphanumeric c = (leb 48 c && leb c 57) || (leb 65 c && leb c 90) || (leb 97 c && leb c 122)

abbrev pub upper_letter : ℕ → ℕ
upper_letter c = if leb 97 c && leb c 122 then c - 32 else c

abbrev pub take : ℕ → Text → Text
take zero t = []
take (suc n) [] = []
take (suc n) (c ∷ t) = c ∷ take n t

abbrev pub or_text : Text → Text → Text
or_text [] u = u
or_text (c ∷ t) u = c ∷ t

-- "TENANT"
abbrev pub default_code : Text
default_code = 84 ∷ 69 ∷ 78 ∷ 65 ∷ 78 ∷ 84 ∷ []

-- `_normalize_code`
unfoldable pub normalize_code : Text → Text
normalize_code value =
    or_text (take 8 (map upper_letter (filter is_alphanumeric value))) default_code

-- `re.split` at what is not alphanumeric, `part` being the piece so far.
unfoldable pub split_from : Text → Text → List Text
split_from part [] = part ∷ []
split_from part (c ∷ t) =
    let rest = split_from (if is_alphanumeric c then part ++ c ∷ [] else []) t in
    if is_alphanumeric c then rest else part ∷ rest

abbrev pub is_part : Text → Bool
is_part t = not (is_empty t)

abbrev pub parts : Text → List Text
parts t = filter is_part (split_from [] t)

abbrev pub initial_of : Text → Text
initial_of [] = []
initial_of (c ∷ t) = upper_letter c ∷ []

-- `"".join(part[0].upper() for part in name_parts[:4])`
abbrev pub initials : ℕ → List Text → Text
initials zero ts = []
initials (suc n) [] = []
initials (suc n) (t ∷ ts) = initial_of t ++ initials n ts

abbrev pub code_from_name : Text → Text
code_from_name name =
    if ltb (length (parts name)) 2
    then normalize_code (or_text name default_code)
    else initials 4 (parts name)

abbrev pub code_from_slug : Organization → List Text → Text
code_from_slug organization [] = code_from_name (or_text organization.name organization.slug)
code_from_slug organization (part ∷ _) =
    if leb (length part) 6
    then normalize_code part
    else code_from_name (or_text organization.name organization.slug)

abbrev pub first_code : Organization → Option Text → Text
first_code organization (some raw) = normalize_code raw
first_code organization none = code_from_slug organization (parts organization.slug)

unfoldable pub get_tenant_code : Organization → Text
unfolding normalize_code split_from
get_tenant_code organization = first_code organization (find is_part organization.code_attributes)

-- `ANNUAL_DOCUMENT_TYPES`
abbrev pub is_annual : DocumentType → Bool
is_annual document_type =
    is_quotation document_type || is_invoice document_type || is_receipt document_type

-- `PREFIX`: QTN, INV, RCT, CRN
abbrev pub prefix : DocumentType → Text
prefix DocumentType.quotation = 81 ∷ 84 ∷ 78 ∷ []
prefix DocumentType.invoice = 73 ∷ 78 ∷ 86 ∷ []
prefix DocumentType.receipt = 82 ∷ 67 ∷ 84 ∷ []
prefix DocumentType.credit_note = 67 ∷ 82 ∷ 78 ∷ []

-- `_format_number`
unfoldable pub format_number : DocumentType → Text → Date → ℕ → Text
format_number document_type tenant_code issue_date sequence_number =
    if is_annual document_type
    then prefix document_type
      ++ (45 ∷ 74 ∷ 83 ∷ 45 ∷ digits issue_date.year ++ 45 ∷ pad 4 sequence_number)
    else prefix document_type
      ++ (45 ∷ tenant_code
          ++ (45 ∷ digits issue_date.year
              ++ (pad 2 issue_date.month ++ (pad 2 issue_date.day ++ 45 ∷ pad 4 sequence_number))))

abbrev pub same_type : DocumentType → DocumentType → Bool
same_type DocumentType.quotation b = is_quotation b
same_type DocumentType.invoice b = is_invoice b
same_type DocumentType.receipt b = is_receipt b
same_type DocumentType.credit_note b = is_credit_note b

abbrev pub has_year : ℕ → Option ℕ → Bool
has_year year none = false
has_year year (some y) = y == year

abbrev pub has_date : Date → Option Date → Bool
has_date date none = false
has_date date (some d) = same_date d date

abbrev pub is_null {ℓ} : {A : Type ℓ} → Option A → Bool
is_null none = true
is_null (some _) = false

-- The lookup of `_get_or_create_locked_counter`.
abbrev pub is_sequence_of : ℕ → DocumentType → Date → Sequence → Bool
is_sequence_of organization document_type issue_date c =
    c.tenant_id == organization
    && same_type c.document_type document_type
    && (if is_annual document_type
        then has_year issue_date.year c.year && is_null c.sequence_date
        else is_null c.year && has_date issue_date c.sequence_date)

abbrev pub new_sequence : ℕ → DocumentType → Date → Sequence
new_sequence organization document_type issue_date = record {
  tenant_id = organization;
  document_type = document_type;
  year = if is_annual document_type then some issue_date.year else none;
  sequence_date = if is_annual document_type then none else some issue_date;
  last_number = 0;
}

abbrev pub locked_with : ℕ → DocumentType → Date → List Sequence → Option Sequence → List Sequence
locked_with organization document_type issue_date table (some c) = table
locked_with organization document_type issue_date table none =
    table ++ new_sequence organization document_type issue_date ∷ []

-- `_get_or_create_locked_counter`: the table with the counter.
unfoldable pub get_or_create_locked_counter :
    ℕ → DocumentType → Date → List Sequence → List Sequence
get_or_create_locked_counter organization document_type issue_date table =
    locked_with organization document_type issue_date table
      (find (is_sequence_of organization document_type issue_date) table)

abbrev pub last_of : Option Sequence → ℕ
last_of none = 0
last_of (some c) = c.last_number

abbrev pub last_number_of : ℕ → DocumentType → Date → List Sequence → ℕ
last_number_of organization document_type issue_date table =
    last_of (find (is_sequence_of organization document_type issue_date) table)

abbrev pub set_last : ℕ → Sequence → Sequence
set_last number c = record c { last_number = number }

-- `counter.save(update_fields=["last_number"])`
abbrev pub save_counter : ℕ → DocumentType → Date → ℕ → List Sequence → List Sequence
save_counter organization document_type issue_date number =
    update (is_sequence_of organization document_type issue_date) (set_last number)

-- "JS" for the annual types
abbrev pub code_for : Organization → DocumentType → Text
code_for organization document_type =
    if is_annual document_type then 74 ∷ 83 ∷ [] else get_tenant_code organization

unfoldable pub next_number :
    Organization → DocumentType → Date → List Sequence → Generated × List Sequence
unfolding get_or_create_locked_counter get_tenant_code format_number
next_number organization document_type issue_date table =
    let locked = get_or_create_locked_counter organization.pk document_type issue_date table in
    let number = last_number_of organization.pk document_type issue_date locked + 1 in
    (
      record {
        value = format_number document_type (code_for organization document_type) issue_date number;
        sequence_number = number;
        tenant_code = code_for organization document_type;
        sequence_date = issue_date;
      },
      save_counter organization.pk document_type issue_date number locked,
    )

-- `generate_document_number`
unfoldable pub generate_document_number :
    Organization → DocumentType → Date → List Sequence → Text × List Sequence
unfolding next_number
generate_document_number tenant document_type document_date table =
    let generated = next_number tenant document_type document_date table in
    (generated.0.value, generated.1)
