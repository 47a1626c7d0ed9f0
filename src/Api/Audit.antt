-- ===== src/Api/Audit.antt =====
-- AuditService: apps/api/src/modules/audit/audit.service.ts. A text is the list of its characters; the
-- texts of a row's columns (`String(value)`, none for null) are a parameter.
pub mod Csv
use brine_vault.Base.{
  ℕ, ◌==◌, ◌||◌, Option, none, some, List, [], ◌∷◌, ◌++◌, map, Bool, false, if◌then◌else◌, Result,
  ok, err, ◌>>=◌,
}
use brine_vault.Db.Tables.{AuditRow, Store}
use brine_vault.Db.Listing.{find_audits_by_pool, find_audits_by_actor}
use brine_vault.Api.Access.{ApiError, pool_access, PageQuery, offset}

abbrev pub Text : Type 0
Text = List ℕ

abbrev pub quote : ℕ
quote = 34

abbrev pub comma : ℕ
comma = 44

abbrev pub newline : ℕ
newline = 10

-- `text.includes(character)`.
unfoldable pub has_char : ℕ → Text → Bool
has_char c [] = false
has_char c (x ∷ text) = (x == c) || has_char c text

-- `text.replace(/"/g, '""')`.
unfoldable pub double_quotes : Text → Text
double_quotes [] = []
double_quotes (x ∷ text) =
    let rest = double_quotes text in if x == quote then quote ∷ quote ∷ rest else x ∷ rest

abbrev pub or_blank : Option Text → Text
or_blank none = []
or_blank (some text) = text

unfoldable pub csv_field : Option Text → Text
csv_field none = []
csv_field (some text) =
    if has_char comma text || has_char quote text
    then quote ∷ (double_quotes text ++ (quote ∷ []))
    else text

-- `texts.join(separator)`.
unfoldable pub join : ℕ → List Text → Text
join separator [] = []
join separator (t ∷ []) = t
join separator (t ∷ u ∷ texts) = t ++ (separator ∷ join separator (u ∷ texts))

module _ {Event : Type 0} {Header : Type 0} (text_of : Event → Header → Option Text) where
  unfoldable pub csv_row : List Header → Event → Text
  csv_row headers e = join comma (map (λ h. csv_field (text_of e h)) headers)

  unfoldable pub to_csv : (Header → Text) → List Header → List Event → Text
  to_csv header_name headers [] = []
  to_csv header_name headers (e ∷ events) =
      join newline (join comma (map header_name headers) ∷ map (csv_row headers) (e ∷ events))

-- The columns of the export, in their order.
pub data AuditColumn : Type 0 where
  id_column pool_id_column event_type_column actor_address_column : AuditColumn
  target_id_column timestamp_column sui_tx_digest_column : AuditColumn

abbrev pub audit_columns : List AuditColumn
audit_columns =
    id_column ∷ pool_id_column ∷ event_type_column ∷ actor_address_column ∷ target_id_column
    ∷ timestamp_column ∷ sui_tx_digest_column ∷ []

pub data ExportFormat : Type 0 where
  json csv : ExportFormat

pub data Exported : Type 0 where
  exported_rows : List AuditRow → Exported
  exported_csv : Text → Exported

unfoldable pub get_pool_audit : ℕ → Option ℕ → PageQuery → Store → Result ApiError (List AuditRow)
get_pool_audit pool_id user_org query s = do
  pool ← pool_access pool_id user_org s
  ok (find_audits_by_pool pool_id query.limit (offset query) s)

unfoldable pub export_pool_audit :
    (AuditRow → AuditColumn → Option Text)
    → (AuditColumn → Text)
    → ℕ
    → Option ℕ
    → ExportFormat
    → Store
    → Result ApiError Exported
export_pool_audit text_of column_name pool_id user_org format s = do
  pool ← pool_access pool_id user_org s
  let events = find_audits_by_pool pool_id 10000 0 s
  ok (elim format [
    | csv ↦ exported_csv (to_csv text_of column_name audit_columns events)
    | json ↦ exported_rows events
  ])

unfoldable pub get_my_activity : ℕ → PageQuery → Store → List AuditRow
get_my_activity user_address query s =
    find_audits_by_actor user_address query.limit (offset query) s
