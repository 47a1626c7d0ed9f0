-- ===== src/Api/Audit/Csv.antt =====
-- The CSV export read back: toCsv of apps/api/src/modules/audit/audit.service.ts against a reader of
-- comma-separated values (RFC 4180), one row to a line.
pub mod Lines
use brine_vault.Base.{
  ℕ, ◌==◌, ◌||◌, Option, none, some, List, [], ◌∷◌, ◌++◌, map, All, Bool, true, false, ◌≡◌, refl,
  sym, ap, ap₂, ◌∙◌, ◌≢◌, Bool-cases, inl, inr, ==_iff, if◌then◌else◌, if-elim, arith,
}
use brine_vault.Api.Audit.{
  Text, quote, comma, newline, has_char, double_quotes, or_blank, csv_field, join, csv_row, to_csv,
}

-- Where the reader stands: before a field, in a plain one, in a quoted one, after a quote in it.
pub data Mode : Type 0 where
  before plain quoted after : Mode

pub data CharClass : Type 0 where
  a_comma a_quote another : CharClass

abbrev pub classify : ℕ → CharClass
classify c = if c == comma then a_comma else if c == quote then a_quote else another

-- A text before the first field of a row.
abbrev pub prepend : Text → List Text → List Text
prepend text [] = text ∷ []
prepend text (f ∷ fields) = (text ++ f) ∷ fields

unfoldable pub read_fields : Mode → Text → List Text
read_fields mode [] = [] ∷ []
read_fields before (c ∷ text) = elim (classify c) [
  | a_comma ↦ [] ∷ read_fields before text
  | a_quote ↦ read_fields quoted text
  | another ↦ prepend (c ∷ []) (read_fields plain text)
]
read_fields plain (c ∷ text) = elim (classify c) [
  | a_comma ↦ [] ∷ read_fields before text
  | _ ↦ prepend (c ∷ []) (read_fields plain text)
]
read_fields quoted (c ∷ text) = elim (classify c) [
  | a_quote ↦ read_fields after text
  | _ ↦ prepend (c ∷ []) (read_fields quoted text)
]
read_fields after (c ∷ text) = elim (classify c) [
  | a_comma ↦ [] ∷ read_fields before text
  | a_quote ↦ prepend (quote ∷ []) (read_fields quoted text)
  | another ↦ prepend (c ∷ []) (read_fields plain text)
]

-- The rest of a row after a field: nothing, or a comma and the next fields.
abbrev tail_of : List Text → Text
tail_of [] = []
tail_of (t ∷ texts) = comma ∷ join comma (t ∷ texts)

-- The fields that a reader finds there.
abbrev later_fields : List Text → List Text
later_fields [] = []
later_fields (t ∷ texts) = read_fields before (join comma (t ∷ texts))

append_nil : (t : Text) → t ++ [] ≡ t
append_nil [] = refl
append_nil (c ∷ t) = ap (◌∷◌ c) (append_nil t)

join_lem : (t : Text) (texts : List Text) → join comma (t ∷ texts) ≡ t ++ tail_of texts
unfolding join
join_lem t [] = sym (append_nil t)
join_lem t (u ∷ texts) = refl

read-tail_of :
    (mode : Mode) (texts : List Text)
    → (mode ≢ quoted)
    → read_fields mode (tail_of texts) ≡ [] ∷ later_fields texts
unfolding read_fields
read-tail_of mode [] unquoted = refl
read-tail_of before (t ∷ texts) unquoted = refl
read-tail_of plain (t ∷ texts) unquoted = refl
read-tail_of after (t ∷ texts) unquoted = refl
read-tail_of quoted (t ∷ texts) unquoted = absurd (unquoted refl)

plain_class : (c : ℕ) → (c == comma) ≡ false → (c == quote) ≡ false → classify c ≡ another
plain_class c h k = rw h (rw k refl)

quote_class : (c : ℕ) → (c == comma) ≡ false → (c == quote) ≡ true → classify c ≡ a_quote
quote_class c h k = rw h (rw k refl)

comma_class : (c : ℕ) → (c == comma) ≡ true → classify c ≡ a_comma
comma_class c h = rw h refl

quoted-one :
    (c : ℕ) (text : Text)
    → (c == quote) ≡ false
    → read_fields quoted (c ∷ text) ≡ prepend (c ∷ []) (read_fields quoted text)
unfolding read_fields
quoted-one c text h = elim (Bool-cases (c == comma)) [
  | inl e ↦
      ap
        (λ k. elim k [
          | a_quote ↦ read_fields after text
          | _ ↦ prepend (c ∷ []) (read_fields quoted text)
        ])
        (comma_class c e)
  | inr e ↦
      ap
        (λ k. elim k [
          | a_quote ↦ read_fields after text
          | _ ↦ prepend (c ∷ []) (read_fields quoted text)
        ])
        (plain_class c e h)
]

plain-one :
    (c : ℕ) (text : Text)
    → (c == comma) ≡ false
    → read_fields plain (c ∷ text) ≡ prepend (c ∷ []) (read_fields plain text)
unfolding read_fields
plain-one c text h = elim (Bool-cases (c == quote)) [
  | inl e ↦
      ap
        (λ k. elim k [
          | a_comma ↦ [] ∷ read_fields before text
          | _ ↦ prepend (c ∷ []) (read_fields plain text)
        ])
        (quote_class c h e)
  | inr e ↦
      ap
        (λ k. elim k [
          | a_comma ↦ [] ∷ read_fields before text
          | _ ↦ prepend (c ∷ []) (read_fields plain text)
        ])
        (plain_class c h e)
]

before-one :
    (c : ℕ) (text : Text)
    → (c == comma) ≡ false
    → (c == quote) ≡ false
    → read_fields before (c ∷ text) ≡ prepend (c ∷ []) (read_fields plain text)
unfolding read_fields
before-one c text h k =
    ap
      (λ x. elim x [
        | a_comma ↦ [] ∷ read_fields before text
        | a_quote ↦ read_fields quoted text
        | another ↦ prepend (c ∷ []) (read_fields plain text)
      ])
      (plain_class c h k)

-- A field between quotes, its own quotes doubled.
read-quoted :
    (text : Text) (texts : List Text)
    → read_fields quoted (double_quotes text ++ (quote ∷ tail_of texts)) ≡ text ∷ later_fields texts
unfolding read_fields double_quotes
read-quoted [] texts = read-tail_of after texts (λ e. cc)
read-quoted (c ∷ text) texts =
    let rest = read-quoted text texts in
    if-elim
      (λ (t : Text).
        read_fields quoted (t ++ (quote ∷ tail_of texts)) ≡ (c ∷ text) ∷ later_fields texts)
      (c == quote) (quote ∷ quote ∷ double_quotes text) (c ∷ double_quotes text)
      (λ e.
        ap (prepend (quote ∷ [])) rest
        ∙ ap (λ x. (x ∷ text) ∷ later_fields texts) (sym ((==_iff c quote).0 e)))
      (λ e.
        quoted-one c (double_quotes text ++ (quote ∷ tail_of texts)) e ∙ ap (prepend (c ∷ [])) rest)

read-plain :
    (text : Text) (texts : List Text)
    → has_char comma text ≡ false
    → read_fields plain (text ++ tail_of texts) ≡ text ∷ later_fields texts
unfolding has_char
read-plain [] texts h = read-tail_of plain texts (λ e. cc)
read-plain (c ∷ text) texts h =
    plain-one c (text ++ tail_of texts) (ground (arith, h))
    ∙ ap (prepend (c ∷ [])) (read-plain text texts (ground (arith, h)))

read-bare :
    (text : Text) (texts : List Text)
    → (has_char comma text || has_char quote text) ≡ false
    → read_fields before (text ++ tail_of texts) ≡ text ∷ later_fields texts
unfolding has_char
read-bare [] texts h = read-tail_of before texts (λ e. cc)
read-bare (c ∷ text) texts h =
    before-one c (text ++ tail_of texts) (ground (arith, h)) (ground (arith, h))
    ∙ ap (prepend (c ∷ [])) (read-plain text texts (ground (arith, h)))

append_assoc_quote :
    (text : Text) (rest : Text) → (text ++ (quote ∷ [])) ++ rest ≡ text ++ (quote ∷ rest)
append_assoc_quote [] rest = refl
append_assoc_quote (c ∷ text) rest = ap (◌∷◌ c) (append_assoc_quote text rest)

read-csv_field :
    (o : Option Text) (texts : List Text)
    → read_fields before (csv_field o ++ tail_of texts) ≡ or_blank o ∷ later_fields texts
unfolding csv_field read_fields
read-csv_field none texts = read-tail_of before texts (λ e. cc)
read-csv_field (some text) texts =
    if-elim (λ (t : Text). read_fields before (t ++ tail_of texts) ≡ text ∷ later_fields texts)
      (has_char comma text || has_char quote text) (quote ∷ (double_quotes text ++ (quote ∷ [])))
      text
      (λ e.
        ap (read_fields quoted) (append_assoc_quote (double_quotes text) (tail_of texts))
        ∙ read-quoted text texts)
      (λ e. read-bare text texts e)

pub read-join :
    (o : Option Text) (fields : List (Option Text))
    → read_fields before (join comma (map csv_field (o ∷ fields))) ≡ map or_blank (o ∷ fields)
read-join o [] = ap (read_fields before) (join_lem (csv_field o) []) ∙ read-csv_field o []
read-join o (p ∷ fields) =
    ap (read_fields before) (join_lem (csv_field o) (map csv_field (p ∷ fields)))
    ∙ read-csv_field o (map csv_field (p ∷ fields))
    ∙ ap (◌∷◌ (or_blank o)) (read-join p fields)
