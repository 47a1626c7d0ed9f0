-- ===== src/Api/Audit/Csv/Lines.antt =====
-- The rows of the CSV export: toCsv of apps/api/src/modules/audit/audit.service.ts.
use brine_vault.Base.{
  ◌==◌, ◌||◌, Option, none, some, List, [], ◌∷◌, ◌++◌, map, All, false, ◌≡◌, refl, sym, ap, ap₂,
  ◌∙◌, if◌then◌else◌, if-elim, arith,
}
use brine_vault.Api.Audit.{
  Text, quote, comma, newline, has_char, double_quotes, or_blank, csv_field, join, csv_row, to_csv,
}
use brine_vault.Api.Audit.Csv.{before, prepend, read_fields, read-join}

unfoldable pub lines : Text → List Text
lines [] = [] ∷ []
lines (c ∷ text) =
    let rest = lines text in if c == newline then [] ∷ rest else prepend (c ∷ []) rest

-- A reader of the whole text: a row for every line.
unfoldable pub read_csv : Text → List (List Text)
read_csv text = map (read_fields before) (lines text)

abbrev pub NoNewline : Text → Type 0
NoNewline t = has_char newline t ≡ false

lines-append : (t rest : Text) → NoNewline t → lines (t ++ (newline ∷ rest)) ≡ t ∷ lines rest
unfolding lines has_char
lines-append [] rest h = refl
lines-append (c ∷ t) rest h =
    let differs : (c == newline) ≡ false = ground (arith, h) in
    rw differs (ap (prepend (c ∷ [])) (lines-append t rest (ground (arith, h))))

lines-one : (t : Text) → NoNewline t → lines t ≡ t ∷ []
unfolding lines has_char
lines-one [] h = refl
lines-one (c ∷ t) h =
    let differs : (c == newline) ≡ false = ground (arith, h) in
    rw differs (ap (prepend (c ∷ [])) (lines-one t (ground (arith, h))))

lines-join :
    (t : Text) (texts : List Text)
    → All NoNewline (t ∷ texts)
    → lines (join newline (t ∷ texts)) ≡ t ∷ texts
unfolding join
lines-join t [] h = lines-one t h.0
lines-join t (u ∷ texts) h =
    lines-append t (join newline (u ∷ texts)) h.0 ∙ ap (◌∷◌ t) (lines-join u texts h.1)

append-NoNewline : (t u : Text) → NoNewline t → NoNewline u → NoNewline (t ++ u)
unfolding has_char
append-NoNewline [] u h k = k
append-NoNewline (c ∷ t) u h k = ground (arith, append-NoNewline t u (ground (arith, h)) k)

double_quotes-NoNewline : (t : Text) → NoNewline t → NoNewline (double_quotes t)
unfolding has_char double_quotes
double_quotes-NoNewline [] h = refl
double_quotes-NoNewline (c ∷ t) h =
    let rest = double_quotes-NoNewline t (ground (arith, h)) in
    if-elim NoNewline (c == quote) (quote ∷ quote ∷ double_quotes t) (c ∷ double_quotes t)
      (λ e. rest) (λ e. ground (arith, rest))

csv_field-NoNewline : (o : Option Text) → NoNewline (or_blank o) → NoNewline (csv_field o)
unfolding csv_field has_char
csv_field-NoNewline none h = refl
csv_field-NoNewline (some t) h =
    if-elim NoNewline (has_char comma t || has_char quote t)
      (quote ∷ (double_quotes t ++ (quote ∷ []))) t
      (λ e. append-NoNewline (double_quotes t) (quote ∷ []) (double_quotes-NoNewline t h) refl)
      (λ e. h)

join-NoNewline : (texts : List Text) → All NoNewline texts → NoNewline (join comma texts)
unfolding join has_char
join-NoNewline [] h = refl
join-NoNewline (t ∷ []) h = h.0
join-NoNewline (t ∷ u ∷ texts) h =
    append-NoNewline t (comma ∷ join comma (u ∷ texts)) h.0 (join-NoNewline (u ∷ texts) h.1)

csv_field-plain :
    (t : Text) → (has_char comma t || has_char quote t) ≡ false → csv_field (some t) ≡ t
unfolding csv_field
csv_field-plain t h = rw h refl

-- A name that needs no quotes and no second line.
abbrev pub IsPlain : Text → Type 0
IsPlain t = ((has_char comma t || has_char quote t) ≡ false) × NoNewline t

module _ {Event : Type 0} {Header : Type 0} (text_of : Event → Header → Option Text)
    (header_name : Header → Text) where
  row-NoNewline :
      ((e : Event) (h : Header) → NoNewline (or_blank (text_of e h)))
      → (headers : List Header) (e : Event)
      → All NoNewline (map (λ h. csv_field (text_of e h)) headers)
  row-NoNewline no_newline [] e = tt
  row-NoNewline no_newline (h ∷ headers) e =
      (csv_field-NoNewline (text_of e h) (no_newline e h), row-NoNewline no_newline headers e)

  names-NoNewline :
      (headers : List Header)
      → All (λ h. IsPlain (header_name h)) headers
      → All NoNewline (map header_name headers)
  names-NoNewline [] p = tt
  names-NoNewline (h ∷ headers) p = (p.0.1, names-NoNewline headers p.1)

  names-as_fields :
      (headers : List Header)
      → All (λ h. IsPlain (header_name h)) headers
      → map csv_field (map (λ h. some (header_name h)) headers) ≡ map header_name headers
  names-as_fields [] p = refl
  names-as_fields (h ∷ headers) p =
      ap₂ ◌∷◌ (csv_field-plain (header_name h) p.0.0) (names-as_fields headers p.1)

  map-or_blank :
      (headers : List Header)
      → map or_blank (map (λ h. some (header_name h)) headers) ≡ map header_name headers
  map-or_blank [] = refl
  map-or_blank (h ∷ headers) = ap (◌∷◌ (header_name h)) (map-or_blank headers)

  map_fields :
      {B : Type 0} (f : Option Text → B) (e : Event) (headers : List Header)
      → map f (map (text_of e) headers) ≡ map (λ h. f (text_of e h)) headers
  map_fields f e [] = refl
  map_fields f e (h ∷ headers) = ap (◌∷◌ (f (text_of e h))) (map_fields f e headers)

  read-row :
      (h : Header) (headers : List Header) (e : Event)
      → read_fields before (csv_row text_of (h ∷ headers) e)
        ≡ map (λ x. or_blank (text_of e x)) (h ∷ headers)
  unfolding csv_row
  read-row h headers e =
      ap (λ fs. read_fields before (join comma fs)) (sym (map_fields csv_field e (h ∷ headers)))
      ∙ read-join (text_of e h) (map (text_of e) headers)
      ∙ map_fields or_blank e (h ∷ headers)

  read-rows :
      (h : Header) (headers : List Header) (events : List Event)
      → map (read_fields before) (map (csv_row text_of (h ∷ headers)) events)
        ≡ map (λ e. map (λ x. or_blank (text_of e x)) (h ∷ headers)) events
  read-rows h headers [] = refl
  read-rows h headers (e ∷ events) = ap₂ ◌∷◌ (read-row h headers e) (read-rows h headers events)

  rows-NoNewline :
      ((e : Event) (h : Header) → NoNewline (or_blank (text_of e h)))
      → (headers : List Header) (events : List Event)
      → All NoNewline (map (csv_row text_of headers) events)
  unfolding csv_row
  rows-NoNewline no_newline headers [] = tt
  rows-NoNewline no_newline headers (e ∷ events) = (
    join-NoNewline _ (row-NoNewline no_newline headers e),
    rows-NoNewline no_newline headers events,
  )

  -- Nothing is lost in the export: for any rows, at least one, and any columns, at least one, whose
  -- names need no quotes and whose texts have no line break, a reader of comma-separated values gets
  -- the names of the columns and then every row with the text of each column, null as the empty text.
  pub to_csv-read :
      (h : Header) (headers : List Header) (e : Event) (events : List Event)
      → All (λ x. IsPlain (header_name x)) (h ∷ headers)
      → ((e : Event) (h : Header) → NoNewline (or_blank (text_of e h)))
      → read_csv (to_csv text_of header_name (h ∷ headers) (e ∷ events))
        ≡ map header_name (h ∷ headers)
          ∷ map (λ e. map (λ x. or_blank (text_of e x)) (h ∷ headers)) (e ∷ events)
  unfolding read_csv to_csv
  to_csv-read h headers e events names no_newline =
      ap (map (read_fields before)) (
        lines-join (join comma (map header_name (h ∷ headers)))
          (map (csv_row text_of (h ∷ headers)) (e ∷ events))
          (
            join-NoNewline _ (names-NoNewline (h ∷ headers) names),
            rows-NoNewline no_newline (h ∷ headers) (e ∷ events),
          ))
      ∙ ap₂ ◌∷◌
          (ap (λ fs. read_fields before (join comma fs)) (sym (names-as_fields (h ∷ headers) names))
            ∙ read-join (some (header_name h)) (map (λ x. some (header_name x)) headers)
            ∙ map-or_blank (h ∷ headers))
          (read-rows h headers (e ∷ events))
