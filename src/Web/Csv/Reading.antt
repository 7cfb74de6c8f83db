-- ===== src/Web/Csv/Reading.antt =====
-- A reader of the grammar of RFC 4180, with the line feed alone as the end of a line, which is how
-- the export ends its own; and what it makes of the export.
use fips_dropbox.Prelude.{
  ℕ, ◌≡◌, refl, sym, ap, ◌∙◌, subst, false, Option, none, some, List, [], ◌∷◌, ◌++◌, append_assoc,
  append-nil, codes, arith, ◌==◌, ◌||◌, Bool-cases, inl, inr, if◌then◌else◌,
}
use fips_dropbox.Text.{Text}
use fips_dropbox.Event.{Event, Outcome, success, failure, denied}
use fips_dropbox.Web.Http.{Http}
use fips_dropbox.Web.Strings.{Parts}
use fips_dropbox.Web.Csv.{
  double_quotes, needs_quotes, esc, outcome_name, csv_line, or_empty, csv_header, columns_of,
  csv_row, csv_rows,
}

-- Where the reader is: before a field, in one, in a quoted one, or past a quote in it.
pub data Mode : Type 0 where
  start plain quoted past_quote : Mode

-- A record: its fields, and what follows its line end.
abbrev pub Record : Type 0
Record = Option (Parts × Text)

abbrev pub put_char : ℕ → Record → Record
put_char c none = none
put_char c (some (p, rest)) = some (record p { first = c ∷ p.first }, rest)

abbrev pub next_field : Record → Record
next_field none = none
next_field (some (p, rest)) = some (record { first = []; more = p.first ∷ p.more }, rest)

-- A field without quotes holds no quote and no carriage return.
unfoldable pub read_record : Mode → Text → Record
read_record mode [] = none
read_record start (c ∷ s) =
    let opened = read_record quoted s in
    let next = read_record start s in
    let more = read_record plain s in
    if c == b'"'
    then opened
    else if c == b','
    then next_field next
    else if c == b'\n'
    then some (record { first = []; more = [] }, s)
    else if c == b'\r'
    then none
    else put_char c more
read_record plain (c ∷ s) =
    let next = read_record start s in
    let more = read_record plain s in
    if c == b','
    then next_field next
    else if c == b'\n'
    then some (record { first = []; more = [] }, s)
    else if c == b'\r' || c == b'"'
    then none
    else put_char c more
read_record quoted (c ∷ s) =
    let past = read_record past_quote s in
    let more = read_record quoted s in if c == b'"' then past else put_char c more
read_record past_quote (c ∷ s) =
    let next = read_record start s in
    let more = read_record quoted s in
    if c == b'"'
    then put_char c more
    else if c == b','
    then next_field next
    else if c == b'\n'
    then some (record { first = []; more = [] }, s)
    else none

abbrev pub put_text : Text → Record → Record
put_text [] r = r
put_text (c ∷ s) r = put_char c (put_text s r)

plain_text :
    (s tail : Text)
    → needs_quotes s ≡ false
    → read_record plain (s ++ tail) ≡ put_text s (read_record plain tail)
unfolding read_record needs_quotes
plain_text [] tail h = refl
plain_text (c ∷ s) tail h = ground (arith, plain_text s tail)

quoted_text :
    (s tail : Text)
    → read_record quoted (double_quotes s ++ b'"' ∷ tail) ≡ put_text s (read_record past_quote tail)
unfolding read_record double_quotes
quoted_text [] tail = refl
quoted_text (c ∷ s) tail = ground (arith, quoted_text s tail)

-- What may follow a field.
data Ends : Text → Type 0 where
  comma : (s : Text) → Ends (b',' ∷ s)
  line_end : (s : Text) → Ends (b'\n' ∷ s)

past_quote_plain : (tail : Text) → Ends tail → read_record past_quote tail ≡ read_record plain tail
unfolding read_record
past_quote_plain _ (comma s) = refl
past_quote_plain _ (line_end s) = refl

start_plain :
    (s tail : Text)
    → Ends tail
    → needs_quotes s ≡ false
    → read_record start (s ++ tail) ≡ read_record plain (s ++ tail)
unfolding read_record needs_quotes
start_plain [] _ (comma s) h = refl
start_plain [] _ (line_end s) h = refl
start_plain (c ∷ s) tail e h = ground arith

opened : (s : Text) → read_record start (b'"' ∷ s) ≡ read_record quoted s
unfolding read_record
opened s = refl

read_esc :
    (s tail : Text)
    → Ends tail
    → read_record start (esc s ++ tail) ≡ put_text s (read_record plain tail)
unfolding esc
read_esc s tail e = elim (Bool-cases (needs_quotes s)) [
  | inl h ↦
      rw (h, append_assoc (double_quotes s) (b'"' ∷ []) tail)
        (opened (double_quotes s ++ b'"' ∷ tail)
          ∙ quoted_text s tail
          ∙ ap (put_text s) (past_quote_plain tail e))
  | inr h ↦ rw h (start_plain s tail e h ∙ plain_text s tail h)
]

put_text-some :
    (s : Text) (p : Parts) (rest : Text)
    → put_text s (some (p, rest)) ≡ some (record { first = s ++ p.first; more = p.more }, rest)
put_text-some [] p rest = refl
put_text-some (c ∷ s) p rest = ap (put_char c) (put_text-some s p rest)

-- A line of the export reads back as its columns.
read_record-csv_line :
    (first : Text) (columns : List Text) (rest : Text)
    → read_record start (csv_line first columns ++ rest)
      ≡ some (record { first = first; more = columns }, rest)
unfolding csv_line read_record
read_record-csv_line first [] rest = rw (append_assoc (esc first) (b'\n' ∷ []) rest) (
    read_esc first (b'\n' ∷ rest) (line_end rest)
    ∙ put_text-some first _ rest
    ∙ ap (λ f. some (record { first = f; more = [] }, rest)) (append-nil first))
read_record-csv_line first (next ∷ columns) rest =
    rw (append_assoc (esc first) (b',' ∷ csv_line next columns) rest) (
      read_esc first (b',' ∷ (csv_line next columns ++ rest)) (comma _)
      ∙ ap (λ r. put_text first (next_field r)) (read_record-csv_line next columns rest)
      ∙ put_text-some first _ rest
      ∙ ap (λ f. some (record { first = f; more = next ∷ columns }, rest)) (append-nil first))

-- A text that is read record by record, to its end.
pub data Reads : Text → List Parts → Type 0 where
  at_end : Reads [] []
  record_then :
      {s rest : Text} {p : Parts} {records : List Parts}
      → read_record start s ≡ some (p, rest)
      → Reads rest records
      → Reads s (p ∷ records)

-- The columns of the export: the name of each, and what an event has in it.
abbrev pub Column : Type 0
Column = Text × (Event → Text)

abbrev outcome_word : Outcome → Text
outcome_word success = codes "success"
outcome_word failure = codes "failure"
outcome_word denied = codes "denied"

abbrev text_or_nothing : Option Text → Text
text_or_nothing none = []
text_or_nothing (some s) = s

abbrev names : List Column → List Text
names [] = []
names ((name, value) ∷ columns) = name ∷ names columns

abbrev values : Event → List Column → List Text
values e [] = []
values e ((name, value) ∷ columns) = value e ∷ values e columns

module _ ⦃http : Http⦄ where
  abbrev pub first_column : Column
  first_column = (codes "ts", λ e. text_or_nothing (http.rfc3339 e.ts))

  abbrev pub columns : List Column
  columns =
      (codes "event", λ e. e.event)
      ∷ (codes "outcome", λ e. outcome_word e.outcome)
      ∷ (codes "user_id", λ e. text_or_nothing e.actor.user_id)
      ∷ (codes "ip", λ e. e.actor.ip)
      ∷ (codes "ua", λ e. e.actor.ua)
      ∷ (codes "target", λ e. http.json_to_string e.target)
      ∷ (codes "meta", λ e. http.json_to_string e.meta)
      ∷ (codes "prev_hash", λ e. e.prev_hash)
      ∷ (codes "hash", λ e. e.hash)
      ∷ []

  -- The record of the names, and the record of an event.
  abbrev pub header_record : Parts
  header_record = record { first = first_column.0; more = names columns }

  abbrev pub record_of : Event → Parts
  record_of e = record { first = first_column.1 e; more = values e columns }

  same_columns : (e : Event) → columns_of e ≡ values e columns
  unfolding columns_of outcome_name
  same_columns e = ground arith

  same_first : (e : Event) → or_empty (http.rfc3339 e.ts) ≡ first_column.1 e
  same_first e = ground arith

  read_row :
      (e : Event) (tail : Text) → read_record start (csv_row e ++ tail) ≡ some (record_of e, tail)
  unfolding csv_row
  read_row e tail =
      read_record-csv_line _ (columns_of e) tail
      ∙ ap (λ f. some (record { first = f; more = columns_of e }, tail)) (same_first e)
      ∙ ap (λ m. some (record { first = first_column.1 e; more = m }, tail)) (same_columns e)

  -- The events of a view, which has the newest first, before further records.
  abbrev pub oldest_first : List Event → List Parts → List Parts
  oldest_first [] records = records
  oldest_first (e ∷ events) records = oldest_first events (record_of e ∷ records)

  read_rows :
      (events : List Event) (tail : Text) (records : List Parts)
      → Reads tail records
      → Reads (csv_rows events ++ tail) (oldest_first events records)
  unfolding csv_rows
  read_rows [] tail records read = read
  read_rows (e ∷ events) tail records read =
      subst (λ s. Reads s (oldest_first (e ∷ events) records))
        (sym (append_assoc (csv_rows events) (csv_row e) tail))
        (read_rows events (csv_row e ++ tail) (record_of e ∷ records)
          (record_then (read_row e tail) read))

  -- The export of any events is read, by the grammar of RFC 4180 with the line feed as the end of a
  -- line, as the names of the ten columns and then one record for each event, the oldest first, with
  -- the event's value of each name in its place, whatever commas, quotes and line ends it holds.
  pub csv-Reads :
      (events : List Event)
      → Reads (csv_header ++ csv_rows events) (header_record ∷ oldest_first events [])
  unfolding read_record
  csv-Reads events = record_then refl (
      subst (λ s. Reads s (oldest_first events [])) (append-nil (csv_rows events))
        (read_rows events [] [] at_end))
