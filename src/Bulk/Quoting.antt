-- ===== src/Bulk/Quoting.antt =====
-- Reading back records whose fields are quoted (ts/src/bulk.ts, `parseCsv`).
use Prim.Native.Char.{Char}
use text.Mathlib.TextEquality.{Char-path}
use mathlib.Core.List.{append_assoc}
use hellgraph.Base.{
  ◌==◌, String, ◌≡◌, refl, sym, ap, ◌∙◌, Bool, true, false, List, [], ◌∷◌, ◌++◌, arith, Bool-cases,
  inl, inr, if◌then◌else◌, map,
}
use hellgraph.Base.Text.{append_text, append_text-nil, append_text_assoc}
use hellgraph.Bulk.{is_quote, add_char, read_records, records_of}

-- A field in front of other text: its quotes are doubled.
abbrev pub escape : String → String → String
escape String.[] rest = rest
escape (String.◌∷◌ c s) rest =
    if is_quote c
    then String.◌∷◌ "\"" (String.◌∷◌ "\"" (escape s rest))
    else String.◌∷◌ c (escape s rest)

abbrev pub print_field : String → String → String
print_field s rest = String.◌∷◌ "\"" (escape s (String.◌∷◌ "\"" rest))

abbrev pub print_fields : String → List String → String → String
print_fields f [] rest = print_field f (String.◌∷◌ "\n" rest)
print_fields f (g ∷ fs) rest = print_field f (String.◌∷◌ "," (print_fields g fs rest))

-- Each record on a line of its own; it has a first field.
abbrev pub print_records : List (String × List String) → String
print_records [] = ""
print_records ((f, fs) ∷ records) = print_fields f fs (print_records records)

abbrev pub fields_of : String × List String → List String
fields_of (f, fs) = f ∷ fs

add_char_append :
    (field : String) (c : Char) (s : String)
    → append_text (add_char field c) s ≡ append_text field (String.◌∷◌ c s)
unfolding append_text
add_char_append field c s = append_text_assoc field (String.◌∷◌ c String.[]) s

read_plain :
    (c : Char) (saw : Bool) (field : String) (row : List String) (s : String)
    → is_quote c ≡ false
    → read_records true saw field row (String.◌∷◌ c s)
      ≡ read_records true saw (add_char field c) row s
unfolding read_records
read_plain c saw field row String.[] h = rw (read_records, h) refl
read_plain c saw field row (String.◌∷◌ d s) h = rw (read_records, h) refl

is_quote-quote : (c : Char) → is_quote c ≡ true → "\"" ≡ c
is_quote-quote c h = Char-path "\"" c (ground arith)

read_doubled :
    (saw : Bool) (field : String) (row : List String) (s : String)
    → read_records true saw field row (String.◌∷◌ "\"" (String.◌∷◌ "\"" s))
      ≡ read_records true saw (add_char field "\"") row s
unfolding read_records
read_doubled saw field row s = refl

read_closing :
    (d : Char) (saw : Bool) (field : String) (row : List String) (s : String)
    → is_quote d ≡ false
    → read_records true saw field row (String.◌∷◌ "\"" (String.◌∷◌ d s))
      ≡ read_records false saw field row (String.◌∷◌ d s)
unfolding read_records
read_closing d saw field row s h =
    ap
      (λ (b : Bool). elim b [
        | true ↦ read_records true saw (add_char field "\"") row s
        | false ↦ read_records false saw field row (String.◌∷◌ d s)
      ])
      h

-- The rest of a quoted field is read up to its closing quote.
read_escaped :
    (s : String) (d : Char) (saw : Bool) (field : String) (row : List String) (rest : String)
    → is_quote d ≡ false
    → read_records true saw field row (escape s (String.◌∷◌ "\"" (String.◌∷◌ d rest)))
      ≡ read_records false saw (append_text field s) row (String.◌∷◌ d rest)
read_escaped String.[] d saw field row rest h =
    rw (append_text-nil field) (read_closing d saw field row rest h)
read_escaped (String.◌∷◌ c s) d saw field row rest h = elim (Bool-cases (is_quote c)) [
  | inl quote ↦
      let after = escape s (String.◌∷◌ "\"" (String.◌∷◌ d rest)) in
      rw (quote, sym (add_char_append field c s), sym (is_quote-quote c quote))
        (read_doubled saw field row after ∙ read_escaped s d saw (add_char field "\"") row rest h)
  | inr plain ↦
      rw (plain, sym (add_char_append field c s))
        (read_plain c saw field row (escape s (String.◌∷◌ "\"" (String.◌∷◌ d rest))) plain
          ∙ read_escaped s d saw (add_char field c) row rest h)
]

read_open :
    (saw : Bool) (row : List String) (s : String)
    → read_records false saw "" row (String.◌∷◌ "\"" s) ≡ read_records true true "" row s
unfolding read_records
read_open saw row s = refl

read_comma :
    (field : String) (row : List String) (s : String)
    → read_records false true field row (String.◌∷◌ "," s)
      ≡ read_records false true "" (row ++ field ∷ []) s
unfolding read_records
read_comma field row s = refl

read_newline :
    (field : String) (row : List String) (s : String)
    → read_records false true field row (String.◌∷◌ "\n" s)
      ≡ (row ++ field ∷ []) ∷ read_records false false "" [] s
unfolding read_records
read_newline field row s = refl

-- A printed field is read up to the mark after it.
read_field :
    (f : String) (d : Char) (saw : Bool) (row : List String) (rest : String)
    → is_quote d ≡ false
    → read_records false saw "" row (print_field f (String.◌∷◌ d rest))
      ≡ read_records false true f row (String.◌∷◌ d rest)
unfolding append_text
read_field f d saw row rest h =
    read_open saw row (escape f (String.◌∷◌ "\"" (String.◌∷◌ d rest)))
    ∙ read_escaped f d true "" row rest h

read_fields :
    (f : String) (fs : List String) (saw : Bool) (row : List String) (rest : String)
    → read_records false saw "" row (print_fields f fs rest)
      ≡ (row ++ f ∷ fs) ∷ read_records false false "" [] rest
read_fields f [] saw row rest = read_field f "\n" saw row rest refl ∙ read_newline f row rest
read_fields f (g ∷ fs) saw row rest =
    read_field f "," saw row (print_fields g fs rest) refl
    ∙ read_comma f row (print_fields g fs rest)
    ∙ read_fields g fs true (row ++ f ∷ []) rest
    ∙ ap (λ r. r ∷ read_records false false "" [] rest) (append_assoc row (f ∷ []) (g ∷ fs))

-- The reader of CSV gives back what was printed with every field in quotes and the quotes in it
-- doubled, whatever the fields hold, commas and line breaks included: each record has at least one
-- field and ends its line.
pub records_of-print_records :
    (records : List (String × List String))
    → records_of (print_records records) ≡ map fields_of records
unfolding records_of read_records ◌==◌
records_of-print_records [] = refl
records_of-print_records ((f, fs) ∷ records) =
    read_fields f fs false [] (print_records records)
    ∙ ap ((f ∷ fs) ∷◌) (records_of-print_records records)
