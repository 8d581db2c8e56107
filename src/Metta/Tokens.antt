-- ===== src/Metta/Tokens.antt =====
-- The tokens of a printed S-expression (ts/src/metta.ts, `tokenize` and `serialize`).
use Prim.Native.Char.{Char, code}
use hellgraph.Base.{
  String, ◌≡◌, refl, ap, ◌∙◌, Bool, true, false, not, ◌&&◌, List, [], ◌∷◌, arith, nat_eq,
}
use hellgraph.Base.Text.{append_text, append_text-nil, append_text_assoc}
use hellgraph.Metta.{
  SExpr, symbol, var, list, Items, nil, cons, is_space, scan, tokenize, serialize, join_items,
}

-- A character that a token may hold.
abbrev pub in_token : Char → Bool
in_token c = not (nat_eq (code c) b'(') && not (nat_eq (code c) b')') && not (is_space c)

abbrev pub is_clean : String → Bool
is_clean String.[] = true
is_clean (String.◌∷◌ c s) = in_token c && is_clean s

-- A symbol that prints as one token and reads back as a symbol.
abbrev pub IsName : String → Type 0
IsName String.[] = ⊥
IsName (String.◌∷◌ c s) = (is_clean (String.◌∷◌ c s) ≡ true) × (nat_eq (code c) b'$' ≡ false)

abbrev mutual
  pub IsPrintable : SExpr → Type 0
  IsPrintable (symbol name) = IsName name
  IsPrintable (var name) = is_clean name ≡ true
  IsPrintable (list items) = ArePrintable items

  pub ArePrintable : Items → Type 0
  ArePrintable nil = Unit
  ArePrintable (cons e items) = IsPrintable e × ArePrintable items

-- The tokens of an expression, and of the items and the closing parenthesis of a list, in front of
-- others.
abbrev mutual
  pub emit : SExpr → List String → List String
  emit (symbol name) ts = name ∷ ts
  emit (var name) ts = append_text "$" name ∷ ts
  emit (list items) ts = "(" ∷ emit_items items ts

  pub emit_items : Items → List String → List String
  emit_items nil ts = ")" ∷ ts
  emit_items (cons e items) ts = emit e (emit_items items ts)

scan_word :
    (w rest : String)
    → is_clean w ≡ true
    → scan (append_text w rest) ≡ (append_text w (scan rest).0, (scan rest).1)
unfolding scan append_text
scan_word String.[] rest h = refl
scan_word (String.◌∷◌ c w) rest h = ground (arith, scan_word w rest)

-- The text goes on with a space, a parenthesis or its end.
abbrev pub AtBoundary : String → Type 0
AtBoundary rest = (scan rest).0 ≡ ""

tokenize_word :
    (c : Char) (w rest : String)
    → is_clean (String.◌∷◌ c w) ≡ true
    → AtBoundary rest
    → tokenize (append_text (String.◌∷◌ c w) rest) ≡ (String.◌∷◌ c w) ∷ tokenize rest
unfolding tokenize append_text
tokenize_word c w rest h b = rw (scan_word (String.◌∷◌ c w) rest h, b, append_text-nil w) refl

tokenize_open : (rest : String) → tokenize (append_text "(" rest) ≡ "(" ∷ tokenize rest
unfolding tokenize scan append_text
tokenize_open rest = refl

tokenize_close : (rest : String) → tokenize (append_text ")" rest) ≡ ")" ∷ tokenize rest
unfolding tokenize scan append_text
tokenize_close rest = refl

tokenize_space : (rest : String) → tokenize (append_text " " rest) ≡ tokenize rest
unfolding tokenize scan is_space append_text
tokenize_space rest = refl

close-AtBoundary : (rest : String) → AtBoundary (append_text ")" rest)
unfolding scan append_text
close-AtBoundary rest = refl

space-AtBoundary : (rest : String) → AtBoundary (append_text " " rest)
unfolding scan is_space append_text
space-AtBoundary rest = refl

pub end-AtBoundary : AtBoundary ""
unfolding scan
end-AtBoundary = refl

pub tokenize_nil : tokenize "" ≡ []
unfolding tokenize scan
tokenize_nil = refl

mutual
  unfolding serialize append_text is_space

  pub tokenize_printed :
      (e : SExpr) (rest : String)
      → IsPrintable e
      → AtBoundary rest
      → tokenize (append_text (serialize e) rest) ≡ emit e (tokenize rest)
  tokenize_printed (symbol String.[]) rest p b = absurd p
  tokenize_printed (symbol (String.◌∷◌ c name)) rest p b = tokenize_word c name rest p.0 b
  tokenize_printed (var name) rest p b = tokenize_word "$" name rest p b
  tokenize_printed (list items) rest p b = rw (append_text_assoc (join_items items) ")" rest) (
      tokenize_open (append_text (join_items items) (append_text ")" rest))
      ∙ ap ("(" ∷◌) (tokenize_items items rest p))

  tokenize_items :
      (items : Items) (rest : String)
      → ArePrintable items
      → tokenize (append_text (join_items items) (append_text ")" rest))
        ≡ emit_items items (tokenize rest)
  tokenize_items nil rest p = tokenize_close rest
  tokenize_items (cons e nil) rest p =
      tokenize_printed e (append_text ")" rest) p.0 (close-AtBoundary rest)
      ∙ ap (emit e) (tokenize_close rest)
  tokenize_items (cons e (cons d items)) rest p =
      rw
        (append_text_assoc (serialize e) (append_text " " (join_items (cons d items)))
          (append_text ")" rest))
        (tokenize_printed e
            (append_text " " (append_text (join_items (cons d items)) (append_text ")" rest))) p.0
            (space-AtBoundary (append_text (join_items (cons d items)) (append_text ")" rest)))
          ∙ ap (emit e) (
              tokenize_space (append_text (join_items (cons d items)) (append_text ")" rest))
              ∙ tokenize_items (cons d items) rest p.1))
